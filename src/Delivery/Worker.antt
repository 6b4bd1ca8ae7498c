-- ===== src/Delivery/Worker.antt =====
-- DeliveryWorker of app/delivery/service.py: the output of a job is copied to every destination that
-- shares a tag with its source, and the job ends by the outcomes of the copies.
use stream_lite.Base.{
  ℕ, ◌+◌, Bool, true, false, Option, none, some, List, [], ◌∷◌, ltb, if◌then◌else◌,
}
use stream_lite.Base.Text.{Text, text}
use stream_lite.Base.Exec.{Result, ok, err, Exec, pure, lift, caught, finally, ◌>>=◌, ◌>>◌}
use stream_lite.Jobs.{JobState, state_eq}
use stream_lite.Store.Rows.{DestinationOutcome, OutputManifestRow, ManifestStatus}
use stream_lite.Store.Model.{
  Stage, Service, IdempotencyKey, job_completed_payload, Db, generate_uuid,
}
use stream_lite.Store.Jobs.{move}
use stream_lite.Store.Claims.{claim_stage, release_stage}
use stream_lite.Store.Attempts.{create_output_manifest}
use stream_lite.Events.{enqueue_event}
use stream_lite.Routing.Delivery.{Target}
use stream_lite.Delivery.{
  Files, Readings, Status, WorkerResult, skip, by_delivery, delivery_event, lease_micros,
  reason_delivery_started, reason_delivery_completed, reason_job_completed, reason_job_not_claimed,
  reason_no_matching_destination,
}
use stream_lite.Delivery.Outcome.{Final, final_state_from_outcomes}
use stream_lite.Delivery.Targets.{Work, Tally, no_tally, deliver_targets}

-- The row of the final manifest, from the row of the processed one.
abbrev final_manifest : Work → List DestinationOutcome → ManifestStatus → ℕ → ℕ → OutputManifestRow
final_manifest w outcomes status finalized_at now = record {
  job_id = w.job_id;
  watcher_id = w.job.watcher_id;
  schema_version = w.manifest_row.schema_version;
  manifest_locator = w.manifest_row.manifest_locator;
  processing_summary_locator = w.manifest_row.processing_summary_locator;
  produced_output_locators = w.manifest_row.produced_output_locators;
  source_sha256 = w.manifest_row.source_sha256;
  output_sha256 = w.manifest_row.output_sha256;
  destination_outcomes = outcomes;
  finalized_at = finalized_at;
  status = status;
  correlation_id = w.correlation_id;
  created_at = now;
}

-- The manifest's file, then its row.
unfoldable pub record_manifest :
    Files → Work → List DestinationOutcome → ManifestStatus → ℕ → Exec Db (Unit {0})
record_manifest files w outcomes status finalized_at = do
  lift (files.write_manifest w.manifest_row.manifest_locator outcomes status)
  λ db.
      create_output_manifest w.final_output_manifest_id
        (final_manifest w outcomes status finalized_at db.now) db

-- _fail_without_delivery_targets
unfoldable pub fail_without_delivery_targets : Files → Readings → Work → Exec Db WorkerResult
unfolding generate_uuid
fail_without_delivery_targets files clock w = do
  move w.job_id (some reason_no_matching_destination) (some w.attempt_number) (
      by_delivery w.job.state JobState.failed reason_no_matching_destination w.correlation_id
        clock.finalized_at)
  manifest_id ← generate_uuid
  record_manifest files (record w { final_output_manifest_id = manifest_id }) []
      ManifestStatus.failed clock.finalized_at
  pure (record {
    status = Status.failed;
    final_state = some JobState.failed;
    reason_code = reason_no_matching_destination;
    attempt_number = some w.attempt_number;
    event_type = none;
    output_manifest_id = some manifest_id;
    successful_destination_count = 0;
    failed_destination_count = 0;
  })

-- failed_reason_codes[0] if failed_reason_codes else None
abbrev pub first_code : List Text → Option Text
first_code [] = none
first_code (code ∷ codes) = some code

-- The moves at the end: by way of DELIVERED where the job is COMPLETED.
abbrev pub finish_completed : ℕ → Work → Exec Db (Unit {0})
finish_completed finalized_at w = do
  move w.job_id none (some w.attempt_number) (
      by_delivery JobState.delivering JobState.delivered reason_delivery_completed w.correlation_id
        finalized_at)
  move w.job_id none (some w.attempt_number) (
      by_delivery JobState.delivered JobState.completed reason_job_completed w.correlation_id
        finalized_at)
  pure tt

abbrev pub finish_other : ℕ → Work → Final → Tally → Exec Db (Unit {0})
finish_other finalized_at w final t = do
  move w.job_id (first_code t.failed_reason_codes) (some w.attempt_number)
      (by_delivery JobState.delivering final.state final.reason_code w.correlation_id finalized_at)
  pure tt

unfoldable pub finish_job : ℕ → Work → Final → Tally → Exec Db (Unit {0})
finish_job finalized_at w final t =
    if state_eq final.state JobState.completed
    then finish_completed finalized_at w
    else finish_other finalized_at w final t

-- final_state in {"COMPLETED", "COMPLETED_WITH_DELIVERY_ERRORS"}
abbrev pub ends_complete : JobState → Bool
ends_complete JobState.completed = true
ends_complete JobState.completed_with_delivery_errors = true
ends_complete _ = false

-- The job.completed event, and the type of the event.
unfoldable pub tell_completed : ℕ → Work → Final → Tally → Exec Db (Option Text)
tell_completed finalized_at w final t =
    if ends_complete final.state
    then (do
      enqueue_event (
          delivery_event (IdempotencyKey.job_key (text "job.completed") w.job_id w.attempt_number)
            (text "job.completed") w.job_id w.job w.attempt_number w.correlation_id finalized_at
            (job_completed_payload final.state t.successful_destination_count
              t.failed_destination_count finalized_at))
      pure (some (text "job.completed")))
    else pure none

abbrev pub worker_result : Work → Final → Tally → Option Text → WorkerResult
worker_result w final t event_type = record {
  status = if ltb 0 t.successful_destination_count then Status.delivered else Status.failed;
  final_state = some final.state;
  reason_code = final.reason_code;
  attempt_number = some w.attempt_number;
  event_type = event_type;
  output_manifest_id = some w.final_output_manifest_id;
  successful_destination_count = t.successful_destination_count;
  failed_destination_count = t.failed_destination_count;
}

-- From the last target on.
unfoldable pub finalize : Files → Readings → Work → Final → Tally → Exec Db WorkerResult
finalize files clock w final t = do
  finish_job clock.finalized_at w final t
  record_manifest files w t.destination_outcomes final.status clock.finalized_at
  event_type ← tell_completed clock.finalized_at w final t
  pure (worker_result w final t event_type)

-- The block under `try`, for the first produced output.
unfoldable pub deliver_claimed :
    Files → ℕ → Readings → Work → Text → List Target → Exec Db WorkerResult
deliver_claimed files retry_max_attempts clock w source targets = do
  move w.job_id none (some w.attempt_number) (
      by_delivery w.job.state JobState.delivering reason_delivery_started w.correlation_id
        clock.claim_started_at)
  t ←
      deliver_targets files w source clock.destination_started_at clock.destination_completed_at
        targets no_tally
  final ←
      lift (final_state_from_outcomes retry_max_attempts w.attempt_number t.destination_outcomes)
  finalize files clock w final t

abbrev pub with_claim :
    Files → ℕ → Readings → Work → Text → List Target → Result ℕ → Exec Db WorkerResult
with_claim files retry_max_attempts clock w source targets (ok claim_id) =
    finally (deliver_claimed files retry_max_attempts clock w source targets)
      (release_stage claim_id (some clock.released_at))
with_claim files retry_max_attempts clock w source targets (err e) =
    pure (skip reason_job_not_claimed (some w.job.state) (some w.attempt_number))

-- Without a target the job fails; else the new manifest id is drawn and the stage is claimed.
unfoldable pub deliver_to : Files → ℕ → Readings → Work → Text → List Target → Exec Db WorkerResult
unfolding generate_uuid
deliver_to files retry_max_attempts clock w source [] = fail_without_delivery_targets files clock w
deliver_to files retry_max_attempts clock w source (target ∷ targets) = do
  manifest_id ← generate_uuid
  claimed ← caught (
      claim_stage w.job_id Stage.delivery w.attempt_number Service.delivery_service
        (clock.claim_started_at + lease_micros) (some w.correlation_id))
  with_claim files retry_max_attempts clock (record w { final_output_manifest_id = manifest_id })
      source (target ∷ targets) claimed
