-- ===== src/Delivery/Targets.antt =====
-- The loop of deliver_one in app/delivery/service.py: the output of a job is copied to every target.
use stream_lite.Base.{
  ℕ, suc, ◌+◌, ◌-◌, true, false, Option, none, some, List, [], ◌∷◌, ◌++◌, ◌==◌, if◌then◌else◌,
}
use stream_lite.Base.Text.{Text, text, text_eq}
use stream_lite.Base.Exec.{Exec, pure, lift, ◌>>=◌, ◌>>◌}
use stream_lite.Store.Rows.{
  DeliveryAttempt, AttemptStatus, DestinationOutcome, OutputManifestRow, FolderRow, Health,
}
use stream_lite.Store.Model.{
  Job, IdempotencyKey, Payload, delivery_started_payload, delivery_completed_payload,
  delivery_failed_payload, Db,
}
use stream_lite.Store.Folders.{update_source_health, update_destination_health}
use stream_lite.Store.Attempts.{
  create_delivery_attempt, complete_delivery_attempt, fail_delivery_attempt,
}
use stream_lite.Events.{Event, enqueue_event}
use stream_lite.Routing.Delivery.{Target}
use stream_lite.Delivery.{CopyResult, Manifest, Files, delivery_event}

-- What the parts of deliver_one share: the latest processed manifest, its file, the new id.
pub record Work : Type 0 where
  pub job_id : ℕ
  pub job : Job
  pub attempt_number : ℕ
  pub correlation_id : ℕ
  pub manifest_row : OutputManifestRow
  pub manifest : Manifest
  pub final_output_manifest_id : ℕ

-- The variables of the loop over the targets.
pub record Tally : Type 0 where
  pub destination_outcomes : List DestinationOutcome
  pub failed_reason_codes : List Text
  pub successful_destination_count : ℕ
  pub failed_destination_count : ℕ

abbrev pub no_tally : Tally
no_tally = record {
  destination_outcomes = [];
  failed_reason_codes = [];
  successful_destination_count = 0;
  failed_destination_count = 0;
}

-- a or b, for a text that may be absent or empty
abbrev pub text_or : Option Text → Text → Text
text_or none b = b
text_or (some []) b = b
text_or (some (c ∷ s)) b = c ∷ s

-- copy_result.bytes_written or None
abbrev some_bytes : ℕ → Option ℕ
some_bytes n = if n == 0 then none else some n

-- _delivery_idempotency_key, and the event under it.
abbrev target_event : Text → Work → Target → ℕ → Payload → Event
target_event event_type w target occurred_at payload =
    delivery_event
      (IdempotencyKey.folder_key event_type w.job_id target.destination_folder_id w.attempt_number)
      event_type w.job_id w.job w.attempt_number w.correlation_id occurred_at payload

abbrev new_attempt : Files → Work → Text → Target → ℕ → ℕ → DeliveryAttempt
new_attempt files w source target started_at now = record {
  job_id = w.job_id;
  destination_folder_id = target.destination_folder_id;
  attempt_number = w.attempt_number;
  matched_route_tags = target.matched_route_tags;
  temporary_locator =
      some
        (files.temporary_locator (files.finalized_locator w.job_id w.job target source started_at));
  finalized_locator = none;
  manifest_locator = none;
  checksum_sha256 = none;
  status = AttemptStatus.started;
  failure_code = none;
  started_at = started_at;
  completed_at = none;
  correlation_id = w.correlation_id;
  created_at = now;
  updated_at = now;
}

-- build_destination_outcome of a copy that was delivered, and of one that failed.
abbrev pub delivered_outcome : Target → CopyResult → DestinationOutcome
delivered_outcome target copied = record {
  destination_folder_id = target.destination_folder_id;
  destination_display_path = target.destination_display_path;
  matched_route_tags = target.matched_route_tags;
  is_delivered = true;
  finalized_locator = copied.finalized_locator;
  checksum_sha256 = copied.checksum_sha256;
  bytes_written = some copied.bytes_written;
  reason_code = none;
  retryable = false;
}

abbrev pub failed_outcome : Target → CopyResult → Text → DestinationOutcome
failed_outcome target copied error_code = record {
  destination_folder_id = target.destination_folder_id;
  destination_display_path = target.destination_display_path;
  matched_route_tags = target.matched_route_tags;
  is_delivered = false;
  finalized_locator = none;
  checksum_sha256 = none;
  bytes_written = some_bytes copied.bytes_written;
  reason_code = some error_code;
  retryable = copied.retryable;
}

abbrev pub with_success : Target → CopyResult → Tally → Tally
with_success target copied t = record t {
  successful_destination_count = t.successful_destination_count + 1;
  destination_outcomes = t.destination_outcomes ++ (delivered_outcome target copied ∷ []);
}

abbrev pub with_failure : Target → CopyResult → Text → Tally → Tally
with_failure target copied error_code t = record t {
  failed_destination_count = t.failed_destination_count + 1;
  failed_reason_codes = t.failed_reason_codes ++ (error_code ∷ []);
  destination_outcomes = t.destination_outcomes ++ (failed_outcome target copied error_code ∷ []);
}

-- _record_transfer_health_failure
unfoldable pub record_transfer_health_failure : Work → Target → Text → Exec Db FolderRow
record_transfer_health_failure w target reason_code =
    if text_eq reason_code (text "SOURCE_TRANSFER_FAILED")
    then update_source_health w.job.source_folder_id Health.red (some reason_code)
    else update_destination_health target.destination_folder_id Health.red (some reason_code)

module _ (files : Files) (w : Work) (source : Text) where
  unfoldable pub finish_delivered : Target → CopyResult → ℕ → ℕ → ℕ → Tally → Exec Db Tally
  finish_delivered target copied attempt_id started_at completed_at t = do
    complete_delivery_attempt attempt_id
        (text_or copied.finalized_locator
          (files.finalized_locator w.job_id w.job target source started_at))
        w.manifest_row.manifest_locator (text_or copied.checksum_sha256 w.manifest.source_sha256)
        completed_at
    enqueue_event (
        target_event (text "delivery.completed") w target completed_at (
          delivery_completed_payload target.destination_folder_id target.destination_display_path
            w.final_output_manifest_id copied.bytes_written completed_at
            (completed_at - started_at)))
    pure (with_success target copied t)

  unfoldable pub finish_failed : Target → CopyResult → ℕ → ℕ → Text → Tally → Exec Db Tally
  finish_failed target copied attempt_id completed_at error_code t = do
    record_transfer_health_failure w target error_code
    fail_delivery_attempt attempt_id error_code completed_at (some w.manifest_row.manifest_locator)
    enqueue_event (
        target_event (text "delivery.failed") w target completed_at (
          delivery_failed_payload target.destination_folder_id target.destination_display_path
            error_code copied.operator_message copied.retryable))
    pure (with_failure target copied error_code t)

  -- The body of the loop, for the start and the end of one target.
  unfoldable pub deliver_target : Target → ℕ → ℕ → Tally → Exec Db Tally
  deliver_target target started_at completed_at t = do
    attempt_id ←
        λ db. create_delivery_attempt (new_attempt files w source target started_at db.now) db
    enqueue_event (
        target_event (text "delivery.started") w target started_at (
          delivery_started_payload target.destination_folder_id target.destination_display_path
            target.matched_route_tags w.final_output_manifest_id started_at))
    copied ← lift (files.copy_output_to_destination w.job_id w.job source target started_at)
    if copied.is_delivered
        then finish_delivered target copied attempt_id started_at completed_at t
        else finish_failed target copied attempt_id completed_at
            (text_or copied.reason_code (text "FINALIZE_FAILED")) t

  unfoldable pub deliver_targets : (ℕ → ℕ) → (ℕ → ℕ) → List Target → Tally → Exec Db Tally
  deliver_targets started completed [] t = pure t
  deliver_targets started completed (target ∷ targets) t = do
    next ← deliver_target target (started 0) (completed 0) t
    deliver_targets (λ i. started (suc i)) (λ i. completed (suc i)) targets next
