-- ===== src/Delivery/Run.antt =====
-- deliver_one and claim_and_deliver of app/delivery/service.py: from the checks on the job to its
-- targets, and the loop over the jobs that wait.
use stream_lite.Base.{
  ℕ, suc, ◌+◌, Option, none, some, List, [], ◌∷◌, ◌++◌, keep, map, take, ◌==◌, if◌then◌else◌,
}
use mathlib.Core.List.{reverse}
use stream_lite.Base.Text.{Text, Casing}
use stream_lite.Base.Table.{get}
use stream_lite.Base.Exec.{bad_argument, Exec, pure, raise, ◌>>=◌}
use stream_lite.Jobs.{JobState}
use stream_lite.Store.Rows.{OutputManifestRow, FolderRow}
use stream_lite.Store.Model.{Job, Db}
use stream_lite.Store.Jobs.{or_old, list_jobs}
use stream_lite.Store.Folders.{list_sources, list_destinations}
use stream_lite.Store.Attempts.{latest_processed_manifest}
use stream_lite.Routing.{Tagged, tags, tag_invalid, Destination}
use stream_lite.Routing.Delivery.{
  Target, Resolution, resolve_delivery_targets, enabled_destinations,
}
use stream_lite.Processing.{resolve_attempt_number, is_retry_attempt}
use stream_lite.Delivery.{
  Manifest, Files, Readings, Status, WorkerResult, skip, is_deliverable_state,
  reason_job_not_deliverable, reason_job_not_found, reason_output_manifest_not_found,
}
use stream_lite.Delivery.Targets.{Work}
use stream_lite.Delivery.Worker.{deliver_to}

-- What the router reads of a row of watcher_destinations.
abbrev destination_of : ℕ × FolderRow → Destination
destination_of (id, row) = record {
  destination_folder_id = id;
  enabled = row.enabled;
  route_tags = row.route_tags;
  locator = row.normalized_path;
  display_path = row.display_path;
}

-- The tags of the source under this id; none where there is no such source.
abbrev tags_of : ℕ → List (ℕ × FolderRow) → List Text
tags_of source_folder_id [] = []
tags_of source_folder_id ((id, row) ∷ rows) =
    if id == source_folder_id then row.route_tags else tags_of source_folder_id rows

abbrev pub resolution_targets : Tagged Resolution → Exec Db (List Target)
resolution_targets (tags resolution) = pure resolution.targets
resolution_targets (tag_invalid tag) = raise bad_argument

abbrev pub targets_for : Casing → List Text → List Destination → Exec Db (List Target)
targets_for k [] destinations = pure []
targets_for k (tag ∷ source_tags) destinations =
    resolution_targets (resolve_delivery_targets k (tag ∷ source_tags) destinations)

-- _resolve_targets
unfoldable pub resolve_targets : Casing → ℕ → ℕ → Exec Db (List Target)
unfolding resolve_delivery_targets enabled_destinations
resolve_targets k watcher_id source_folder_id = do
  destinations ← list_destinations watcher_id
  sources ← list_sources watcher_id
  targets_for k (tags_of source_folder_id sources)
      (enabled_destinations (map destination_of destinations))

module _ (k : Casing) (files : Files) (retry_max_attempts : ℕ) (clock : Readings) (job_id : ℕ)
    (correlation_id : Option ℕ) where
  abbrev pub no_manifest : Job → WorkerResult
  no_manifest job =
      skip reason_output_manifest_not_found (some job.state)
        (some (resolve_attempt_number job.attempt_number))

  -- The id of the final manifest is drawn later.
  abbrev pub work : Job → OutputManifestRow → Manifest → Work
  work job row manifest = record {
    job_id = job_id;
    job = job;
    attempt_number = resolve_attempt_number job.attempt_number;
    correlation_id = or_old correlation_id job.correlation_id;
    manifest_row = row;
    manifest = manifest;
    final_output_manifest_id = 0;
  }

  abbrev pub with_outputs : Job → OutputManifestRow → Manifest → List Text → Exec Db WorkerResult
  with_outputs job row manifest [] = pure (no_manifest job)
  with_outputs job row manifest (source ∷ others) = do
    targets ← resolve_targets k job.watcher_id job.source_folder_id
    deliver_to files retry_max_attempts clock (work job row manifest) source targets

  abbrev pub with_file : Job → OutputManifestRow → Option Manifest → Exec Db WorkerResult
  with_file job row none = pure (no_manifest job)
  with_file job row (some manifest) =
      with_outputs job row manifest manifest.produced_output_locators

  abbrev pub with_manifest : Job → Option (ℕ × OutputManifestRow) → Exec Db WorkerResult
  with_manifest job none = pure (no_manifest job)
  with_manifest job (some (id, row)) =
      with_file job row (files.load_output_manifest row.manifest_locator)

  abbrev pub for_job : Option Job → Exec Db WorkerResult
  for_job none = pure (skip reason_job_not_found none none)
  for_job (some job) =
      if is_deliverable_state job.state job.attempt_number
      then (do manifest ← latest_processed_manifest job_id; with_manifest job manifest)
      else pure (skip reason_job_not_deliverable (some job.state) none)

  unfoldable pub deliver_one : Exec Db WorkerResult
  deliver_one db = for_job (get job_id db.jobs) db

-- DeliveryBatchResult
pub record BatchResult : Type 0 where
  pub claimed : ℕ
  pub delivered : ℕ
  pub failed : ℕ
  pub skipped : ℕ

abbrev pub counted : Status → BatchResult → BatchResult
counted Status.delivered b = record b { claimed = b.claimed + 1; delivered = b.delivered + 1 }
counted Status.failed b = record b { claimed = b.claimed + 1; failed = b.failed + 1 }
counted Status.skipped b = record b { skipped = b.skipped + 1 }

module _ (k : Casing) (files : Files) (retry_max_attempts : ℕ) (correlation_id : Option ℕ) where
  -- The loop; each job has its own readings of the clock.
  unfoldable pub deliver_each : (ℕ → Readings) → List (ℕ × Job) → BatchResult → Exec Db BatchResult
  deliver_each clock [] b = pure b
  deliver_each clock ((id, job) ∷ jobs) b = do
    result ←
        deliver_one k files retry_max_attempts (clock 0) id
          (some (or_old correlation_id job.correlation_id))
    deliver_each (λ i. clock (suc i)) jobs (counted result.status b)

  -- A negative limit counts as 0.
  unfoldable pub claim_and_deliver : (ℕ → Readings) → ℕ → Exec Db BatchResult
  claim_and_deliver clock limit = do
    processed ← list_jobs JobState.processed
    delivering ← list_jobs JobState.delivering
    deliver_each clock
        (take limit (
          reverse processed
          ++ keep (λ r. is_retry_attempt r.1.attempt_number) (reverse delivering)))
        (record { claimed = 0; delivered = 0; failed = 0; skipped = 0 })
