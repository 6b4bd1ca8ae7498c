-- ===== src/Delivery.antt =====
-- app/delivery/service.py: the words and results of the delivery worker. The file system is a
-- parameter: what it holds, how each copy ends, and the texts of the locators on it.
pub mod Outcome
pub mod Targets
pub mod Worker
pub mod Run
pub mod Keeps
mod Tests
use stream_lite.Base.{ℕ, Bool, ◌&&◌, ◌||◌, Option, none, some, List, ltb}
use stream_lite.Base.Text.{Text, text}
use stream_lite.Base.Exec.{Result}
use stream_lite.Jobs.{JobState, state_eq}
use stream_lite.Store.Rows.{DestinationOutcome, ManifestStatus}
use stream_lite.Store.Model.{Service, Job, Payload, IdempotencyKey}
use stream_lite.Store.Jobs.{Transition}
use stream_lite.Routing.Delivery.{Target}
use stream_lite.Events.{Event}

abbrev pub reason_delivery_started : Text
reason_delivery_started = text "DELIVERY_STARTED"

abbrev pub reason_delivery_completed : Text
reason_delivery_completed = text "DELIVERY_COMPLETED"

abbrev pub reason_job_completed : Text
reason_job_completed = text "JOB_COMPLETED"

abbrev pub reason_job_not_claimed : Text
reason_job_not_claimed = text "JOB_CLAIM_CONFLICT"

abbrev pub reason_job_not_deliverable : Text
reason_job_not_deliverable = text "JOB_NOT_DELIVERABLE"

abbrev pub reason_job_not_found : Text
reason_job_not_found = text "JOB_NOT_FOUND"

abbrev pub reason_output_manifest_not_found : Text
reason_output_manifest_not_found = text "OUTPUT_MANIFEST_NOT_FOUND"

abbrev pub reason_no_matching_destination : Text
reason_no_matching_destination = text "NO_MATCHING_DESTINATION"

-- 30 seconds, in microseconds
abbrev pub lease_micros : ℕ
lease_micros = 30000000

-- DeliveryCopyResult
pub record CopyResult : Type 0 where
  pub is_delivered : Bool
  pub finalized_locator : Option Text
  pub checksum_sha256 : Option Text
  pub bytes_written : ℕ
  pub reason_code : Option Text
  pub retryable : Bool
  pub operator_message : Text

-- The fields of the artifact OutputManifest that the worker reads.
pub record Manifest : Type 0 where
  pub produced_output_locators : List Text
  pub source_sha256 : Text

pub record Files : Type 0 where
  -- _load_output_manifest: `none` where the file is missing or no manifest
  pub load_output_manifest : Text → Option Manifest
  -- _build_finalized_locator and _build_temporary_locator
  pub finalized_locator : ℕ → Job → Target → Text → ℕ → Text
  pub temporary_locator : Text → Text
  -- copy_output_to_destination, for a source, a target and a start; it may raise
  pub copy_output_to_destination : ℕ → Job → Text → Target → ℕ → Result CopyResult
  -- build_output_manifest and write_manifest, which may raise
  pub write_manifest : Text → List DestinationOutcome → ManifestStatus → Result (Unit {0})

-- What the clock reads: at the claim, at the start and the end of each target, at the end.
pub record Readings : Type 0 where
  pub claim_started_at : ℕ
  pub destination_started_at : ℕ → ℕ
  pub destination_completed_at : ℕ → ℕ
  pub finalized_at : ℕ
  pub released_at : ℕ

pub data Status : Type 0 where
  delivered failed skipped : Status

-- DeliveryWorkerResult, its job left to the caller who gave it.
pub record WorkerResult : Type 0 where
  pub status : Status
  pub final_state : Option JobState
  pub reason_code : Text
  pub attempt_number : Option ℕ
  pub event_type : Option Text
  pub output_manifest_id : Option ℕ
  pub successful_destination_count : ℕ
  pub failed_destination_count : ℕ

abbrev pub skip : Text → Option JobState → Option ℕ → WorkerResult
skip reason_code final_state attempt_number = record {
  status = Status.skipped;
  final_state = final_state;
  reason_code = reason_code;
  attempt_number = attempt_number;
  event_type = none;
  output_manifest_id = none;
  successful_destination_count = 0;
  failed_destination_count = 0;
}

unfoldable pub is_deliverable_state : JobState → ℕ → Bool
is_deliverable_state state attempt_number =
    state_eq state JobState.processed
    || (state_eq state JobState.delivering && ltb 1 attempt_number)

abbrev pub by_delivery : JobState → JobState → Text → ℕ → ℕ → Transition
by_delivery previous_state new_state reason_code correlation_id transitioned_at = record {
  previous_state = some previous_state;
  new_state = new_state;
  actor_service = Service.delivery_service;
  reason_code = reason_code;
  correlation_id = correlation_id;
  transitioned_at = transitioned_at;
  event_id = none;
  transition_sequence = none;
}

abbrev pub delivery_event : IdempotencyKey → Text → ℕ → Job → ℕ → ℕ → ℕ → Payload → Event
delivery_event idempotency_key event_type job_id job attempt_number correlation_id occurred_at
      payload =
    record {
      schema_version = text "1.0.0";
      event_type = event_type;
      producer = Service.delivery_service;
      correlation_id = correlation_id;
      job_id = job_id;
      watcher_id = job.watcher_id;
      attempt_number = attempt_number;
      occurred_at = occurred_at;
      idempotency_key = idempotency_key;
      payload = payload;
    }
