-- ===== src/Processing.antt =====
-- app/processing/engine.py: the words and results of the processing worker. The adapter that
-- transforms the file is a parameter: its answer for each job.
pub mod Worker
pub mod Batch
mod Tests
use stream_lite.Base.{ℕ, Bool, true, false, ◌&&◌, ◌||◌, Option, none, some, ltb, if◌then◌else◌}
use stream_lite.Base.Text.{Text, text}
use stream_lite.Base.Exec.{Result}
use stream_lite.Jobs.{JobState, state_eq}
use stream_lite.Store.Model.{Service, Job, Payload, IdempotencyKey}
use stream_lite.Store.Jobs.{Transition}
use stream_lite.Events.{Event}

abbrev pub reason_job_not_found : Text
reason_job_not_found = text "JOB_NOT_FOUND"

abbrev pub reason_job_not_processable : Text
reason_job_not_processable = text "JOB_NOT_PROCESSABLE"

abbrev pub reason_job_claim_conflict : Text
reason_job_claim_conflict = text "JOB_CLAIM_CONFLICT"

abbrev pub reason_processing_started : Text
reason_processing_started = text "PROCESSING_STARTED"

abbrev pub reason_processing_completed : Text
reason_processing_completed = text "PROCESSING_COMPLETED"

abbrev pub reason_source_sha256_missing : Text
reason_source_sha256_missing = text "PROCESSING_SOURCE_SHA256_MISSING"

abbrev pub reason_validation_not_confirmed : Text
reason_validation_not_confirmed = text "PROCESSING_VALIDATION_NOT_CONFIRMED"

abbrev pub reason_processing_unexpected_error : Text
reason_processing_unexpected_error = text "PROCESSING_UNEXPECTED_ERROR"

-- 30 seconds, in microseconds
abbrev pub lease_micros : ℕ
lease_micros = 30000000

-- The fields of ProcessingAdapterResult that the worker reads.
pub record AdapterResult : Type 0 where
  pub is_processed : Bool
  pub engine : Text
  pub output_locator : Option Text
  pub summary_locator : Option Text
  pub manifest_locator : Option Text
  pub output_manifest_id : Option ℕ
  pub row_count : Option ℕ
  pub record_count : Option ℕ
  pub byte_count : Option ℕ
  pub completed_at : ℕ
  pub duration_seconds : ℕ
  pub error_code : Option Text
  pub retryable : Bool
  pub operator_message : Text

-- The adapter: `run_demo_transform` for a job, a correlation id and a start, which may raise.
pub record Adapter : Type 0 where
  pub engine : Text
  pub engine_version : Text
  pub run_demo_transform : ℕ → Job → ℕ → ℕ → Result AdapterResult

-- What the clock reads at the start, at a failure of the worker itself, and at the release.
pub record Readings : Type 0 where
  pub started_at : ℕ
  pub failed_at : ℕ
  pub released_at : ℕ

pub data Outcome : Type 0 where
  processed failed skipped : Outcome

-- ProcessingExecutionResult, its job left to the caller who gave it.
pub record ExecutionResult : Type 0 where
  pub status : Outcome
  pub final_state : Option JobState
  pub reason_code : Text
  pub attempt_number : Option ℕ
  pub event_type : Option Text
  pub error_code : Option Text
  pub output_manifest_id : Option ℕ

abbrev pub skip : Text → Option JobState → Option ℕ → Option Text → ExecutionResult
skip reason_code final_state attempt_number error_code = record {
  status = Outcome.skipped;
  final_state = final_state;
  reason_code = reason_code;
  attempt_number = attempt_number;
  event_type = none;
  error_code = error_code;
  output_manifest_id = none;
}

-- _is_retry_attempt
abbrev pub is_retry_attempt : ℕ → Bool
is_retry_attempt attempt_number = ltb 1 attempt_number

unfoldable pub is_processable_state : JobState → ℕ → Bool
is_processable_state state attempt_number =
    state_eq state JobState.validated
    || (state_eq state JobState.processing && is_retry_attempt attempt_number)

-- _resolve_attempt_number
unfoldable pub resolve_attempt_number : ℕ → ℕ
resolve_attempt_number value = if ltb value 1 then 1 else value

abbrev pub by_processor : JobState → JobState → Text → ℕ → ℕ → Transition
by_processor previous_state new_state reason_code correlation_id transitioned_at = record {
  previous_state = some previous_state;
  new_state = new_state;
  actor_service = Service.processor;
  reason_code = reason_code;
  correlation_id = correlation_id;
  transitioned_at = transitioned_at;
  event_id = none;
  transition_sequence = none;
}

-- An event of the worker, under the key that build_idempotency_key gives it.
abbrev pub processor_event : Text → ℕ → Job → ℕ → ℕ → ℕ → Payload → Event
processor_event event_type job_id job attempt_number correlation_id occurred_at payload = record {
  schema_version = text "1.0.0";
  event_type = event_type;
  producer = Service.processor;
  correlation_id = correlation_id;
  job_id = job_id;
  watcher_id = job.watcher_id;
  attempt_number = attempt_number;
  occurred_at = occurred_at;
  idempotency_key = IdempotencyKey.event_key event_type job_id attempt_number;
  payload = payload;
}
