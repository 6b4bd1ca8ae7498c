-- ===== src/Processing/Worker.antt =====
-- ProcessingWorker of app/processing/engine.py: a job is claimed, transformed and moved on, and its
-- claim is released whatever happens in between.
pub mod Keeps
pub mod Frees
pub mod Answers
use stream_lite.Base.{
  ℕ, ◌+◌, ◌-◌, Bool, true, false, not, ◌&&◌, ◌||◌, Option, none, some, List, [], ◌∷◌, ◌++◌, ltb,
  take, keep, if◌then◌else◌,
}
use mathlib.Core.List.{reverse}
use Prim.Native.Nat.{◌/◌}
use stream_lite.Base.Text.{Text, text, text_eq}
use stream_lite.Base.Table.{get}
use stream_lite.Base.Exec.{
  Result, ok, err, bad_argument, Exec, pure, raise, lift, caught, finally, ◌>>=◌, ◌>>◌,
}
use stream_lite.Jobs.{JobState, state_eq}
use stream_lite.Store.Rows.{
  ProcessingAttempt, AttemptStatus, ValidationAttempt, OutputManifestRow, ManifestStatus,
}
use stream_lite.Store.Model.{
  Stage, Service, Job, Claim, processing_started_payload, processing_completed_payload,
  processing_failed_payload, Db,
}
use stream_lite.Store.Jobs.{or_old, list_jobs, move}
use stream_lite.Store.Claims.{claim_stage, release_stage}
use stream_lite.Store.Attempts.{
  create_processing_attempt, complete_processing_attempt, fail_processing_attempt, Completion,
  create_output_manifest, get_latest_attempt,
}
use stream_lite.Events.{enqueue_event}
use stream_lite.Processing.{
  AdapterResult, Adapter, Readings, Outcome, ExecutionResult, skip, is_retry_attempt,
  is_processable_state, resolve_attempt_number, by_processor, processor_event, lease_micros,
  reason_job_not_found, reason_job_not_processable, reason_job_claim_conflict,
  reason_processing_started, reason_processing_completed, reason_source_sha256_missing,
  reason_validation_not_confirmed, reason_processing_unexpected_error,
}

-- What the parts of process_one share.
pub record Work : Type 0 where
  pub job_id : ℕ
  pub job : Job
  pub attempt_number : ℕ
  pub correlation_id : ℕ

-- _duration_seconds
abbrev pub seconds_between : ℕ → ℕ → ℕ
seconds_between started_at completed_at = (completed_at - started_at) / 1000000

-- _build_worker_failure
unfoldable pub build_worker_failure : Adapter → Readings → Text → Bool → Text → AdapterResult
build_worker_failure adapter clock error_code retryable operator_message = record {
  is_processed = false;
  engine = adapter.engine;
  output_locator = none;
  summary_locator = none;
  manifest_locator = none;
  output_manifest_id = none;
  row_count = none;
  record_count = none;
  byte_count = none;
  completed_at = clock.failed_at;
  duration_seconds = seconds_between clock.started_at clock.failed_at;
  error_code = some error_code;
  retryable = retryable;
  operator_message = operator_message;
}

-- not job.source_sha256
abbrev pub lacks_text : Option Text → Bool
lacks_text none = true
lacks_text (some []) = true
lacks_text (some (c ∷ s)) = false

abbrev new_attempt : Adapter → Work → ℕ → ℕ → ProcessingAttempt
new_attempt adapter w started_at now = record {
  job_id = w.job_id;
  attempt_number = w.attempt_number;
  engine = adapter.engine;
  engine_version = adapter.engine_version;
  input_locator = w.job.source_container_locator;
  output_locator = none;
  summary_locator = none;
  row_count = none;
  record_count = none;
  byte_count = none;
  started_at = started_at;
  completed_at = none;
  duration_seconds = none;
  status = AttemptStatus.started;
  error_code = none;
  correlation_id = w.correlation_id;
  created_at = now;
  updated_at = now;
}

module _ (adapter : Adapter) (clock : Readings) (w : Work) where
  -- The block under `try`, up to the assignment of processing_attempt_id.
  unfoldable pub begin_attempt : Exec Db ℕ
  begin_attempt = do
    move w.job_id none (some w.attempt_number) (
        by_processor w.job.state JobState.processing reason_processing_started w.correlation_id
          clock.started_at)
    λ db. create_processing_attempt (new_attempt adapter w clock.started_at db.now) db

  -- The rest of that block.
  unfoldable pub run_adapter : Exec Db AdapterResult
  unfolding build_worker_failure
  run_adapter = do
    enqueue_event (
        processor_event (text "processing.started") w.job_id w.job w.attempt_number w.correlation_id
          clock.started_at
          (processing_started_payload adapter.engine adapter.engine_version
            w.job.source_container_locator clock.started_at))
    if lacks_text w.job.source_sha256
        then pure (
            build_worker_failure adapter clock reason_source_sha256_missing false
              (text "Processing metadata is missing the source checksum."))
        else lift (adapter.run_demo_transform w.job_id w.job w.correlation_id clock.started_at)

  abbrev pub unexpected_failure : AdapterResult
  unexpected_failure =
      build_worker_failure adapter clock reason_processing_unexpected_error true
        (text "Processing failed unexpectedly.")

  abbrev pub result_or_failure : Result AdapterResult → AdapterResult
  result_or_failure (ok answer) = answer
  result_or_failure (err e) = unexpected_failure

  abbrev pub run_begun : Result ℕ → Exec Db (Option ℕ × AdapterResult)
  run_begun (err e) = pure (none, unexpected_failure)
  run_begun (ok processing_attempt_id) = do
    outcome ← caught run_adapter
    pure (some processing_attempt_id, result_or_failure outcome)

  -- `try` and its `except Exception`: the id of the attempt, where there is one, and the result.
  unfoldable pub attempt_run : Exec Db (Option ℕ × AdapterResult)
  attempt_run = do begun ← caught begin_attempt; run_begun begun

-- The locators and the manifest that a processed result must have.
pub record Artifacts : Type 0 where
  pub attempt_id : ℕ
  pub output : Text
  pub summary : Text
  pub manifest : Text
  pub manifest_id : ℕ

abbrev all_artifacts :
    Option ℕ → Option Text → Option Text → Option Text → Option ℕ → Option Artifacts
all_artifacts (some a) (some o) (some s) (some m) (some i) =
    some (record { attempt_id = a; output = o; summary = s; manifest = m; manifest_id = i })
all_artifacts _ _ _ _ _ = none

unfoldable pub artifacts_of : Option ℕ → AdapterResult → Option Artifacts
artifacts_of attempt answer =
    all_artifacts attempt answer.output_locator answer.summary_locator answer.manifest_locator
      answer.output_manifest_id

abbrev processed_manifest : Work → AdapterResult → Artifacts → ℕ → OutputManifestRow
processed_manifest w answer a now = record {
  job_id = w.job_id;
  watcher_id = w.job.watcher_id;
  schema_version = text "1.0.0";
  manifest_locator = a.manifest;
  processing_summary_locator = a.summary;
  produced_output_locators = a.output ∷ [];
  source_sha256 = w.job.source_sha256;
  output_sha256 = none;
  destination_outcomes = [];
  finalized_at = answer.completed_at;
  status = ManifestStatus.processed;
  correlation_id = w.correlation_id;
  created_at = now;
}

abbrev success_result : Work → Artifacts → ExecutionResult
success_result w a = record {
  status = Outcome.processed;
  final_state = some JobState.processed;
  reason_code = reason_processing_completed;
  attempt_number = some w.attempt_number;
  event_type = some (text "processing.completed");
  error_code = none;
  output_manifest_id = some a.manifest_id;
}

-- _complete_success, behind its checks.
unfoldable pub complete_with : Work → AdapterResult → Artifacts → Exec Db ExecutionResult
complete_with w answer a = do
  λ db. create_output_manifest a.manifest_id (processed_manifest w answer a db.now) db
  complete_processing_attempt a.attempt_id (record {
    output_locator = a.output;
    summary_locator = a.summary;
    completed_at = answer.completed_at;
    duration_seconds = answer.duration_seconds;
    row_count = answer.row_count;
    record_count = answer.record_count;
    byte_count = answer.byte_count;
  })
  move w.job_id none (some w.attempt_number) (
      by_processor JobState.processing JobState.processed reason_processing_completed
        w.correlation_id answer.completed_at)
  enqueue_event (
      processor_event (text "processing.completed") w.job_id w.job w.attempt_number w.correlation_id
        answer.completed_at
        (processing_completed_payload answer.engine a.manifest_id a.output answer.row_count
          answer.duration_seconds))
  pure (success_result w a)

-- _complete_success; its checks raise ValueError.
abbrev pub complete_success : Work → AdapterResult → Option Artifacts → Exec Db ExecutionResult
complete_success w answer none = raise bad_argument
complete_success w answer (some a) = complete_with w answer a

-- adapter_result.error_code or REASON_PROCESSING_UNEXPECTED_ERROR
abbrev code_or_unexpected : Option Text → Text
code_or_unexpected none = reason_processing_unexpected_error
code_or_unexpected (some []) = reason_processing_unexpected_error
code_or_unexpected (some (c ∷ s)) = c ∷ s

abbrev pub failure_code : AdapterResult → Text
failure_code answer = code_or_unexpected answer.error_code

abbrev pub failed_next : ℕ → Bool → ℕ → JobState
failed_next retry_max_attempts retryable attempt_number =
    if retryable && ltb attempt_number retry_max_attempts
    then JobState.retry_pending
    else JobState.failed

abbrev pub fail_attempt : Option ℕ → Text → AdapterResult → Exec Db (Unit {0})
fail_attempt none error_code answer = pure tt
fail_attempt (some id) error_code answer = do
  fail_processing_attempt id error_code answer.completed_at answer.duration_seconds
  pure tt

abbrev failure_result : Work → Text → JobState → ExecutionResult
failure_result w error_code next_state = record {
  status = Outcome.failed;
  final_state = some next_state;
  reason_code = error_code;
  attempt_number = some w.attempt_number;
  event_type = some (text "processing.failed");
  error_code = some error_code;
  output_manifest_id = none;
}

-- _complete_failure, for the state that the job gets.
unfoldable pub fail_to : JobState → Work → Option ℕ → AdapterResult → Exec Db ExecutionResult
fail_to next_state w attempt answer = do
  fail_attempt attempt (failure_code answer) answer
  move w.job_id (some (failure_code answer)) (some w.attempt_number) (
      by_processor JobState.processing next_state (failure_code answer) w.correlation_id
        answer.completed_at)
  enqueue_event (
      processor_event (text "processing.failed") w.job_id w.job w.attempt_number w.correlation_id
        answer.completed_at
        (processing_failed_payload answer.engine (failure_code answer) answer.operator_message
          answer.retryable))
  pure (failure_result w (failure_code answer) next_state)

abbrev pub complete_failure : ℕ → Work → Option ℕ → AdapterResult → Exec Db ExecutionResult
complete_failure retry_max_attempts w attempt answer =
    fail_to (failed_next retry_max_attempts answer.retryable w.attempt_number) w attempt answer

-- The second block under `try`.
unfoldable pub complete : ℕ → Work → Option ℕ × AdapterResult → Exec Db ExecutionResult
unfolding artifacts_of
complete retry_max_attempts w (attempt, answer) =
    if answer.is_processed
    then complete_success w answer (artifacts_of attempt answer)
    else complete_failure retry_max_attempts w attempt answer

-- From the claim on; its ValueError is the conflict.
unfoldable pub run_claimed : Adapter → ℕ → Readings → Work → ℕ → Exec Db ExecutionResult
run_claimed adapter retry_max_attempts clock w claim_id = do
  ended ← attempt_run adapter clock w
  finally (complete retry_max_attempts w ended) (release_stage claim_id (some clock.released_at))

abbrev pub with_claim : Adapter → ℕ → Readings → Work → Result ℕ → Exec Db ExecutionResult
with_claim adapter retry_max_attempts clock w (ok claim_id) =
    run_claimed adapter retry_max_attempts clock w claim_id
with_claim adapter retry_max_attempts clock w (err e) =
    pure (skip reason_job_claim_conflict (some w.job.state) (some w.attempt_number) none)

unfoldable pub claim_and_run : Adapter → ℕ → Readings → Work → Exec Db ExecutionResult
claim_and_run adapter retry_max_attempts clock w = do
  claimed ← caught (
      claim_stage w.job_id Stage.processing w.attempt_number Service.processor
        (clock.started_at + lease_micros) (some w.correlation_id))
  with_claim adapter retry_max_attempts clock w claimed

-- latest_validation_attempt is not None and its status is "valid"
abbrev pub is_confirmed : Option (ℕ × ValidationAttempt) → Bool
is_confirmed none = false
is_confirmed (some (id, row)) = text_eq row.validation_status (text "valid")

abbrev pub for_job : Adapter → ℕ → Readings → ℕ → Option ℕ → Option Job → Exec Db ExecutionResult
for_job adapter retry_max_attempts clock job_id correlation_id none =
    pure (skip reason_job_not_found none none none)
for_job adapter retry_max_attempts clock job_id correlation_id (some job) =
    if is_processable_state job.state job.attempt_number
    then (do
      latest ← get_latest_attempt job_id
      if is_confirmed latest
          then claim_and_run adapter retry_max_attempts clock (record {
            job_id = job_id;
            job = job;
            attempt_number = resolve_attempt_number job.attempt_number;
            correlation_id = or_old correlation_id job.correlation_id;
          })
          else pure (
              skip reason_validation_not_confirmed (some job.state) none
                (some reason_validation_not_confirmed)))
    else pure (skip reason_job_not_processable (some job.state) none none)

unfoldable pub process_one : Adapter → ℕ → Readings → ℕ → Option ℕ → Exec Db ExecutionResult
process_one adapter retry_max_attempts clock job_id correlation_id db =
    for_job adapter retry_max_attempts clock job_id correlation_id (get job_id db.jobs) db
