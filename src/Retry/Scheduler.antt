-- ===== src/Retry/Scheduler.antt =====
-- app/retry/scheduler.py: the words, results and events that scheduling and releasing share.
pub mod Tells
pub mod Schedule
pub mod Due
pub mod RoundTrip
pub mod Answers
mod Tests
use stream_lite.Base.{ℕ, ◌+◌, Option, none, some, ◌++◌, ltb, if◌then◌else◌}
use stream_lite.Base.Text.{Text, text}
use stream_lite.Base.Exec.{◌>>=◌, ◌>>◌, Exec, pure}
use stream_lite.Jobs.{JobState}
use stream_lite.Store.Model.{Stage, FailureClass, Service, Job, Payload, IdempotencyKey, Db}
use stream_lite.Store.Jobs.{Transition}
use stream_lite.Events.{Event, enqueue_event, supports_job_failed_stage}

abbrev pub reason_job_not_found : Text
reason_job_not_found = text "JOB_NOT_FOUND"

abbrev pub reason_invalid_attempt_number : Text
reason_invalid_attempt_number = text "INVALID_ATTEMPT_NUMBER"

abbrev pub reason_invalid_state_transition : Text
reason_invalid_state_transition = text "INVALID_STATE_TRANSITION"

abbrev pub reason_retry_not_due : Text
reason_retry_not_due = text "RETRY_NOT_DUE"

abbrev pub reason_retry_schedule_not_found : Text
reason_retry_schedule_not_found = text "RETRY_SCHEDULE_NOT_FOUND"

abbrev pub reason_retry_schedule_not_scheduled : Text
reason_retry_schedule_not_scheduled = text "RETRY_SCHEDULE_NOT_SCHEDULED"

abbrev pub reason_retry_scheduled : Text
reason_retry_scheduled = text "RETRY_SCHEDULED"

abbrev pub reason_retry_due : Text
reason_retry_due = text "RETRY_DUE"

abbrev pub reason_retry_exhausted : Text
reason_retry_exhausted = text "RETRY_EXHAUSTED"

abbrev pub reason_non_retryable_failure : Text
reason_non_retryable_failure = text "NON_RETRYABLE_FAILURE"

abbrev pub schema_version : Text
schema_version = text "1.0.0"

abbrev pub job_failed : Text
job_failed = text "job.failed"

abbrev pub retry_scheduled : Text
retry_scheduled = text "retry.scheduled"

-- _RETRY_STAGE_TO_JOB_STATE.get(stage)
unfoldable pub retry_target_state : Stage → Option JobState
retry_target_state Stage.validation = some JobState.validating
retry_target_state Stage.processing = some JobState.processing
retry_target_state Stage.delivery = some JobState.delivering
retry_target_state _ = none

-- _resolve_attempt_number
unfoldable pub resolve_attempt_number : ℕ → Option ℕ
resolve_attempt_number value = if ltb value 1 then none else some value

abbrev pub stage_text : Stage → Text
stage_text Stage.validation = text "validation"
stage_text Stage.processing = text "processing"
stage_text Stage.delivery = text "delivery"
stage_text Stage.routing = text "routing"
stage_text Stage.event = text "event"

unfoldable pub exhausted_operator_message : Stage → Text
exhausted_operator_message failed_stage =
    text "Retry attempts are exhausted for the "
    ++ (stage_text failed_stage ++ text " stage and the job has failed.")

-- A transition that the scheduler records.
abbrev pub by_scheduler : JobState → JobState → Text → ℕ → ℕ → Transition
by_scheduler previous_state new_state reason_code correlation_id transitioned_at = record {
  previous_state = some previous_state;
  new_state = new_state;
  actor_service = Service.retry_scheduler;
  reason_code = reason_code;
  correlation_id = correlation_id;
  transitioned_at = transitioned_at;
  event_id = none;
  transition_sequence = none;
}

abbrev pub lifecycle_event : Text → ℕ → Job → Stage → ℕ → ℕ → ℕ → Payload → Event
lifecycle_event event_type job_id job failed_stage attempt_number correlation_id occurred_at
      payload =
    record {
      schema_version = schema_version;
      event_type = event_type;
      producer = Service.retry_scheduler;
      correlation_id = correlation_id;
      job_id = job_id;
      watcher_id = job.watcher_id;
      attempt_number = attempt_number;
      occurred_at = occurred_at;
      idempotency_key = IdempotencyKey.key event_type job_id failed_stage attempt_number;
      payload = payload;
    }

-- _enqueue_retry_scheduled
unfoldable pub enqueue_retry_scheduled : ℕ → Job → Stage → ℕ → ℕ → ℕ → Payload → Exec Db ℕ
enqueue_retry_scheduled job_id job failed_stage attempt_number correlation_id occurred_at payload =
    enqueue_event (
      lifecycle_event retry_scheduled job_id job failed_stage attempt_number correlation_id
        occurred_at payload)

-- _enqueue_job_failed
unfoldable pub enqueue_job_failed : ℕ → Job → Stage → ℕ → ℕ → ℕ → Payload → Exec Db (Unit {0})
enqueue_job_failed job_id job failed_stage attempt_number correlation_id occurred_at payload =
    if supports_job_failed_stage failed_stage
    then (do
      enqueue_event (
          lifecycle_event job_failed job_id job failed_stage attempt_number correlation_id
            occurred_at payload)
      pure tt)
    else pure tt

-- The last statuses of scheduling and of releasing.
pub data Status : Type 0 where
  scheduled terminal exhausted skipped attempted failed : Status

-- RetryScheduleResult, with the job's id left to the caller who gave it.
pub record RetryScheduleResult : Type 0 where
  pub status : Status
  pub reason_code : Text
  pub final_state : Option JobState
  pub attempt_number : Option ℕ
  pub retry_schedule_id : Option ℕ
  pub due_at : Option ℕ
  pub event_type : Option Text
  pub final_failure_class : Option FailureClass

abbrev pub plain : Status → Text → Option JobState → Option ℕ → RetryScheduleResult
plain status reason_code final_state attempt_number = record {
  status = status;
  reason_code = reason_code;
  final_state = final_state;
  attempt_number = attempt_number;
  retry_schedule_id = none;
  due_at = none;
  event_type = none;
  final_failure_class = none;
}

-- RetryDueResult
pub record RetryDueResult : Type 0 where
  pub job_id : Option ℕ
  pub status : Status
  pub reason_code : Text
  pub final_state : Option JobState
  pub attempt_number : Option ℕ
  pub next_stage : Option Stage
  pub event_type : Option Text
