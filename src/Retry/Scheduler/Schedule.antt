-- ===== src/Retry/Scheduler/Schedule.antt =====
-- schedule_retry_for_job of app/retry/scheduler.py.
pub mod Keeps
use stream_lite.Base.{ℕ, ◌+◌, Bool, true, false, Option, none, some, if◌then◌else◌}
use stream_lite.Base.Text.{Text, Casing}
use stream_lite.Base.Table.{get}
use stream_lite.Base.Exec.{◌>>=◌, ◌>>◌, Exec, pure, lift}
use stream_lite.Jobs.{JobState, state_eq, transition_allowed}
use stream_lite.Store.Model.{
  Stage, FailureClass, Job, Schedule, ScheduleStatus, retry_payload, failed_payload, Db,
}
use stream_lite.Store.Jobs.{or_old, move}
use stream_lite.Store.Retry.{schedule_retry}
use stream_lite.Retry.Classifier.{Classification, classify}
use stream_lite.Retry.Backoff.{Policy, retry_allowed, next_attempt_number}
use stream_lite.Retry.Scheduler.{
  Status, RetryScheduleResult, plain, by_scheduler, enqueue_retry_scheduled, enqueue_job_failed,
  retry_target_state, resolve_attempt_number, exhausted_operator_message, reason_job_not_found,
  reason_invalid_attempt_number, reason_invalid_state_transition, reason_non_retryable_failure,
  reason_retry_exhausted, reason_retry_scheduled, job_failed, retry_scheduled,
}
use stream_lite.Events.{supports_job_failed_stage}

-- What the parts of the method share: the job and its id, the decision, the attempt that failed,
-- the correlation id, and the reading of the clock.
pub record Failure : Type 0 where
  pub job_id : ℕ
  pub job : Job
  pub decision : Classification
  pub attempt : ℕ
  pub correlation : ℕ
  pub instant : ℕ

abbrev pub invalid_transition_result : Failure → RetryScheduleResult
invalid_transition_result f =
    plain Status.skipped reason_invalid_state_transition (some f.job.state) (some f.attempt)

-- terminal_state == "FAILED" and _supports_job_failed_stage(stage)
abbrev pub tells_failed : JobState → Stage → Bool
tells_failed state stage =
    if state_eq state JobState.failed then supports_job_failed_stage stage else false

-- The event of a final failure, and the result.
abbrev pub announce : JobState → Failure → Bool → Exec Db RetryScheduleResult
announce terminal_state f false =
    pure (plain Status.terminal reason_non_retryable_failure (some terminal_state) (some f.attempt))
announce terminal_state f true = do
  enqueue_job_failed f.job_id f.job f.decision.stage f.attempt f.correlation f.instant (
      failed_payload FailureClass.non_retryable f.decision.stage f.decision.error_code
        f.decision.operator_message)
  pure
      (record (plain Status.terminal reason_non_retryable_failure (some terminal_state)
        (some f.attempt)) {
          event_type = some job_failed;
          final_failure_class = some FailureClass.non_retryable;
        })

-- The branch `if not classification.retryable`.
abbrev pub finalize_at : JobState → Failure → Exec Db RetryScheduleResult
finalize_at terminal_state f = do
  move f.job_id (some f.decision.error_code) (some f.attempt)
      (by_scheduler f.job.state terminal_state reason_non_retryable_failure f.correlation f.instant)
  announce terminal_state f (tells_failed terminal_state f.decision.stage)

unfoldable pub finalize : Failure → Option JobState → Exec Db RetryScheduleResult
finalize f none = pure (invalid_transition_result f)
finalize f (some terminal_state) =
    if transition_allowed f.job.state terminal_state
    then finalize_at terminal_state f
    else pure (invalid_transition_result f)

-- The branch `if not retry_allowed_after_attempt(current_attempt_number)`.
unfoldable pub exhaust : Failure → Exec Db RetryScheduleResult
exhaust f = do
  move f.job_id (some f.decision.error_code) (some f.attempt)
      (by_scheduler f.job.state JobState.failed reason_retry_exhausted f.correlation f.instant)
  enqueue_job_failed f.job_id f.job f.decision.stage f.attempt f.correlation f.instant (
      failed_payload FailureClass.exhausted_retries f.decision.stage f.decision.error_code
        (exhausted_operator_message f.decision.stage))
  pure
      (record (plain Status.exhausted reason_retry_exhausted (some JobState.failed)
        (some f.attempt)) {
          event_type = some job_failed;
          final_failure_class = some FailureClass.exhausted_retries;
        })

-- The row that the method schedules.
abbrev pub schedule_row : Policy → Failure → ℕ → ℕ → ℕ → Schedule
schedule_row policy f next_attempt delay now = record {
  job_id = f.job_id;
  failed_stage = f.decision.stage;
  failure_class = f.decision.failure_class;
  due_at = f.instant + delay;
  backoff_micros = delay;
  attempt_number = next_attempt;
  max_attempts = policy.max_attempts;
  jitter_enabled = policy.jitter_enabled;
  status = ScheduleStatus.scheduled;
  next_stage = f.decision.stage;
  last_error_code = some f.decision.error_code;
  correlation_id = f.correlation;
  created_at = now;
  updated_at = now;
}

unfoldable pub schedule_next : Policy → Failure → ℕ → Exec Db RetryScheduleResult
schedule_next policy f next_attempt = do
  delay ← lift (policy.delay_micros f.attempt)
  schedule_id ← λ db. schedule_retry (schedule_row policy f next_attempt delay db.now) db
  move f.job_id (some f.decision.error_code) (some next_attempt) (
      by_scheduler f.job.state JobState.retry_pending reason_retry_scheduled f.correlation
        f.instant)
  enqueue_retry_scheduled f.job_id f.job f.decision.stage next_attempt f.correlation f.instant (
      retry_payload f.decision.stage (f.instant + delay) delay policy.max_attempts
        f.decision.operator_message)
  pure
      (record (plain Status.scheduled reason_retry_scheduled (some JobState.retry_pending)
        (some next_attempt)) {
          retry_schedule_id = some schedule_id;
          due_at = some (f.instant + delay);
          event_type = some retry_scheduled;
        })

-- next_attempt_number is None only where a retry is not allowed.
abbrev pub next_or_exhausted : Policy → Failure → Option ℕ → Exec Db RetryScheduleResult
next_or_exhausted policy f none =
    pure (plain Status.exhausted reason_retry_exhausted (some f.job.state) (some f.attempt))
next_or_exhausted policy f (some next_attempt) = schedule_next policy f next_attempt

abbrev pub retry_after : Policy → Failure → Bool → Exec Db RetryScheduleResult
retry_after policy f false = exhaust f
retry_after policy f true = do
  next ← lift (next_attempt_number policy.max_attempts f.attempt)
  next_or_exhausted policy f next

-- The rest of the method, for a retryable failure.
abbrev pub retry_in : Policy → Failure → Option JobState → Exec Db RetryScheduleResult
retry_in policy f none = pure (invalid_transition_result f)
retry_in policy f (some target) =
    if transition_allowed f.job.state JobState.retry_pending
    then (do again ← lift (retry_allowed policy.max_attempts f.attempt); retry_after policy f again)
    else pure (invalid_transition_result f)

unfoldable pub decide_retry : Policy → Failure → Exec Db RetryScheduleResult
decide_retry policy f =
    if f.decision.retryable
    then retry_in policy f (retry_target_state f.decision.stage)
    else finalize f f.decision.terminal_state_when_not_retryable

abbrev pub with_attempt :
    Policy → ℕ → Job → Classification → ℕ → ℕ → Option ℕ → Exec Db RetryScheduleResult
with_attempt policy job_id job decision correlation instant none =
    pure (
      plain Status.skipped reason_invalid_attempt_number (some job.state) (some job.attempt_number))
with_attempt policy job_id job decision correlation instant (some attempt) =
    decide_retry policy (record {
      job_id = job_id;
      job = job;
      decision = decision;
      attempt = attempt;
      correlation = correlation;
      instant = instant;
    })

abbrev pub for_job :
    Casing → Policy → ℕ → Text → Text → Option ℕ → ℕ → Option Job → Exec Db RetryScheduleResult
for_job k policy job_id failed_stage error_code correlation_id instant none =
    pure (plain Status.skipped reason_job_not_found none none)
for_job k policy job_id failed_stage error_code correlation_id instant (some job) = do
  decision ← lift (classify k failed_stage error_code none)
  with_attempt policy job_id job decision (or_old correlation_id job.correlation_id) instant
      (resolve_attempt_number job.attempt_number)

unfoldable pub schedule_retry_for_job :
    Casing → Policy → ℕ → Text → Text → Option ℕ → ℕ → Exec Db RetryScheduleResult
schedule_retry_for_job k policy job_id failed_stage error_code correlation_id instant db =
    for_job k policy job_id failed_stage error_code correlation_id instant (get job_id db.jobs) db
