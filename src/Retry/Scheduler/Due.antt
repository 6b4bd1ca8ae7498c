-- ===== src/Retry/Scheduler/Due.antt =====
-- process_due_retry and process_due_retries of app/retry/scheduler.py. A correlation id is a
-- number already, so the check that it is a UUID is left out.
pub mod Keeps
pub mod Once
pub mod Frame
pub mod Released
pub mod Batch
pub mod Returns
use stream_lite.Base.{
  ℕ, suc, not, ◌&&◌, Option, none, some, List, [], ◌∷◌, ltb, if◌then◌else◌, length,
}
use stream_lite.Base.Text.{Text}
use stream_lite.Base.Table.{get}
use stream_lite.Base.Exec.{◌>>=◌, ◌>>◌, Exec, pure}
use stream_lite.Jobs.{JobState, state_eq, transition_allowed}
use stream_lite.Store.Model.{FailureClass, Job, Schedule, failed_payload, Db}
use stream_lite.Store.Jobs.{or_old, move}
use stream_lite.Store.Retry.{
  claim_due_retries, is_scheduled, mark_retry_attempted, mark_retry_exhausted, mark_retry_failed,
}
use stream_lite.Retry.Scheduler.{
  Status, RetryDueResult, by_scheduler, enqueue_job_failed, retry_target_state,
  exhausted_operator_message, reason_job_not_found, reason_invalid_state_transition,
  reason_retry_not_due, reason_retry_schedule_not_found, reason_retry_schedule_not_scheduled,
  reason_retry_due, reason_retry_exhausted, job_failed,
}

-- A result about the schedule, with no event.
abbrev pub due_result : Schedule → Status → Text → Option JobState → RetryDueResult
due_result schedule status reason_code final_state = record {
  job_id = some schedule.job_id;
  status = status;
  reason_code = reason_code;
  final_state = final_state;
  attempt_number = some schedule.attempt_number;
  next_stage = some schedule.next_stage;
  event_type = none;
}

-- What the branches share: the schedule and its id, the job, the correlation id and the time.
pub record Release : Type 0 where
  pub schedule_id : ℕ
  pub schedule : Schedule
  pub job : Job
  pub correlation : ℕ
  pub instant : ℕ

-- `code or reason`, where an empty code counts as none.
abbrev pub or_reason : Option Text → Text → Text
or_reason none reason = reason
or_reason (some []) reason = reason
or_reason (some (c ∷ code)) reason = c ∷ code

-- mark_retry_failed, and the result.
abbrev pub fail_release : Release → Text → Exec Db RetryDueResult
fail_release r code = do
  mark_retry_failed r.schedule_id (some (or_reason r.schedule.last_error_code code))
  pure (due_result r.schedule Status.failed reason_invalid_state_transition (some r.job.state))

-- The branch `if schedule.attempt_number > schedule.max_attempts`.
abbrev pub exhaust_at : Release → Exec Db RetryDueResult
exhaust_at r = do
  mark_retry_exhausted r.schedule_id r.schedule.last_error_code
  move r.schedule.job_id r.schedule.last_error_code (some r.schedule.attempt_number)
      (by_scheduler r.job.state JobState.failed reason_retry_exhausted r.correlation r.instant)
  enqueue_job_failed r.schedule.job_id r.job r.schedule.failed_stage r.schedule.attempt_number
      r.correlation r.instant
      (failed_payload FailureClass.exhausted_retries r.schedule.failed_stage
        (or_reason r.schedule.last_error_code reason_retry_exhausted)
        (exhausted_operator_message r.schedule.failed_stage))
  pure
      (record (due_result r.schedule Status.exhausted reason_retry_exhausted
        (some JobState.failed)) { event_type = some job_failed })

unfoldable pub exhaust_release : Release → Exec Db RetryDueResult
exhaust_release r =
    if transition_allowed r.job.state JobState.failed
    then exhaust_at r
    else fail_release r reason_retry_exhausted

-- The job goes back to the state of its stage.
abbrev pub release_at : Release → JobState → Exec Db RetryDueResult
release_at r target = do
  move r.schedule.job_id none (some r.schedule.attempt_number)
      (by_scheduler r.job.state target reason_retry_due r.correlation r.instant)
  mark_retry_attempted r.schedule_id
  pure (due_result r.schedule Status.attempted reason_retry_due (some target))

unfoldable pub release : Release → Option JobState → Exec Db RetryDueResult
release r none = fail_release r reason_invalid_state_transition
release r (some target) =
    if state_eq r.job.state JobState.retry_pending && transition_allowed r.job.state target
    then release_at r target
    else fail_release r reason_invalid_state_transition

unfoldable pub for_release : Release → Exec Db RetryDueResult
for_release r =
    if ltb r.schedule.max_attempts r.schedule.attempt_number
    then exhaust_release r
    else release r (retry_target_state r.schedule.next_stage)

abbrev pub due_job : ℕ → Schedule → ℕ → ℕ → Option Job → Exec Db RetryDueResult
due_job id schedule correlation instant none = do
  mark_retry_failed id (some reason_job_not_found)
  pure (due_result schedule Status.failed reason_job_not_found none)
due_job id schedule correlation instant (some job) = for_release (record {
  schedule_id = id;
  schedule = schedule;
  job = job;
  correlation = correlation;
  instant = instant;
})

abbrev pub due_schedule : ℕ → Option ℕ → ℕ → Option Schedule → Exec Db RetryDueResult
due_schedule id correlation_id instant none = pure (record {
  job_id = none;
  status = Status.skipped;
  reason_code = reason_retry_schedule_not_found;
  final_state = none;
  attempt_number = none;
  next_stage = none;
  event_type = none;
})
due_schedule id correlation_id instant (some schedule) =
    if not (is_scheduled schedule.status)
    then pure (due_result schedule Status.skipped reason_retry_schedule_not_scheduled none)
    else if ltb instant schedule.due_at
    then pure (due_result schedule Status.skipped reason_retry_not_due none)
    else (λ db.
        due_job id schedule (or_old correlation_id schedule.correlation_id) instant
          (get schedule.job_id db.jobs) db)

unfoldable pub process_due_retry : ℕ → Option ℕ → ℕ → Exec Db RetryDueResult
process_due_retry id correlation_id instant db =
    due_schedule id correlation_id instant (get id db.schedules) db

pub record RetryBatchResult : Type 0 where
  pub scanned : ℕ
  pub attempted : ℕ
  pub exhausted : ℕ
  pub skipped : ℕ
  pub failed : ℕ

unfoldable pub counted : Status → RetryBatchResult → RetryBatchResult
counted Status.attempted b = record b { attempted = suc b.attempted }
counted Status.exhausted b = record b { exhausted = suc b.exhausted }
counted Status.failed b = record b { failed = suc b.failed }
counted _ b = record b { skipped = suc b.skipped }

-- The loop; `clock` gives the reading that the i-th schedule meets.
unfoldable pub process_each :
    Option ℕ → (ℕ → ℕ) → List (ℕ × Schedule) → RetryBatchResult → Exec Db RetryBatchResult
process_each correlation_id clock [] b = pure b
process_each correlation_id clock ((id, row) ∷ rows) b = do
  result ← process_due_retry id correlation_id (clock 0)
  process_each correlation_id (λ i. clock (suc i)) rows (counted result.status b)

unfoldable pub process_due_retries : ℕ → Option ℕ → ℕ → (ℕ → ℕ) → Exec Db RetryBatchResult
process_due_retries limit correlation_id as_of clock = do
  due ← claim_due_retries as_of limit
  process_each correlation_id clock due
      (record { scanned = length due; attempted = 0; exhausted = 0; skipped = 0; failed = 0 })
