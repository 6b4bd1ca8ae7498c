-- ===== src/Retry/Manual/Plan.antt =====
-- The checks of accept_manual_retry_command (app/retry/manual.py) on the job: nothing is written
-- before they have passed.
use stream_lite.Base.{ℕ, Bool, false, not, Option, none, some, [], ◌∷◌, ◌++◌}
use stream_lite.Base.Text.{Text, text, Casing}
use stream_lite.Base.Table.{get}
use stream_lite.Base.Uuids.{Uuids}
use stream_lite.Jobs.{JobState, state_eq}
use stream_lite.Store.Model.{Job, Db}
use stream_lite.Store.Jobs.{or_old}
use stream_lite.Retry.Classifier.{Classification, classify}
use stream_lite.Retry.Backoff.{Policy, retry_allowed, next_attempt_number}
use stream_lite.Retry.Scheduler.{stage_text}
use stream_lite.Retry.Manual.{
  ManualRetryError, Verdict, passed, ◌>>=◌, ◌>>◌, require, or_refuse, of_result, unknown_failure,
  job_not_retryable,
}
use stream_lite.Retry.Manual.Failed.{
  FailedStageContext, infer_failed_stage, resolve_current_attempt_number,
}

-- a or b, for two texts of which the empty one counts as absent
abbrev pub or_text : Option Text → Option Text → Option Text
or_text none b = b
or_text (some []) b = b
or_text (some (c ∷ s)) b = some (c ∷ s)

abbrev pub text_or : Option Text → Text → Text
text_or none b = b
text_or (some []) b = b
text_or (some (c ∷ s)) b = c ∷ s

abbrev pub no_job : Uuids → ℕ → ℕ → ManualRetryError
no_job u job_id correlation_id = record {
  status_code = 404;
  error_code = text "JOB_NOT_FOUND";
  message = text "Job " ++ (u.print job_id ++ text " was not found.");
  correlation_id = correlation_id;
  field = none;
  resource_id = some job_id;
  current_state = none;
}

-- A refusal that names the job and its state.
abbrev pub conflict : Text → Text → ℕ → ℕ → Job → ManualRetryError
conflict error_code message job_id correlation_id job = record {
  status_code = 409;
  error_code = error_code;
  message = message;
  correlation_id = correlation_id;
  field = none;
  resource_id = some job_id;
  current_state = some job.state;
}

-- terminal_state_when_not_retryable == "QUARANTINED"
abbrev pub ends_quarantined : Option JobState → Bool
ends_quarantined none = false
ends_quarantined (some state) = state_eq state JobState.quarantined

-- What the checks find out.
pub record Plan : Type 0 where
  pub job : Job
  pub failed_context : FailedStageContext
  pub classification : Classification
  pub next_attempt_number : ℕ
  pub correlation_id : ℕ

abbrev pub exhausted : ℕ → ℕ → Job → ManualRetryError
exhausted =
    conflict (text "RETRY_LIMIT_EXHAUSTED") (text "Retry attempts are exhausted for this job.")

module _ (k : Casing) (u : Uuids) (policy : Policy) (job_id : ℕ) where
  -- The checks behind the classification.
  abbrev pub plan_attempt : Job → FailedStageContext → ℕ → Classification → Verdict Plan
  plan_attempt job failed_context correlation_id decision = do
    require (not (ends_quarantined decision.terminal_state_when_not_retryable)) (
        conflict job_not_retryable (text "Validation-policy failures are not manually retryable.")
          job_id correlation_id job)
    current_attempt_number ←
        or_refuse
          (resolve_current_attempt_number (some job.attempt_number) failed_context.attempt_number)
          (conflict job_not_retryable
            (text "The latest failed stage does not have a retryable attempt number.") job_id
            correlation_id job)
    allowed ← of_result (retry_allowed policy.max_attempts current_attempt_number)
    require allowed (exhausted job_id correlation_id job)
    following ← of_result (next_attempt_number policy.max_attempts current_attempt_number)
    next ← or_refuse following (exhausted job_id correlation_id job)
    passed (record {
      job = job;
      failed_context = failed_context;
      classification = decision;
      next_attempt_number = next;
      correlation_id = correlation_id;
    })

  -- The code that is classified: of the attempt, else of the job.
  abbrev pub failure_code : Job → FailedStageContext → Text
  failure_code job failed_context =
      text_or (or_text failed_context.error_code job.latest_error_code) unknown_failure

  abbrev pub plan_stage : Job → FailedStageContext → ℕ → Verdict Plan
  plan_stage job failed_context correlation_id = do
    decision ←
        of_result
          (classify k (stage_text failed_context.stage) (failure_code job failed_context) none)
    plan_attempt job failed_context correlation_id decision

  abbrev pub plan_job : Option ℕ → Db → Job → Verdict Plan
  plan_job correlation_id db job = do
    let resolved = or_old correlation_id job.correlation_id
    require (state_eq job.state JobState.failed)
        (conflict job_not_retryable (text "Only FAILED jobs are retryable.") job_id resolved job)
    failed_context ← or_refuse (infer_failed_stage job_id db) (
        conflict job_not_retryable (text "The latest failed stage is not retryable.") job_id
          resolved job)
    plan_stage job failed_context resolved

  -- From the look-up of the job on; `fallback` is the correlation id of a job that is not there.
  unfoldable pub plan_retry : Option ℕ → ℕ → Db → Verdict Plan
  plan_retry correlation_id fallback db = do
    job ← or_refuse (get job_id db.jobs) (no_job u job_id fallback)
    plan_job correlation_id db job
