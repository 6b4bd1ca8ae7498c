-- ===== src/Retry/Manual.antt =====
-- app/retry/manual.py: an operator asks that a failed job is tried again. The words, the results and
-- the refusals.
pub mod Locator
pub mod Failed
pub mod Plan
pub mod Accept
pub mod Checks
pub mod Passed
pub mod HandBack
pub mod Left
pub mod Success
pub mod Repeat
pub mod Refused
pub mod Keeps
mod Tests
use stream_lite.Base.{ℕ, Bool, true, false, Option, none, some}
use stream_lite.Base.Text.{Text, text}
use stream_lite.Base.Exec.{Result, ok, err, Error}
use stream_lite.Jobs.{JobState}
use stream_lite.Store.Rows.{CommandStatus}
use stream_lite.Store.Model.{Stage}

abbrev pub reason_manual_retry_requested : Text
reason_manual_retry_requested = text "MANUAL_RETRY_REQUESTED"

abbrev pub command_type : Text
command_type = text "job.retry"

abbrev pub command_resource_type : Text
command_resource_type = text "job"

abbrev pub retry_schedule_failed : Text
retry_schedule_failed = text "RETRY_SCHEDULE_FAILED"

abbrev pub unknown_failure : Text
unknown_failure = text "UNKNOWN_FAILURE"

abbrev pub job_not_retryable : Text
job_not_retryable = text "JOB_NOT_RETRYABLE"

pub record ManualRetryResult : Type 0 where
  pub command_id : ℕ
  pub job_id : ℕ
  pub accepted_at : ℕ
  pub correlation_id : ℕ
  pub command_status : CommandStatus
  pub retry_schedule_id : Option ℕ
  pub failed_stage : Option Stage
  pub attempt_number : Option ℕ
  pub manual_override : Option Bool
  pub error_code : Option Text
  pub idempotency_reused : Bool

pub record ManualRetryError : Type 0 where
  pub status_code : ℕ
  pub error_code : Text
  pub message : Text
  pub correlation_id : ℕ
  pub field : Option Text
  pub resource_id : Option ℕ
  pub current_state : Option JobState

-- How a chain of checks ends: with a value, with a ManualRetryError, or with another exception.
pub data Verdict (A : Type 0) : Type 0 where
  passed : A → Verdict A
  refused : ManualRetryError → Verdict A
  crashed : Error → Verdict A

infixl 10 ◌>>=◌ ◌>>◌
unfoldable pub ◌>>=◌ : {A B : Type 0} → Verdict A → (A → Verdict B) → Verdict B
passed a >>= f = f a
refused e >>= f = refused e
crashed e >>= f = crashed e

abbrev pub ◌>>◌ : {B : Type 0} → Verdict (Unit {0}) → Verdict B → Verdict B
m >> k = m >>= λ _. k

unfoldable pub require : Bool → ManualRetryError → Verdict (Unit {0})
require true e = passed tt
require false e = refused e

unfoldable pub or_refuse : {A : Type 0} → Option A → ManualRetryError → Verdict A
or_refuse none e = refused e
or_refuse (some a) e = passed a

unfoldable pub of_result : {A : Type 0} → Result A → Verdict A
of_result (ok a) = passed a
of_result (err e) = crashed e
