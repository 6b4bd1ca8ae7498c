-- ===== src/Retry/Scheduler/RoundTrip.antt =====
-- schedule_retry_for_job and process_due_retry of app/retry/scheduler.py, one after the other.
pub mod Release
pub mod Queue
pub mod Decide
use stream_lite.Base.{ℕ, ◌≡◌, ◌⊎◌, Option}
use stream_lite.Base.Text.{Text, text, Casing}
use stream_lite.Jobs.{JobState}
use stream_lite.Store.Model.{Db}
use stream_lite.Retry.Backoff.{Policy}
use stream_lite.Retry.Scheduler.{RetryScheduleResult}
use stream_lite.Retry.Scheduler.Schedule.{schedule_retry_for_job}

-- The state that a retry of a stage resumes in, by the name of the stage.
abbrev pub Resumes : Text → JobState → Type 0
Resumes name target =
    ((name ≡ text "processing") × (target ≡ JobState.processing))
    ⊎ ((name ≡ text "delivery") × (target ≡ JobState.delivering))

module _ (k : Casing) (policy : Policy) (j : ℕ) (stage code : Text) (correlation : Option ℕ)
    (instant : ℕ) (db : Db) (r : RetryScheduleResult) where
  abbrev scheduling : Db
  scheduling = (schedule_retry_for_job k policy j stage code correlation instant db).1
