-- ===== src/Processing/Batch.antt =====
-- claim_and_process of app/processing/engine.py: the loop over the jobs that wait.
pub mod Keeps
use stream_lite.Base.{ℕ, suc, ◌+◌, Option, some, List, [], ◌∷◌, ◌++◌, keep, take}
use mathlib.Core.List.{reverse}
use stream_lite.Base.Exec.{Exec, pure, ◌>>=◌}
use stream_lite.Jobs.{JobState}
use stream_lite.Store.Model.{Job, Db}
use stream_lite.Store.Jobs.{or_old, list_jobs}
use stream_lite.Processing.{Adapter, Readings, Outcome, is_retry_attempt}
use stream_lite.Processing.Worker.{process_one}

-- ProcessingBatchResult
pub record BatchResult : Type 0 where
  pub claimed : ℕ
  pub processed : ℕ
  pub failed : ℕ
  pub skipped : ℕ

abbrev pub counted : Outcome → BatchResult → BatchResult
counted Outcome.processed b = record b { claimed = b.claimed + 1; processed = b.processed + 1 }
counted Outcome.failed b = record b { claimed = b.claimed + 1; failed = b.failed + 1 }
counted Outcome.skipped b = record b { skipped = b.skipped + 1 }

module _ (adapter : Adapter) (retry_max_attempts : ℕ) (correlation_id : Option ℕ) where
  -- The loop; each job has its own readings of the clock.
  unfoldable pub process_each : (ℕ → Readings) → List (ℕ × Job) → BatchResult → Exec Db BatchResult
  process_each clock [] b = pure b
  process_each clock ((id, job) ∷ jobs) b = do
    result ←
        process_one adapter retry_max_attempts (clock 0) id
          (some (or_old correlation_id job.correlation_id))
    process_each (λ i. clock (suc i)) jobs (counted result.status b)

  -- A negative limit counts as 0.
  unfoldable pub claim_and_process : (ℕ → Readings) → ℕ → Exec Db BatchResult
  claim_and_process clock limit = do
    validated ← list_jobs JobState.validated
    processing ← list_jobs JobState.processing
    process_each clock
        (take limit (
          reverse validated
          ++ keep (λ r. is_retry_attempt r.1.attempt_number) (reverse processing)))
        (record { claimed = 0; processed = 0; failed = 0; skipped = 0 })
