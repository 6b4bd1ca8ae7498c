-- ===== src/Processing/Batch/Keeps.antt =====
-- What a batch of app/processing/engine.py keeps, also one that an exception ends in its middle.
use stream_lite.Base.{ℕ, suc, Option, List, [], ◌∷◌}
use stream_lite.Base.Exec.Leads.{Leads, Leads-pure, Leads-bind}
use stream_lite.Store.Model.{Job, Db}
use stream_lite.Store.Jobs.{list_jobs}
use stream_lite.Store.Stable.{Stable}
use stream_lite.Processing.{Adapter, Readings}
use stream_lite.Processing.Worker.Keeps.{process_one-Leads}
use stream_lite.Processing.Batch.{BatchResult, process_each, claim_and_process}

module _ {P : Db → Type 0} (stable : Stable P) (adapter : Adapter) (max : ℕ) where
  process_each-Leads :
      (clock : ℕ → Readings) (correlation : Option ℕ) (jobs : List (ℕ × Job)) (b : BatchResult)
      → Leads P P (process_each adapter max correlation clock jobs b)
  unfolding process_each
  process_each-Leads clock correlation [] b = Leads-pure (λ _ h. h) b
  process_each-Leads clock correlation ((id, job) ∷ jobs) b =
      Leads-bind (λ _ h. h) _ _ (process_one-Leads stable adapter max (clock 0) id _)
        (λ result. process_each-Leads (λ i. clock (suc i)) correlation jobs _)

  pub claim_and_process-Leads :
      (clock : ℕ → Readings) (correlation : Option ℕ) (limit : ℕ)
      → Leads P P (claim_and_process adapter max correlation clock limit)
  unfolding claim_and_process list_jobs
  claim_and_process-Leads clock correlation limit = record {
    at = λ db h. (process_each-Leads clock correlation _ _).at db h;
  }
