-- ===== src/Retry/Scheduler/Due/Batch.antt =====
-- process_due_retries of app/retry/scheduler.py: what its counters count.
use stream_lite.Base.{
  ℕ, suc, ◌+◌, ◌≤◌, ◌≡◌, refl, sym, true, false, Option, some, [], ◌∷◌, ltb, arith, All, take, keep,
  sort_by, length, length-take, All-take, All-keep, All-sort_by, keep-true, ap, subst, ◌∙◌,
}
use stream_lite.Base.Table.{Table, get}
use stream_lite.Base.Keys.{Distinct, HeldIn-self, Distinct-take, Distinct-keep, Distinct-sort_by}
use stream_lite.Base.Exec.{Exec, ok, Result, ok-injective, continue, continue_inv}
use stream_lite.Base.Exec.Yields.{Yields, Yields-pure, Yields-bind}
use stream_lite.Store.Model.{Schedule, Db}
use stream_lite.Store.Jobs.{or_old}
use stream_lite.Store.Retry.{claim_due_retries, is_scheduled, is_due, earlier}
use stream_lite.Retry.Scheduler.{Status, RetryDueResult}
use stream_lite.Retry.Scheduler.Due.{
  due_job, process_due_retry, RetryBatchResult, counted, process_each, process_due_retries,
}
use stream_lite.Retry.Scheduler.Due.Once.{is_released}
use stream_lite.Retry.Scheduler.Due.Frame.{Rows, due_job-Rows}
use stream_lite.Retry.Scheduler.Due.Released.{Any, due_job-Released}

-- The outcomes that the counters hold.
unfoldable pub total : RetryBatchResult → ℕ
total b = b.attempted + b.exhausted + b.skipped + b.failed

-- One more outcome, the rows scanned being the same.
counted-total :
    (s : Status) (b : RetryBatchResult)
    → ((counted s b).scanned ≡ b.scanned) × (total (counted s b) ≡ suc (total b))
unfolding counted total
counted-total Status.scheduled b = (refl, ground arith)
counted-total Status.terminal b = (refl, ground arith)
counted-total Status.exhausted b = (refl, ground arith)
counted-total Status.skipped b = (refl, ground arith)
counted-total Status.attempted b = (refl, ground arith)
counted-total Status.failed b = (refl, ground arith)

process_each-counts :
    (correlation : Option ℕ) (clock : ℕ → ℕ) (rows : Table Schedule) (b : RetryBatchResult)
    → Yields Any
        (λ r _. (r.scanned ≡ b.scanned) × (total r ≡ total b + length rows))
        (process_each correlation clock rows b)
unfolding process_each
process_each-counts correlation clock [] b = Yields-pure b (λ _ _. (refl, ground arith))
process_each-counts correlation clock ((id, row) ∷ rows) b =
    Yields-bind {R = λ _ _. Unit} _ _ (record { at = λ _ _ _ _. tt })
      (λ result. record {
        at = λ db _ r e. one result db r (
            (process_each-counts correlation (λ i. clock (suc i)) rows (counted result.status b)).at
              db tt r e);
      })
  where
    one :
        (result : RetryDueResult) (db : Db) (r : RetryBatchResult)
        → (r.scanned ≡ (counted result.status b).scanned)
          × (total r ≡ total (counted result.status b) + length rows)
        → (r.scanned ≡ b.scanned) × (total r ≡ total b + suc (length rows))
    one result db r h =
        let c = counted-total result.status b in (rw (h.0, c.0) refl, omega (arith, h.1, c.1))

-- Where a batch of due retries returns, its four counters add up to the number of the schedules
-- that it scanned, and it scanned at most `limit` of them.
pub process_due_retries-counts :
    (limit : ℕ) (correlation : Option ℕ) (as_of : ℕ) (clock : ℕ → ℕ) (db : Db)
    (b : RetryBatchResult)
    → (process_due_retries limit correlation as_of clock db).0 ≡ ok b
    → (total b ≡ b.scanned) × (b.scanned ≤ limit)
unfolding process_due_retries claim_due_retries
process_due_retries-counts limit correlation as_of clock db b e =
    let due = take limit (sort_by earlier (keep (is_due as_of) db.schedules)) in
    let h =
      (process_each-counts correlation clock due (record {
        scanned = length due;
        attempted = 0;
        exhausted = 0;
        skipped = 0;
        failed = 0;
      })).at
        db tt b e in
    unfold total in
    (
      rw (h.0) (omega (arith, h.1)),
      rw (h.0) (length-take limit (sort_by earlier (keep (is_due as_of) db.schedules))),
    )

-- The row is due, at a time that the clock has reached.
process_due_retry-Released :
    (id : ℕ) (row : Schedule) (correlation : Option ℕ) (as_of instant : ℕ) (db : Db)
    → get id db.schedules ≡ some row
    → is_due as_of (id, row) ≡ true
    → as_of ≤ instant
    → process_due_retry id correlation instant db
      ≡ due_job id row (or_old correlation row.correlation_id) instant (get row.job_id db.jobs) db
unfolding process_due_retry
process_due_retry-Released id row correlation as_of instant db found due late =
    rw (found, status, time)
  where
    status : is_scheduled row.status ≡ true
    status = ground arith

    time : ltb instant row.due_at ≡ false
    time = ground arith

counted-skipped :
    (s : Status) (b : RetryBatchResult) → is_released s ≡ true → (counted s b).skipped ≡ b.skipped
unfolding counted
counted-skipped Status.attempted b h = refl
counted-skipped Status.exhausted b h = refl
counted-skipped Status.failed b h = refl
counted-skipped Status.scheduled b h = cc
counted-skipped Status.terminal b h = cc
counted-skipped Status.skipped b h = cc

-- One step of the loop, on a schedule that is due.
module _ (correlation : Option ℕ) (as_of : ℕ) (clock : ℕ → ℕ) (rows : Table Schedule) (id : ℕ)
    (row : Schedule) (b r : RetryBatchResult) (db : Db) where
  abbrev first : Exec Db RetryDueResult
  first = due_job id row (or_old correlation row.correlation_id) (clock 0) (get row.job_id db.jobs)

  abbrev rest : RetryDueResult → Exec Db RetryBatchResult
  rest result = process_each correlation (λ i. clock (suc i)) rows (counted result.status b)

  step :
      get id db.schedules ≡ some row
      → is_due as_of (id, row) ≡ true
      → as_of ≤ clock 0
      → (process_each correlation clock ((id, row) ∷ rows) b db).0 ≡ ok r
      → (result : RetryDueResult) × (is_released result.status ≡ true)
        × ((rest result (first db).1).0 ≡ ok r)
  unfolding process_each
  step found due late e =
      let fits =
        subst (λ (p : Result RetryDueResult × Db). (continue p.0 rest p.1).0 ≡ ok r)
          (process_due_retry-Released id row correlation as_of (clock 0) db found due late) e in
      let (result, returned, more) = continue_inv (first db).0 rest (first db).1 r fits in
      (
        result,
        (due_job-Released id row (or_old correlation row.correlation_id) (clock 0)
              (get row.job_id db.jobs)).at
            db tt result returned,
        more,
      )

process_each-skipped :
    (correlation : Option ℕ) (as_of : ℕ) (clock : ℕ → ℕ) (rows : Table Schedule)
    (b r : RetryBatchResult) (db : Db)
    → ((i : ℕ) → as_of ≤ clock i)
    → Distinct rows
    → All (λ row. is_due as_of row ≡ true) rows
    → Rows rows db
    → (process_each correlation clock rows b db).0 ≡ ok r
    → r.skipped ≡ b.skipped
unfolding process_each
process_each-skipped correlation as_of clock [] b r db late d due h e =
    ap (λ (x : RetryBatchResult). x.skipped) (ok-injective r b (sym e))
process_each-skipped correlation as_of clock ((id, row) ∷ rows) b r db late d due h e =
    let (result, released, e') =
      step correlation as_of clock rows id row b r db h.0 due.0 (late 0) e in
    process_each-skipped correlation as_of (λ i. clock (suc i)) rows (counted result.status b) r _
      (λ i. late (suc i)) d.1 due.1 ((due_job-Rows rows id row _ _ _ d.0).at db h.1) e'
    ∙ counted-skipped result.status b released

-- A batch skips no schedule: where it returns, the clock having gone on from `as_of` and the keys of
-- the schedules being different, the counter of the skipped schedules is 0.
pub process_due_retries-skips_none :
    (limit : ℕ) (correlation : Option ℕ) (as_of : ℕ) (clock : ℕ → ℕ) (db : Db)
    (b : RetryBatchResult)
    → Distinct db.schedules
    → ((i : ℕ) → as_of ≤ clock i)
    → (process_due_retries limit correlation as_of clock db).0 ≡ ok b
    → b.skipped ≡ 0
unfolding process_due_retries claim_due_retries
process_due_retries-skips_none limit correlation as_of clock db b distinct late e =
    process_each-skipped correlation as_of clock
      (take limit (sort_by earlier (keep (is_due as_of) db.schedules)))
      (record {
        scanned = length (take limit (sort_by earlier (keep (is_due as_of) db.schedules)));
        attempted = 0;
        exhausted = 0;
        skipped = 0;
        failed = 0;
      })
      b db late
      (Distinct-take limit (sort_by earlier (keep (is_due as_of) db.schedules)) (
        Distinct-sort_by earlier (keep (is_due as_of) db.schedules)
          (Distinct-keep (is_due as_of) db.schedules distinct)))
      (taken (λ row. is_due as_of row ≡ true) (keep-true (is_due as_of) db.schedules))
      (taken (λ row. get row.0 db.schedules ≡ some row.1)
        (All-keep (λ row. get row.0 db.schedules ≡ some row.1) (is_due as_of) db.schedules
          (HeldIn-self db.schedules distinct)))
      e
  where
    taken :
        (P : ℕ × Schedule → Type 0)
        → All P (keep (is_due as_of) db.schedules)
        → All P (take limit (sort_by earlier (keep (is_due as_of) db.schedules)))
    taken P h =
        All-take P limit (sort_by earlier (keep (is_due as_of) db.schedules))
          (All-sort_by P earlier (keep (is_due as_of) db.schedules) h)
