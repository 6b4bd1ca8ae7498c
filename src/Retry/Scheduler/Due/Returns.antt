-- ===== src/Retry/Scheduler/Due/Returns.antt =====
-- process_due_retry and process_due_retries of app/retry/scheduler.py raise nothing over schedules
-- whose attempt is within their limit, as schedule_retry_for_job writes them.
use stream_lite.Base.{
  Bool, true, arith, suc, sym, [], ◌∷◌, All, take, keep, sort_by, All-take, All-keep, All-sort_by,
  not, subst, ℕ, ◌≡◌, refl, false, ◌&&◌, Option, none, some, ltb, inl, inr, Bool-cases, &&-true,
}
use stream_lite.Base.Text.{Text}
use stream_lite.Base.Table.{Table, get}
use stream_lite.Base.Keys.{
  Distinct, HeldIn, HeldIn-self, Distinct-take, Distinct-keep, Distinct-sort_by,
}
use stream_lite.Base.Exec.{Exec, ok, continue}
use stream_lite.Jobs.{JobState, state_eq, transition_allowed}
use stream_lite.Store.Model.{Job, Schedule, Db}
use stream_lite.Store.Jobs.{or_old, move-accepted}
use stream_lite.Store.Retry.{
  is_scheduled, mark_retry_failed, mark_retry_attempted, claim_due_retries, is_due, earlier,
}
use stream_lite.Retry.Scheduler.{RetryDueResult, by_scheduler, retry_target_state, reason_retry_due}
use stream_lite.Retry.Scheduler.Due.{
  Release, RetryBatchResult, fail_release, release, for_release, due_job, process_due_retry,
  process_each, process_due_retries, counted,
}
use stream_lite.Retry.Scheduler.Due.Frame.{process_due_retry-Rows}

-- The action returns from this session.
abbrev pub Returns : {A : Type 0} → Exec Db A → Db → Type 0
Returns {A} m db = (a : A) × ((m db).0 ≡ ok a)

module _ (r : Release) (db : Db) (found : get r.schedule_id db.schedules ≡ some r.schedule)
    (held : get r.schedule.job_id db.jobs ≡ some r.job) where
  fail_release-Returns : (reason : Text) → Returns (fail_release r reason) db
  unfolding mark_retry_failed
  fail_release-Returns reason = rw found (_, refl)

  release-Returns : (o : Option JobState) → Returns (release r o) db
  unfolding release mark_retry_attempted
  release-Returns none = fail_release-Returns _
  release-Returns (some target) =
      elim (Bool-cases
        (state_eq r.job.state JobState.retry_pending && transition_allowed r.job.state target)) [
          | inl fine ↦ rw fine (
              rw
                (move-accepted r.schedule.job_id none (some r.schedule.attempt_number) db held
                  (by_scheduler r.job.state target reason_retry_due r.correlation r.instant)
                  (&&-true (state_eq r.job.state JobState.retry_pending)
                    (transition_allowed r.job.state target) fine).1)
                (rw found (_, refl)))
          | inr bad ↦ rw bad (fail_release-Returns _)
        ]

  for_release-Returns :
      ltb r.schedule.max_attempts r.schedule.attempt_number ≡ false → Returns (for_release r) db
  unfolding for_release
  for_release-Returns within =
      rw within (release-Returns (retry_target_state r.schedule.next_stage))

due_job-Returns :
    (id : ℕ) (row : Schedule) (correlation instant : ℕ) (o : Option Job) (db : Db)
    → get id db.schedules ≡ some row
    → get row.job_id db.jobs ≡ o
    → ltb row.max_attempts row.attempt_number ≡ false
    → Returns (due_job id row correlation instant o) db
unfolding mark_retry_failed
due_job-Returns id row correlation instant none db found held within = rw found (_, refl)
due_job-Returns id row correlation instant (some job) db found held within =
    for_release-Returns _ db found held within

process_due_retry-Returns :
    (id : ℕ) (row : Schedule) (correlation : Option ℕ) (instant : ℕ) (db : Db)
    → get id db.schedules ≡ some row
    → ltb row.max_attempts row.attempt_number ≡ false
    → Returns (process_due_retry id correlation instant) db
unfolding process_due_retry
process_due_retry-Returns id row correlation instant db found within =
    rw found (elim (Bool-cases (is_scheduled row.status)) [
      | inr no' ↦ rw no' (_, refl)
      | inl yes' ↦ rw yes' (elim (Bool-cases (ltb instant row.due_at)) [
        | inl early ↦ rw early (_, refl)
        | inr late ↦ rw late (
            due_job-Returns id row (or_old correlation row.correlation_id) instant
              (get row.job_id db.jobs) db found refl within)
      ])
    ])

-- The attempt of the schedule is within its limit.
abbrev pub is_within : ℕ × Schedule → Bool
is_within (id, row) = not (ltb row.max_attempts row.attempt_number)

process_each-Returns :
    (correlation : Option ℕ) (clock : ℕ → ℕ) (rows : Table Schedule) (b : RetryBatchResult)
    (db : Db)
    → Distinct rows
    → HeldIn db.schedules rows
    → All (λ row. is_within row ≡ true) rows
    → Returns (process_each correlation clock rows b) db
unfolding process_each
process_each-Returns correlation clock [] b db d h within = (b, refl)
process_each-Returns correlation clock ((id, row) ∷ rows) b db d h within =
    let (r, e) = process_due_retry-Returns id row correlation (clock 0) db h.0 (ground arith) in
    let after = (process_due_retry id correlation (clock 0) db).1 in
    let rest = λ (x : RetryDueResult).
      process_each correlation (λ i. clock (suc i)) rows (counted x.status b) in
    subst (λ x. (a : RetryBatchResult) × ((continue x rest after).0 ≡ ok a)) (sym e)
      (process_each-Returns correlation (λ i. clock (suc i)) rows (counted r.status b) after d.1
        ((process_due_retry-Rows rows id correlation (clock 0) d.0).at db h.1) within.1)

-- A batch of due retries raises nothing where the keys of the schedules are different and no
-- schedule has an attempt above its limit.
pub process_due_retries-Returns :
    (limit : ℕ) (correlation : Option ℕ) (as_of : ℕ) (clock : ℕ → ℕ) (db : Db)
    → Distinct db.schedules
    → All (λ row. is_within row ≡ true) db.schedules
    → Returns (process_due_retries limit correlation as_of clock) db
unfolding process_due_retries claim_due_retries
process_due_retries-Returns limit correlation as_of clock db distinct within =
    process_each-Returns correlation clock
      (take limit (sort_by earlier (keep (is_due as_of) db.schedules))) _ db
      (Distinct-take limit (sort_by earlier (keep (is_due as_of) db.schedules)) (
        Distinct-sort_by earlier (keep (is_due as_of) db.schedules)
          (Distinct-keep (is_due as_of) db.schedules distinct)))
      (taken (λ row. get row.0 db.schedules ≡ some row.1) (HeldIn-self db.schedules distinct))
      (taken (λ row. is_within row ≡ true) within)
  where
    taken :
        (P : ℕ × Schedule → Type 0)
        → All P db.schedules
        → All P (take limit (sort_by earlier (keep (is_due as_of) db.schedules)))
    taken P h = All-take P limit (sort_by earlier (keep (is_due as_of) db.schedules)) (
        All-sort_by P earlier (keep (is_due as_of) db.schedules)
          (All-keep P (is_due as_of) db.schedules h))
