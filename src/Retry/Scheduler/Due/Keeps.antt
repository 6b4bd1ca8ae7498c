-- ===== src/Retry/Scheduler/Due/Keeps.antt =====
-- process_due_retry and process_due_retries of app/retry/scheduler.py keep the audit of the job
-- states.
use stream_lite.Retry.Scheduler.Tells.{OffOutbox, enqueue_job_failed-Leads}
use stream_lite.Base.{
  ℕ, suc, ◌≡◌, refl, true, not, ◌&&◌, Option, none, some, List, [], ◌∷◌, ltb, arith,
}
use stream_lite.Base.Text.{Text}
use stream_lite.Base.Table.{get}
use stream_lite.Base.Exec.Leads.{Leads, Leads-if, Leads-pure, Leads-bind}
use stream_lite.Jobs.{JobState, state_eq, transition_allowed}
use stream_lite.Store.Model.{Job, Schedule, Db}
use stream_lite.Store.Jobs.{move}
use stream_lite.Store.Retry.{
  mark_row-jobs, claim_due_retries, mark_retry_attempted, mark_retry_exhausted, mark_retry_failed,
  mark_row, is_scheduled,
}
use stream_lite.Store.Audit.{Audited}
use stream_lite.Store.Stable.{Stable, Holding, Audited-Stable}
use stream_lite.Retry.Scheduler.{by_scheduler}
use stream_lite.Retry.Scheduler.Due.{
  RetryBatchResult, Release, fail_release, exhaust_release, release, for_release, due_job,
  due_schedule, process_due_retry, process_each, process_due_retries,
}

module _ {P : Db → Type 0} (stable : Stable P) where
  same : (db : Db) → P db → P db
  same db h = h

  off : OffOutbox P
  off db db' jobs history schedules h = stable.off db db' jobs history h

  mark_row-P :
      (id : ℕ) (w : ℕ → Schedule → Schedule) (o : Option Schedule) (db : Db)
      → P db
      → P (mark_row id w o db).1
  mark_row-P id w none db h = h
  mark_row-P id w (some row) db h = stable.off _ _ refl refl h

  mark_retry_failed-Leads : (id : ℕ) (e : Option Text) → Leads P P (mark_retry_failed id e)
  unfolding mark_retry_failed
  mark_retry_failed-Leads id e = record { at = λ db h. mark_row-P id _ (get id db.schedules) db h }

  mark_retry_attempted-Leads : (id : ℕ) → Leads P P (mark_retry_attempted id)
  unfolding mark_retry_attempted
  mark_retry_attempted-Leads id = record { at = λ db h. mark_row-P id _ (get id db.schedules) db h }

  module _ (r : Release) where
    abbrev Ready : Db → Type 0
    Ready = Holding P r.schedule.job_id r.job

    Ready-P : (db : Db) → Ready db → P db
    Ready-P db h = h.kept

    mark_retry_exhausted-Ready :
        (e : Option Text) → Leads Ready Ready (mark_retry_exhausted r.schedule_id e)
    unfolding mark_retry_exhausted
    mark_retry_exhausted-Ready e = record {
      at = λ db h. record {
        kept = mark_row-P r.schedule_id _ (get r.schedule_id db.schedules) db h.kept;
        found = rw (mark_row-jobs r.schedule_id _ (get r.schedule_id db.schedules) db) h.found;
      };
    }

    move-Leads :
        (e : Option Text) (a : Option ℕ) (new : JobState) (reason : Text) (correlation instant : ℕ)
        → transition_allowed r.job.state new ≡ true
        → Leads Ready P
            (move r.schedule.job_id e a (by_scheduler r.job.state new reason correlation instant))
    move-Leads e a new reason correlation instant fine = record {
      at = λ db h.
          stable.moves db r.schedule.job_id r.job e a
            (by_scheduler r.job.state new reason correlation instant)
            (record { found = h.found; previous = refl; numbered = refl; fine = fine }) h.kept;
    }

    fail_release-Leads : (reason : Text) → Leads Ready P (fail_release r reason)
    fail_release-Leads reason =
        Leads-bind same _ _
          (record { at = λ db h. (mark_retry_failed-Leads r.schedule_id _).at db h.kept })
          (λ _. Leads-pure same _)

    exhaust_release-Leads : Leads Ready P (exhaust_release r)
    unfolding exhaust_release
    exhaust_release-Leads =
        Leads-if (transition_allowed r.job.state JobState.failed) _ _
          (λ fine. Leads-bind {R = Ready} Ready-P _ _ (mark_retry_exhausted-Ready _) (λ _.
            Leads-bind same _ _ (move-Leads _ _ JobState.failed _ _ _ fine) (λ _.
              Leads-bind same _ _ (enqueue_job_failed-Leads P off _ _ _ _ _ _ _)
                (λ _. Leads-pure same _))))
          (λ _. fail_release-Leads _)

    release-Leads : (o : Option JobState) → Leads Ready P (release r o)
    unfolding release
    release-Leads none = fail_release-Leads _
    release-Leads (some target) =
        Leads-if
          (state_eq r.job.state JobState.retry_pending && transition_allowed r.job.state target) _ _
          (λ fine.
            Leads-bind same _ _ (move-Leads _ _ target _ _ _ (ground arith))
              (λ _. Leads-bind same _ _ (mark_retry_attempted-Leads _) (λ _. Leads-pure same _)))
          (λ _. fail_release-Leads _)

    for_release-Leads : Leads Ready P (for_release r)
    unfolding for_release
    for_release-Leads =
        Leads-if (ltb r.schedule.max_attempts r.schedule.attempt_number) _ _
          (λ _. exhaust_release-Leads) (λ _. release-Leads _)

  due_job-P :
      (id : ℕ) (row : Schedule) (correlation instant : ℕ) (o : Option Job) (db : Db)
      → get row.job_id db.jobs ≡ o
      → P db
      → P (due_job id row correlation instant o db).1
  due_job-P id row correlation instant none db e h =
      (Leads-bind {R = P} {Q = P} same {P = P} _ _ (mark_retry_failed-Leads id _)
          (λ _. Leads-pure same _)).at
        db h
  due_job-P id row correlation instant (some job) db e h =
      (for_release-Leads _).at db (record { kept = h; found = e })

  -- Releasing a schedule, whatever becomes of it.
  pub process_due_retry-Leads :
      (id : ℕ) (correlation : Option ℕ) (instant : ℕ)
      → Leads P P (process_due_retry id correlation instant)
  unfolding process_due_retry
  process_due_retry-Leads id correlation instant = record {
    at = λ db. from db (get id db.schedules);
  }
    where
      from : (db : Db) (o : Option Schedule) → P db → P (due_schedule id correlation instant o db).1
      from db none h = h
      from db (some row) h =
          (Leads-if {P = P} {Q = P} (not (is_scheduled row.status)) _ _ (λ _. Leads-pure same _)
              (λ _.
                Leads-if (ltb instant row.due_at) _ _ (λ _. Leads-pure same _)
                  (λ _. record { at = λ db. due_job-P id row _ instant _ db refl }))).at
            db h

  process_each-Leads :
      (correlation : Option ℕ) (clock : ℕ → ℕ) (rows : List (ℕ × Schedule)) (b : RetryBatchResult)
      → Leads P P (process_each correlation clock rows b)
  unfolding process_each
  process_each-Leads correlation clock [] b = Leads-pure same b
  process_each-Leads correlation clock ((id, row) ∷ rows) b =
      Leads-bind same _ _ (process_due_retry-Leads id correlation (clock 0))
        (λ result. process_each-Leads correlation (λ i. clock (suc i)) rows _)

  pub process_due_retries-Leads :
      (limit : ℕ) (correlation : Option ℕ) (as_of : ℕ) (clock : ℕ → ℕ)
      → Leads P P (process_due_retries limit correlation as_of clock)
  unfolding process_due_retries claim_due_retries
  process_due_retries-Leads limit correlation as_of clock = record {
    at = λ db h. (process_each-Leads correlation clock _ _).at db h;
  }

-- A batch of due retries, also one that an exception ends in its middle, keeps the history of every
-- job in step with the state of its row.
pub process_due_retries-Audited :
    (limit : ℕ) (correlation : Option ℕ) (as_of : ℕ) (clock : ℕ → ℕ) (db : Db)
    → Audited db
    → Audited (process_due_retries limit correlation as_of clock db).1
process_due_retries-Audited limit correlation as_of clock =
    (process_due_retries-Leads Audited-Stable limit correlation as_of clock).at
