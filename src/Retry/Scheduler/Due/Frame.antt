-- ===== src/Retry/Scheduler/Due/Frame.antt =====
-- Which rows of retry_schedules a call of process_due_retry in app/retry/scheduler.py leaves alone.
use stream_lite.Retry.Scheduler.Tells.{OffOutbox, enqueue_job_failed-Leads}
use stream_lite.Base.{not, ℕ, ◌&&◌, Option, none, some, ltb}
use stream_lite.Base.Text.{Text}
use stream_lite.Base.Table.{Table, get}
use stream_lite.Base.Keys.{Lacks, HeldIn, HeldIn-put}
use stream_lite.Base.Exec.Leads.{Leads, Leads-if, Leads-pure, Leads-bind}
use stream_lite.Jobs.{JobState, state_eq, transition_allowed}
use stream_lite.Store.Model.{Job, Schedule, Db}
use stream_lite.Store.Jobs.{move, update_state, append_state_history, Transition}
use stream_lite.Store.Retry.{
  is_scheduled, mark_retry_attempted, mark_retry_exhausted, mark_retry_failed, mark_row,
}
use stream_lite.Retry.Scheduler.{retry_target_state}
use stream_lite.Retry.Scheduler.Due.{
  process_due_retry, due_schedule, Release, fail_release, exhaust_release, release, for_release,
  due_job,
}
use stream_lite.Retry.Scheduler.Due.Once.{update_row-schedules}

-- The session holds these rows under their keys.
abbrev pub Rows : Table Schedule → Db → Type 0
Rows rows db = HeldIn db.schedules rows

mark_row-Rows :
    (id : ℕ) (w : ℕ → Schedule → Schedule) (o : Option Schedule) (rows : Table Schedule) (db : Db)
    → Lacks id rows
    → Rows rows db
    → Rows rows (mark_row id w o db).1
mark_row-Rows id w none rows db l h = h
mark_row-Rows id w (some row) rows db l h = HeldIn-put id (w db.now row) db.schedules rows l h

module _ (rows : Table Schedule) where
  kept : (db : Db) → Rows rows db → Rows rows db
  kept db h = h

  move-Rows :
      (j : ℕ) (e : Option Text) (a : Option ℕ) (t : Transition)
      → Leads (Rows rows) (Rows rows) (move j e a t)
  unfolding move append_state_history update_state
  move-Rows j e a t =
      Leads-bind {A = Job} {R = Rows rows} kept (update_state j t.new_state e a) _
        (record { at = λ db h. rw (update_row-schedules j t.new_state e a (get j db.jobs) db) h })
        (λ _. record { at = λ db h. h })

  Rows-off : OffOutbox (Rows rows)
  Rows-off db db' jobs history schedules h = rw schedules h

  module _ (id : ℕ) (lacks : Lacks id rows) where
    mark_retry_failed-Rows :
        (e : Option Text) → Leads (Rows rows) (Rows rows) (mark_retry_failed id e)
    unfolding mark_retry_failed
    mark_retry_failed-Rows e = record {
      at = λ db. mark_row-Rows id _ (get id db.schedules) rows db lacks;
    }

    mark_retry_exhausted-Rows :
        (e : Option Text) → Leads (Rows rows) (Rows rows) (mark_retry_exhausted id e)
    unfolding mark_retry_exhausted
    mark_retry_exhausted-Rows e = record {
      at = λ db. mark_row-Rows id _ (get id db.schedules) rows db lacks;
    }

    mark_retry_attempted-Rows : Leads (Rows rows) (Rows rows) (mark_retry_attempted id)
    unfolding mark_retry_attempted
    mark_retry_attempted-Rows = record {
      at = λ db. mark_row-Rows id _ (get id db.schedules) rows db lacks;
    }

  fail_release-Rows :
      (r : Release) (reason : Text)
      → Lacks r.schedule_id rows
      → Leads (Rows rows) (Rows rows) (fail_release r reason)
  fail_release-Rows r reason l =
      Leads-bind {R = Rows rows} kept _ _ (mark_retry_failed-Rows r.schedule_id l _)
        (λ _. Leads-pure kept _)

  for_release-Rows :
      (r : Release) → Lacks r.schedule_id rows → Leads (Rows rows) (Rows rows) (for_release r)
  unfolding for_release exhaust_release
  for_release-Rows r l =
      Leads-if (ltb r.schedule.max_attempts r.schedule.attempt_number) _ _
        (λ _.
          Leads-if (transition_allowed r.job.state JobState.failed) _ _
            (λ _.
              Leads-bind {R = Rows rows} kept _ _ (mark_retry_exhausted-Rows r.schedule_id l _)
                (λ _. Leads-bind {R = Rows rows} kept _ _ (move-Rows _ _ _ _) (λ _.
                  Leads-bind {R = Rows rows} kept _ _
                    (enqueue_job_failed-Leads (Rows rows) Rows-off _ _ _ _ _ _ _)
                    (λ _. Leads-pure kept _))))
            (λ _. fail_release-Rows r _ l))
        (λ _. back (retry_target_state r.schedule.next_stage))
    where
      back : (o : Option JobState) → Leads (Rows rows) (Rows rows) (release r o)
      back none = unfold release in fail_release-Rows r _ l
      back (some target) =
          unfold release in
          Leads-if
            (state_eq r.job.state JobState.retry_pending && transition_allowed r.job.state target) _
            _
            (λ _. Leads-bind {R = Rows rows} kept _ _ (move-Rows _ _ _ _) (λ _.
              Leads-bind {R = Rows rows} kept _ _ (mark_retry_attempted-Rows r.schedule_id l)
                (λ _. Leads-pure kept _)))
            (λ _. fail_release-Rows r _ l)

  pub due_job-Rows :
      (id : ℕ) (row : Schedule) (correlation instant : ℕ) (o : Option Job)
      → Lacks id rows
      → Leads (Rows rows) (Rows rows) (due_job id row correlation instant o)
  due_job-Rows id row correlation instant none l =
      Leads-bind {R = Rows rows} kept _ _ (mark_retry_failed-Rows id l _) (λ _. Leads-pure kept _)
  due_job-Rows id row correlation instant (some job) l = for_release-Rows _ l

  pub process_due_retry-Rows :
      (id : ℕ) (correlation : Option ℕ) (instant : ℕ)
      → Lacks id rows
      → Leads (Rows rows) (Rows rows) (process_due_retry id correlation instant)
  unfolding process_due_retry
  process_due_retry-Rows id correlation instant l = record {
    at = λ db. (from (get id db.schedules)).at db;
  }
    where
      from :
          (o : Option Schedule)
          → Leads (Rows rows) (Rows rows) (due_schedule id correlation instant o)
      from none = Leads-pure kept _
      from (some row) =
          Leads-if (not (is_scheduled row.status)) _ _ (λ _. Leads-pure kept _)
            (λ _.
              Leads-if (ltb instant row.due_at) _ _ (λ _. Leads-pure kept _)
                (λ _. record {
                  at = λ db. (due_job-Rows id row _ instant (get row.job_id db.jobs) l).at db;
                }))
