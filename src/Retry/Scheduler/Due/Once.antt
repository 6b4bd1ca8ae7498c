-- ===== src/Retry/Scheduler/Due/Once.antt =====
-- process_due_retry of app/retry/scheduler.py: what a released schedule leaves.
use stream_lite.Retry.Scheduler.Tells.{OffOutbox, enqueue_job_failed-Leads}
use stream_lite.Base.{ℕ, ◌≡◌, refl, Bool, true, false, not, ◌&&◌, Option, none, some, ltb, arith}
use stream_lite.Base.Text.{Text}
use stream_lite.Base.Table.{get, get-put_self}
use stream_lite.Base.Exec.{ok}
use stream_lite.Base.Exec.Yields.{Leads-Yields, Yields, Yields-if, Yields-pure, Yields-bind}
use stream_lite.Jobs.{JobState, state_eq, transition_allowed}
use stream_lite.Store.Model.{Job, Schedule, Db}
use stream_lite.Store.Jobs.{move, update_state, update_row, append_state_history, Transition}
use stream_lite.Store.Retry.{
  mark_retry_attempted, mark_retry_exhausted, mark_retry_failed, mark_row, is_scheduled,
}
use stream_lite.Retry.Scheduler.{Status, RetryDueResult, reason_retry_schedule_not_scheduled}
use stream_lite.Retry.Scheduler.Due.{
  Release, fail_release, exhaust_release, release, for_release, due_job, due_schedule, due_result,
  process_due_retry,
}

-- The statuses of a call that changed its schedule.
abbrev pub is_released : Status → Bool
is_released Status.attempted = true
is_released Status.exhausted = true
is_released Status.failed = true
is_released _ = false

-- A row of the schedule that is not scheduled any more.
pub record Spent (id : ℕ) (db : Db) : Type 0 where
  pub row : Schedule
  pub found : get id db.schedules ≡ some row
  pub not_scheduled : is_scheduled row.status ≡ false

-- The schedules that an action was given.
abbrev pub Same {ℓ} : {A : Type ℓ} → (Db → Type ℓ) → A → Db → Type ℓ
Same P a db = P db

mark_row-spends :
    (id : ℕ) (w : ℕ → Schedule → Schedule) (o : Option Schedule) (db : Db)
    → ((now : ℕ) (row : Schedule) → is_scheduled (w now row).status ≡ false)
    → (a : Schedule) → (mark_row id w o db).0 ≡ ok a
    → Spent id (mark_row id w o db).1
mark_row-spends id w none db h a e = cc
mark_row-spends id w (some row) db h a e = record {
  row = w db.now row;
  found = get-put_self id (w db.now row) db.schedules;
  not_scheduled = h db.now row;
}

abbrev Any : Db → Type 0
Any db = Unit

mark_retry_failed-spends :
    (id : ℕ) (e : Option Text) → Yields Any (λ _. Spent id) (mark_retry_failed id e)
unfolding mark_retry_failed
mark_retry_failed-spends id e = record {
  at = λ db _. mark_row-spends id _ (get id db.schedules) db (λ now row. refl);
}

mark_retry_attempted-spends : (id : ℕ) → Yields Any (λ _. Spent id) (mark_retry_attempted id)
unfolding mark_retry_attempted
mark_retry_attempted-spends id = record {
  at = λ db _. mark_row-spends id _ (get id db.schedules) db (λ now row. refl);
}

mark_retry_exhausted-spends :
    (id : ℕ) (e : Option Text) → Yields Any (λ _. Spent id) (mark_retry_exhausted id e)
unfolding mark_retry_exhausted
mark_retry_exhausted-spends id e = record {
  at = λ db _. mark_row-spends id _ (get id db.schedules) db (λ now row. refl);
}

Spent-same :
    {id : ℕ} {db : Db} → Spent id db → (db' : Db) → db'.schedules ≡ db.schedules → Spent id db'
Spent-same {id} s db' e = record {
  row = s.row;
  found = rw e s.found;
  not_scheduled = s.not_scheduled;
}

pub update_row-schedules :
    (j : ℕ) (s : JobState) (e : Option Text) (a : Option ℕ) (o : Option Job) (db : Db)
    → (update_row j s e a o db).1.schedules ≡ db.schedules
update_row-schedules j s e a none db = refl
update_row-schedules j s e a (some job) db = ground arith

move-Spent :
    (id j : ℕ) (e : Option Text) (a : Option ℕ) (t : Transition)
    → Yields (Spent id) (λ _. Spent id) (move j e a t)
unfolding move append_state_history update_state
move-Spent id j e a t =
    Yields-bind {A = Job} {R = λ _. Spent id} (update_state j t.new_state e a) _
      (record {
        at = λ db h _ _.
            Spent-same h (update_state j t.new_state e a db).1
              (update_row-schedules j t.new_state e a (get j db.jobs) db);
      })
      (λ _. record { at = λ db h _ _. Spent-same h (append_state_history j t db).1 refl })

Spent-off : (id : ℕ) → OffOutbox (Spent id)
Spent-off id db db' jobs history schedules h = Spent-same h db' schedules

-- What a release that is not a skip leaves.
abbrev Done : ℕ → RetryDueResult → Db → Type 0
Done id r db = is_released r.status ≡ true → Spent id db

module _ (r : Release) where
  fail_release-spends : (reason : Text) → Yields Any (Done r.schedule_id) (fail_release r reason)
  fail_release-spends reason =
      Yields-bind {R = λ _. Spent r.schedule_id} _ _ (mark_retry_failed-spends r.schedule_id _)
        (λ _. Yields-pure _ (λ db h _. h))

  exhaust_release-spends : Yields Any (Done r.schedule_id) (exhaust_release r)
  unfolding exhaust_release
  exhaust_release-spends =
      Yields-if (transition_allowed r.job.state JobState.failed) _ _
        (λ _.
          Yields-bind {R = λ _. Spent r.schedule_id} _ _
            (mark_retry_exhausted-spends r.schedule_id _)
            (λ _.
              Yields-bind {R = λ _. Spent r.schedule_id} _ _ (move-Spent r.schedule_id _ _ _ _)
                (λ _.
                  Yields-bind {R = λ _. Spent r.schedule_id} _ _
                    (Leads-Yields _ (
                      enqueue_job_failed-Leads (Spent r.schedule_id) (Spent-off r.schedule_id) _ _ _
                        _ _ _ _))
                    (λ _. Yields-pure _ (λ db h _. h)))))
        (λ _. fail_release-spends _)

  release-spends : (o : Option JobState) → Yields Any (Done r.schedule_id) (release r o)
  unfolding release
  release-spends none = fail_release-spends _
  release-spends (some target) =
      Yields-if
        (state_eq r.job.state JobState.retry_pending && transition_allowed r.job.state target) _ _
        (λ _.
          Yields-bind {R = λ _. Any} _ _ (record { at = λ _ _ _ _. tt })
            (λ _.
              Yields-bind {R = λ _. Spent r.schedule_id} _ _
                (mark_retry_attempted-spends r.schedule_id) (λ _. Yields-pure _ (λ db h _. h))))
        (λ _. fail_release-spends _)

  for_release-spends : Yields Any (Done r.schedule_id) (for_release r)
  unfolding for_release
  for_release-spends =
      Yields-if (ltb r.schedule.max_attempts r.schedule.attempt_number) _ _
        (λ _. exhaust_release-spends) (λ _. release-spends _)

due_job-spends :
    (id : ℕ) (row : Schedule) (correlation instant : ℕ) (o : Option Job)
    → Yields Any (Done id) (due_job id row correlation instant o)
due_job-spends id row correlation instant none =
    Yields-bind {R = λ _. Spent id} _ _ (mark_retry_failed-spends id _)
      (λ _. Yields-pure _ (λ db h _. h))
due_job-spends id row correlation instant (some job) = for_release-spends _

due_schedule-spends :
    (id : ℕ) (correlation : Option ℕ) (instant : ℕ) (o : Option Schedule)
    → Yields Any (Done id) (due_schedule id correlation instant o)
due_schedule-spends id correlation instant none = Yields-pure _ (λ db _ h. cc)
due_schedule-spends id correlation instant (some row) =
    Yields-if (not (is_scheduled row.status)) _ _ (λ _. Yields-pure _ (λ db _ h. cc))
      (λ _.
        Yields-if (ltb instant row.due_at) _ _ (λ _. Yields-pure _ (λ db _ h. cc))
          (λ _. record {
            at = λ db. (due_job-spends id row _ instant (get row.job_id db.jobs)).at db;
          }))

-- What a call on a spent schedule returns.
process_due_retry-Spent :
    (id : ℕ) (correlation : Option ℕ) (instant : ℕ) (db : Db) (s : Spent id db)
    → process_due_retry id correlation instant db
      ≡ (ok (due_result s.row Status.skipped reason_retry_schedule_not_scheduled none), db)
unfolding process_due_retry
process_due_retry-Spent id correlation instant db s = rw (s.found, s.not_scheduled)

-- A schedule is released at most once: where a call returns `attempted`, `exhausted` or `failed`, a
-- further call, whatever its time, is a skip because of the schedule's status and writes nothing.
pub process_due_retry-once :
    (id : ℕ) (correlation again : Option ℕ) (instant later : ℕ) (db : Db) (result : RetryDueResult)
    → (process_due_retry id correlation instant db).0 ≡ ok result
    → is_released result.status ≡ true
    → (row : Schedule) × (process_due_retry id again later
          (process_due_retry id correlation instant db).1
        ≡ (
          ok (due_result row Status.skipped reason_retry_schedule_not_scheduled none),
          (process_due_retry id correlation instant db).1,
        ))
unfolding process_due_retry
process_due_retry-once id correlation again instant later db result e h =
    (spent.row, process_due_retry-Spent id again later _ spent)
  where
    spent : Spent id (process_due_retry id correlation instant db).1
    spent = (due_schedule-spends id correlation instant (get id db.schedules)).at db tt result e h
