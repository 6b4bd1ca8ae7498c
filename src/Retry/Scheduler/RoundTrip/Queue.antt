-- ===== src/Retry/Scheduler/RoundTrip/Queue.antt =====
-- What schedule_retry_for_job of app/retry/scheduler.py leaves where it schedules a retry.
use stream_lite.Retry.Scheduler.Tells.{OffOutbox, enqueue_event-Leads}
use stream_lite.Base.{ℕ, ◌+◌, ◌≡◌, refl, subst, Bool, true, false, Option, some, ltb}
use stream_lite.Base.Text.{Text}
use stream_lite.Base.Table.{get, get-put_self}
use stream_lite.Base.Exec.{ok, ok-injective}
use stream_lite.Base.Exec.Yields.{Leads-Yields, Yields, Yields-pure, Yields-bind, Yields-lift-bind}
use stream_lite.Jobs.{JobState, transition_allowed}
use stream_lite.Store.Model.{Stage, Job, Db, generate_uuid}
use stream_lite.Store.Jobs.{move, moved, move-accepted}
use stream_lite.Store.Retry.{schedule_retry}
use stream_lite.Retry.Backoff.{Policy}
use stream_lite.Retry.Classifier.Coherence.{may_retry}
use stream_lite.Retry.Scheduler.{
  Status, RetryScheduleResult, by_scheduler, retry_target_state, enqueue_retry_scheduled,
}
use stream_lite.Retry.Scheduler.Schedule.{Failure, schedule_row, schedule_next}
use stream_lite.Retry.Scheduler.RoundTrip.Release.{Waiting}

-- The statuses that say that a retry is scheduled.
abbrev pub is_scheduling : Status → Bool
is_scheduling Status.scheduled = true
is_scheduling _ = false

-- What a call at `instant` leaves that schedules a retry of a stage after the failure of an attempt.
pub record Queued (policy : Policy) (attempt instant j : ℕ) (stage : Stage)
    (r : RetryScheduleResult) (db : Db) : Type 0 where
  pub id : ℕ
  pub due : ℕ
  pub named : r.retry_schedule_id ≡ some id
  pub timed : r.due_at ≡ some due
  pub waiting : Waiting id due db
  pub own : waiting.row.job_id ≡ j
  pub again : waiting.row.next_stage ≡ stage
  pub retried : may_retry stage ≡ true
  pub attempted : r.attempt_number ≡ some (waiting.row.attempt_number)
  pub next : waiting.row.attempt_number ≡ attempt + 1
  pub delay : ℕ
  pub delayed : policy.delay_micros attempt ≡ ok delay
  pub later : due ≡ instant + delay

abbrev pub IfScheduled : Policy → ℕ → ℕ → ℕ → Stage → RetryScheduleResult → Db → Type 0
IfScheduled policy attempt instant j stage r db =
    is_scheduling r.status ≡ true → Queued policy attempt instant j stage r db

module _ (policy : Policy) (f : Failure) where
  abbrev pub Ready : Db → Type 0
  Ready db = get f.job_id db.jobs ≡ some f.job

  -- The schedule is written, the job not moved yet.
  record Placed (next delay id : ℕ) (db : Db) : Type 0 where
    pub now : ℕ
    pub found : get id db.schedules ≡ some (schedule_row policy f next delay now)
    pub held : Ready db

  -- Both are written.
  record Moved (next delay id : ℕ) (db : Db) : Type 0 where
    pub now : ℕ
    pub job : Job
    pub found : get id db.schedules ≡ some (schedule_row policy f next delay now)
    pub held : get f.job_id db.jobs ≡ some job
    pub pending : job.state ≡ JobState.retry_pending

  schedule_retry-Placed :
      (next delay : ℕ)
      → Yields Ready
          (Placed next delay)
          (λ (db : Db). schedule_retry (schedule_row policy f next delay db.now) db)
  unfolding schedule_retry generate_uuid
  schedule_retry-Placed next delay = record {
    at = λ db h id e.
        subst
          (λ k. Placed next delay k (schedule_retry (schedule_row policy f next delay db.now) db).1)
          (ok-injective db.next_uuid id e)
          (record {
            now = db.now;
            found =
                get-put_self db.next_uuid (schedule_row policy f next delay db.now) db.schedules;
            held = h;
          });
  }

  move-Moved :
      (next delay id : ℕ) (e : Option Text) (a : Option ℕ) (reason : Text) (correlation instant : ℕ)
      → transition_allowed f.job.state JobState.retry_pending ≡ true
      → Yields
          (Placed next delay id)
          (λ _. Moved next delay id)
          (move f.job_id e a
            (by_scheduler f.job.state JobState.retry_pending reason correlation instant))
  move-Moved next delay id e a reason correlation instant fine = record {
    at = λ db h _ _.
        rw
          (move-accepted f.job_id e a db h.held
            (by_scheduler f.job.state JobState.retry_pending reason correlation instant) fine)
          (record {
            now = h.now;
            job = moved JobState.retry_pending e a db.now f.job;
            found = h.found;
            held = get-put_self f.job_id (moved JobState.retry_pending e a db.now f.job) db.jobs;
            pending = unfold moved in refl;
          });
  }

  Moved-off : (next delay id : ℕ) → OffOutbox (Moved next delay id)
  Moved-off next delay id db db' jobs history schedules h = record {
    now = h.now;
    job = h.job;
    found = rw schedules h.found;
    held = rw jobs h.held;
    pending = h.pending;
  }

  pub schedule_next-queues :
      (next : ℕ) (target : JobState)
      → retry_target_state f.decision.stage ≡ some target
      → transition_allowed f.job.state JobState.retry_pending ≡ true
      → may_retry f.decision.stage ≡ true
      → ltb policy.max_attempts next ≡ false
      → next ≡ f.attempt + 1
      → Yields Ready
          (IfScheduled policy f.attempt f.instant f.job_id f.decision.stage)
          (schedule_next policy f next)
  unfolding schedule_next enqueue_retry_scheduled
  schedule_next-queues next target goal fine retried within one_more =
      Yields-lift-bind (policy.delay_micros f.attempt) _ (λ delay given.
        Yields-bind {R = Placed next delay} _ _ (schedule_retry-Placed next delay) (λ id.
          Yields-bind {R = λ _. Moved next delay id} _ _ (move-Moved next delay id _ _ _ _ _ fine)
            (λ _.
              Yields-bind {R = λ _. Moved next delay id} _ _
                (Leads-Yields _
                  (enqueue_event-Leads (Moved next delay id) (Moved-off next delay id) _))
                (λ _. Yields-pure _ (λ db h _. record {
                  id = id;
                  due = f.instant + delay;
                  named = refl;
                  timed = refl;
                  waiting = record {
                    row = schedule_row policy f next delay h.now;
                    job = h.job;
                    target = target;
                    found = h.found;
                    status = refl;
                    on_time = refl;
                    within = within;
                    goal = goal;
                    held = h.held;
                    pending = h.pending;
                  };
                  own = refl;
                  again = refl;
                  retried = retried;
                  attempted = refl;
                  next = one_more;
                  delay = delay;
                  delayed = given;
                  later = refl;
                })))))
