-- ===== src/Retry/Scheduler/Answers.antt =====
-- What schedule_retry_for_job and process_due_retry of app/retry/scheduler.py answer of the job's
-- state.
pub mod Due
use stream_lite.Retry.Scheduler.Tells.{OffOutbox, enqueue_event-Leads, enqueue_job_failed-Leads}
use stream_lite.Base.{ℕ, ◌≡◌, refl, subst, Bool, true, false, Option, none, some, some-injective}
use stream_lite.Base.Text.{Text, Casing}
use stream_lite.Base.Table.{get, get-put_self}
use stream_lite.Base.Exec.{ok, lift}
use stream_lite.Base.Exec.Yields.{Leads-Yields, Yields, Yields-if, Yields-pure, Yields-bind}
use stream_lite.Jobs.{JobState, transition_allowed}
use stream_lite.Store.Model.{Job, Db, generate_uuid}
use stream_lite.Store.Jobs.{move, moved, Transition, move-accepted}
use stream_lite.Store.Retry.{schedule_retry}
use stream_lite.Retry.Backoff.{Policy}
use stream_lite.Retry.Classifier.{Classification, classify}
use stream_lite.Retry.Scheduler.{RetryScheduleResult, retry_target_state, enqueue_retry_scheduled}
use stream_lite.Retry.Scheduler.Schedule.{
  Failure, finalize, announce, tells_failed, exhaust, schedule_row, schedule_next,
  next_or_exhausted, retry_after, retry_in, decide_retry, with_attempt, for_job,
  schedule_retry_for_job,
}
use stream_lite.Retry.Scheduler.Schedule.Keeps.{may_fail}

-- The job has a row in this state.
pub record JobIs (j : ℕ) (s : JobState) (db : Db) : Type 0 where
  pub job : Job
  pub held : get j db.jobs ≡ some job
  pub state : job.state ≡ s

-- An answer names no state but that of the job.
abbrev pub Says : ℕ → Option JobState → Db → Type 0
Says j named db = (s : JobState) → named ≡ some s → JobIs j s db

abbrev pub Named : ℕ → RetryScheduleResult → Db → Type 0
Named j r db = Says j r.final_state db

pub say : (j : ℕ) (s : JobState) (db : Db) → JobIs j s db → Says j (some s) db
say j s db h s' e = subst (λ x. JobIs j x db) (some-injective s s' e) h

pub nothing : (j : ℕ) (db : Db) → Says j none db
nothing j db s e = cc

pub same_jobs :
    {j : ℕ} {s : JobState} {db : Db}
    → JobIs j s db
    → (db' : Db) → db'.jobs ≡ db.jobs
    → JobIs j s db'
same_jobs h db' e = record { job = h.job; held = rw e h.held; state = h.state }

module _ (j : ℕ) (s : JobState) where
  pub JobIs-off : OffOutbox (JobIs j s)
  JobIs-off db db' jobs history schedules h = same_jobs h db' jobs

  -- An accepted move.
  pub move-JobIs :
      (job : Job) (e : Option Text) (a : Option ℕ) (t : Transition)
      → transition_allowed job.state t.new_state ≡ true
      → t.new_state ≡ s
      → Yields (λ db. get j db.jobs ≡ some job) (λ _. JobIs j s) (move j e a t)
  move-JobIs job e a t fine same = record {
    at = λ db h _ _. rw (move-accepted j e a db h t fine) (record {
      job = moved t.new_state e a db.now job;
      held = get-put_self j (moved t.new_state e a db.now job) db.jobs;
      state = unfold moved in same;
    });
  }

module _ (f : Failure) where
  abbrev Ready : Db → Type 0
  Ready db = get f.job_id db.jobs ≡ some f.job

  -- The answers that leave the job as it is.
  unmoved : (db : Db) → Ready db → Says f.job_id (some f.job.state) db
  unmoved db h = say f.job_id f.job.state db (record { job = f.job; held = h; state = refl })

  announce-Named :
      (state : JobState) (b : Bool)
      → Yields (JobIs f.job_id state) (Named f.job_id) (announce state f b)
  announce-Named state false = Yields-pure _ (say f.job_id state)
  announce-Named state true =
      Yields-bind {R = λ _. JobIs f.job_id state} _ _
        (Leads-Yields _ (enqueue_job_failed-Leads _ (JobIs-off _ _) _ _ _ _ _ _ _))
        (λ _. Yields-pure _ (say f.job_id state))

  finalize-Named : (o : Option JobState) → Yields Ready (Named f.job_id) (finalize f o)
  unfolding finalize
  finalize-Named none = Yields-pure _ unmoved
  finalize-Named (some state) =
      Yields-if (transition_allowed f.job.state state) _ _
        (λ fine.
          Yields-bind {R = λ _. JobIs f.job_id state} _ _ (move-JobIs _ _ f.job _ _ _ fine refl)
            (λ _. announce-Named state (tells_failed state f.decision.stage)))
        (λ _. Yields-pure _ unmoved)

  exhaust-Named :
      transition_allowed f.job.state JobState.failed ≡ true
      → Yields Ready (Named f.job_id) (exhaust f)
  unfolding exhaust
  exhaust-Named fine =
      Yields-bind {R = λ _. JobIs f.job_id JobState.failed} _ _
        (move-JobIs _ _ f.job _ _ _ fine refl)
        (λ _.
          Yields-bind {R = λ _. JobIs f.job_id JobState.failed} _ _
            (Leads-Yields _ (enqueue_job_failed-Leads _ (JobIs-off _ _) _ _ _ _ _ _ _))
            (λ _. Yields-pure _ (say f.job_id JobState.failed)))

  schedule_retry-Ready :
      (policy : Policy) (next delay : ℕ)
      → Yields Ready
          (λ _. Ready)
          (λ (db : Db). schedule_retry (schedule_row policy f next delay db.now) db)
  unfolding schedule_retry generate_uuid
  schedule_retry-Ready policy next delay = record { at = λ _ h _ _. h }

  schedule_next-Named :
      (policy : Policy) (next : ℕ)
      → transition_allowed f.job.state JobState.retry_pending ≡ true
      → Yields Ready (Named f.job_id) (schedule_next policy f next)
  unfolding schedule_next enqueue_retry_scheduled
  schedule_next-Named policy next fine =
      Yields-bind {R = λ _. Ready} (lift (policy.delay_micros f.attempt)) _
        (record { at = λ _ h _ _. h })
        (λ delay. Yields-bind {R = λ _. Ready} _ _ (schedule_retry-Ready policy next delay) (λ id.
          Yields-bind {R = λ _. JobIs f.job_id JobState.retry_pending} _ _
            (move-JobIs _ _ f.job _ _ _ fine refl)
            (λ _.
              Yields-bind {R = λ _. JobIs f.job_id JobState.retry_pending} _ _
                (Leads-Yields _ (enqueue_event-Leads _ (JobIs-off _ _) _))
                (λ _. Yields-pure _ (say f.job_id JobState.retry_pending)))))

  next_or_exhausted-Named :
      (policy : Policy) (o : Option ℕ)
      → transition_allowed f.job.state JobState.retry_pending ≡ true
      → Yields Ready (Named f.job_id) (next_or_exhausted policy f o)
  next_or_exhausted-Named policy none fine = Yields-pure _ unmoved
  next_or_exhausted-Named policy (some next) fine = schedule_next-Named policy next fine

  retry_after-Named :
      (policy : Policy) (b : Bool)
      → transition_allowed f.job.state JobState.retry_pending ≡ true
      → Yields Ready (Named f.job_id) (retry_after policy f b)
  retry_after-Named policy false fine = exhaust-Named (may_fail f.job.state fine)
  retry_after-Named policy true fine =
      Yields-bind {R = λ _. Ready} _ _ (record { at = λ _ h _ _. h })
        (λ next. next_or_exhausted-Named policy next fine)

  retry_in-Named :
      (policy : Policy) (o : Option JobState) → Yields Ready (Named f.job_id) (retry_in policy f o)
  retry_in-Named policy none = Yields-pure _ unmoved
  retry_in-Named policy (some target) =
      Yields-if (transition_allowed f.job.state JobState.retry_pending) _ _
        (λ fine.
          Yields-bind {R = λ _. Ready} _ _ (record { at = λ _ h _ _. h })
            (λ again. retry_after-Named policy again fine))
        (λ _. Yields-pure _ unmoved)

  decide_retry-Named : (policy : Policy) → Yields Ready (Named f.job_id) (decide_retry policy f)
  unfolding decide_retry
  decide_retry-Named policy =
      Yields-if f.decision.retryable _ _
        (λ _. retry_in-Named policy (retry_target_state f.decision.stage)) (λ _. finalize-Named _)

with_attempt-Named :
    (policy : Policy) (j : ℕ) (job : Job) (decision : Classification) (correlation instant : ℕ)
    (o : Option ℕ)
    → Yields
        (λ db. get j db.jobs ≡ some job)
        (Named j)
        (with_attempt policy j job decision correlation instant o)
with_attempt-Named policy j job decision correlation instant none =
    Yields-pure _ (λ db h. say j job.state db (record { job = job; held = h; state = refl }))
with_attempt-Named policy j job decision correlation instant (some attempt) =
    decide_retry-Named _ policy

-- The final state that scheduling a retry answers, whether the retry was scheduled, the failure made
-- final, the attempts exhausted or the call skipped, is the state that the job's row has then.
pub schedule_retry_for_job-JobIs :
    (k : Casing) (policy : Policy) (j : ℕ) (stage code : Text) (correlation : Option ℕ)
    (instant : ℕ) (db : Db) (r : RetryScheduleResult) (s : JobState)
    → (schedule_retry_for_job k policy j stage code correlation instant db).0 ≡ ok r
    → r.final_state ≡ some s
    → JobIs j s (schedule_retry_for_job k policy j stage code correlation instant db).1
unfolding schedule_retry_for_job
schedule_retry_for_job-JobIs k policy j stage code correlation instant db r s =
    from (get j db.jobs) refl
  where
    from :
        (o : Option Job)
        → get j db.jobs ≡ o
        → (for_job k policy j stage code correlation instant o db).0 ≡ ok r
        → r.final_state ≡ some s
        → JobIs j s (for_job k policy j stage code correlation instant o db).1
    from none e h named =
        (Yields-pure {P = λ _. Unit} {Q = Named j} _ (λ db _. nothing j db)).at db tt r h s named
    from (some job) e h named =
        (Yields-bind {R = λ _ db. get j db.jobs ≡ some job} {Q = Named j}
            {P = λ db. get j db.jobs ≡ some job} (lift (classify k stage code none)) _
            (record { at = λ _ h _ _. h })
            (λ decision. with_attempt-Named policy j job decision _ instant _)).at
          db e r h s named
