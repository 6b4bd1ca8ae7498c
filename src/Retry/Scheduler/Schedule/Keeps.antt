-- ===== src/Retry/Scheduler/Schedule/Keeps.antt =====
-- schedule_retry_for_job of app/retry/scheduler.py keeps the audit of the job states.
use stream_lite.Retry.Scheduler.Tells.{
  OffOutbox, enqueue_job_failed-Leads, enqueue_retry_scheduled-Leads,
}
use stream_lite.Base.{ℕ, ◌≡◌, refl, Bool, true, false, Option, none, some, arith}
use stream_lite.Base.Text.{Text, Casing}
use stream_lite.Base.Table.{get}
use stream_lite.Base.Exec.Leads.{Leads, Leads-if, Leads-pure, Leads-lift, Leads-bind}
use stream_lite.Jobs.{JobState, transition_allowed}
use stream_lite.Store.Model.{Job, Db}
use stream_lite.Store.Jobs.{move}
use stream_lite.Store.Retry.{schedule_retry}
use stream_lite.Store.Audit.{Audited}
use stream_lite.Store.Stable.{Stable, Holding, Audited-Stable}
use stream_lite.Retry.Scheduler.Schedule.{tells_failed}
use stream_lite.Retry.Backoff.{Policy}
use stream_lite.Retry.Classifier.{Classification, classify}
use stream_lite.Retry.Scheduler.{by_scheduler, retry_target_state}
use stream_lite.Retry.Scheduler.Schedule.{
  Failure, finalize, announce, exhaust, schedule_row, schedule_next, next_or_exhausted, retry_after,
  retry_in, decide_retry, with_attempt, for_job, schedule_retry_for_job,
}

pub may_fail :
    (s : JobState)
    → transition_allowed s JobState.retry_pending ≡ true
    → transition_allowed s JobState.failed ≡ true
unfolding transition_allowed
may_fail s h = ground arith

module _ {P : Db → Type 0} (stable : Stable P) where
  same : (db : Db) → P db → P db
  same db h = h

  off : OffOutbox P
  off db db' jobs history schedules h = stable.off db db' jobs history h

  module _ (f : Failure) where
    abbrev Ready : Db → Type 0
    Ready = Holding P f.job_id f.job

    Ready-P : (db : Db) → Ready db → P db
    Ready-P db h = h.kept

    move-Leads :
        (e : Option Text) (a : Option ℕ) (new : JobState) (reason : Text) (correlation instant : ℕ)
        → transition_allowed f.job.state new ≡ true
        → Leads Ready P
            (move f.job_id e a (by_scheduler f.job.state new reason correlation instant))
    move-Leads e a new reason correlation instant fine = record {
      at = λ db h.
          stable.moves db f.job_id f.job e a
            (by_scheduler f.job.state new reason correlation instant)
            (record { found = h.found; previous = refl; numbered = refl; fine = fine }) h.kept;
    }

    schedule_retry-Ready :
        (policy : Policy) (next delay : ℕ)
        → Leads Ready Ready
            (λ (db : Db). schedule_retry (schedule_row policy f next delay db.now) db)
    unfolding schedule_retry
    schedule_retry-Ready policy next delay = record {
      at = λ db h. record { kept = stable.off _ _ refl refl h.kept; found = h.found };
    }

    announce-Leads : (state : JobState) (b : Bool) → Leads P P (announce state f b)
    announce-Leads state false = Leads-pure same _
    announce-Leads state true =
        Leads-bind same _ _ (enqueue_job_failed-Leads P off _ _ _ _ _ _ _) (λ _. Leads-pure same _)

    finalize-Leads : (o : Option JobState) → Leads Ready P (finalize f o)
    unfolding finalize
    finalize-Leads none = Leads-pure Ready-P _
    finalize-Leads (some terminal_state) =
        Leads-if (transition_allowed f.job.state terminal_state) _ _
          (λ fine.
            Leads-bind same _ _ (move-Leads _ _ terminal_state _ _ _ fine)
              (λ _. announce-Leads terminal_state (tells_failed terminal_state f.decision.stage)))
          (λ _. Leads-pure Ready-P _)

    exhaust-Leads :
        transition_allowed f.job.state JobState.failed ≡ true → Leads Ready P (exhaust f)
    unfolding exhaust
    exhaust-Leads fine = Leads-bind same _ _ (move-Leads _ _ JobState.failed _ _ _ fine) (λ _.
        Leads-bind same _ _ (enqueue_job_failed-Leads P off _ _ _ _ _ _ _) (λ _. Leads-pure same _))

    schedule_next-Leads :
        (policy : Policy) (next : ℕ)
        → transition_allowed f.job.state JobState.retry_pending ≡ true
        → Leads Ready P (schedule_next policy f next)
    unfolding schedule_next
    schedule_next-Leads policy next fine =
        Leads-bind {R = Ready} Ready-P _ _ (Leads-lift (λ _ h. h) (policy.delay_micros f.attempt))
          (λ delay.
            Leads-bind {R = Ready} Ready-P _ _ (schedule_retry-Ready policy next delay) (λ _.
              Leads-bind same _ _ (move-Leads _ _ JobState.retry_pending _ _ _ fine) (λ _.
                Leads-bind same _ _ (enqueue_retry_scheduled-Leads P off _ _ _ _ _ _ _)
                  (λ _. Leads-pure same _))))

    next_or_exhausted-Leads :
        (policy : Policy) (o : Option ℕ)
        → transition_allowed f.job.state JobState.retry_pending ≡ true
        → Leads Ready P (next_or_exhausted policy f o)
    next_or_exhausted-Leads policy none fine = Leads-pure Ready-P _
    next_or_exhausted-Leads policy (some next) fine = schedule_next-Leads policy next fine

    -- From which a retry may be pending, a job may fail too.
    retry_after-Leads :
        (policy : Policy) (b : Bool)
        → transition_allowed f.job.state JobState.retry_pending ≡ true
        → Leads Ready P (retry_after policy f b)
    retry_after-Leads policy false fine = exhaust-Leads (may_fail f.job.state fine)
    retry_after-Leads policy true fine =
        Leads-bind {R = Ready} Ready-P _ _ (Leads-lift (λ _ h. h) _)
          (λ next. next_or_exhausted-Leads policy next fine)

    decide_retry-Leads : (policy : Policy) → Leads Ready P (decide_retry policy f)
    unfolding decide_retry
    decide_retry-Leads policy =
        Leads-if f.decision.retryable _ _ (λ _. retrying (retry_target_state f.decision.stage))
          (λ _. finalize-Leads _)
      where
        retrying : (o : Option JobState) → Leads Ready P (retry_in policy f o)
        retrying none = Leads-pure Ready-P _
        retrying (some target) =
            Leads-if (transition_allowed f.job.state JobState.retry_pending) _ _
              (λ fine.
                Leads-bind {R = Ready} Ready-P _ _ (Leads-lift (λ _ h. h) _)
                  (λ again. retry_after-Leads policy again fine))
              (λ _. Leads-pure Ready-P _)

  with_attempt-Leads :
      (policy : Policy) (j : ℕ) (job : Job) (decision : Classification) (correlation instant : ℕ)
      (o : Option ℕ)
      → Leads (Holding P j job) P (with_attempt policy j job decision correlation instant o)
  with_attempt-Leads policy j job decision correlation instant none = Leads-pure (λ _ h. h.kept) _
  with_attempt-Leads policy j job decision correlation instant (some attempt) =
      decide_retry-Leads _ policy

  pub schedule_retry_for_job-Leads :
      (k : Casing) (policy : Policy) (j : ℕ) (stage code : Text) (correlation : Option ℕ)
      (instant : ℕ)
      → Leads P P (schedule_retry_for_job k policy j stage code correlation instant)
  unfolding schedule_retry_for_job
  schedule_retry_for_job-Leads k policy j stage code correlation instant = record {
    at = λ db h. from db h (get j db.jobs) refl;
  }
    where
      from :
          (db : Db)
          → P db
          → (o : Option Job) → get j db.jobs ≡ o
          → P (for_job k policy j stage code correlation instant o db).1
      from db h none e = h
      from db h (some job) e =
          (Leads-bind {R = Holding P j job} {Q = P} (λ _ r. r.kept) {P = Holding P j job} _ _
              (Leads-lift (λ _ r. r) (classify k stage code none))
              (λ decision. with_attempt-Leads policy j job decision _ instant _)).at
            db (record { kept = h; found = e })

-- However scheduling a retry ends, in a schedule, a final failure, a skip or an exception, the
-- history of every job still retraces the state of its row.
pub schedule_retry_for_job-Audited :
    (k : Casing) (policy : Policy) (j : ℕ) (stage code : Text) (correlation : Option ℕ)
    (instant : ℕ) (db : Db)
    → Audited db
    → Audited (schedule_retry_for_job k policy j stage code correlation instant db).1
schedule_retry_for_job-Audited k policy j stage code correlation instant =
    (schedule_retry_for_job-Leads Audited-Stable k policy j stage code correlation instant).at
