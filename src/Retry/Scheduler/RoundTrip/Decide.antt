-- ===== src/Retry/Scheduler/RoundTrip/Decide.antt =====
-- When schedule_retry_for_job of app/retry/scheduler.py schedules a retry, and for which stage.
use stream_lite.Base.{ℕ, ◌+◌, ◌≡◌, refl, subst, Bool, true, false, Option, none, some, ltb, arith}
use stream_lite.Base.Text.{Text, Casing}
use stream_lite.Base.Table.{get}
use stream_lite.Base.Exec.{ok, lift}
use stream_lite.Base.Exec.Yields.{Yields, Yields-if, Yields-pure, Yields-bind}
use stream_lite.Jobs.{JobState, transition_allowed}
use stream_lite.Store.Model.{Stage, Job, Db}
use stream_lite.Store.Jobs.{move}
use stream_lite.Retry.Backoff.{Policy, next_attempt_number, retry_allowed}
use stream_lite.Retry.Classifier.Coherence.{may_retry, classify-coherent, classify_inv}
use stream_lite.Retry.Classifier.{Classification, classify, normalize_stage}
use stream_lite.Retry.Scheduler.{
  RetryScheduleResult, retry_target_state, resolve_attempt_number, enqueue_job_failed,
}
use stream_lite.Retry.Scheduler.Schedule.{
  Failure, finalize, announce, tells_failed, exhaust, next_or_exhausted, retry_after, retry_in,
  decide_retry, with_attempt, for_job,
}
use stream_lite.Retry.Scheduler.Due.Released.{Any, any}
use stream_lite.Retry.Scheduler.RoundTrip.Queue.{
  is_scheduling, Queued, IfScheduled, Ready, schedule_next-queues,
}

next_within : (m n k : ℕ) → next_attempt_number m n ≡ ok (some k) → (ltb m k ≡ false) × (k ≡ n + 1)
unfolding next_attempt_number retry_allowed
next_within m n k e = ground arith

-- The branches that schedule nothing.
module _ (policy : Policy) (f : Failure) where
  announce-IfScheduled :
      (state : JobState) (b : Bool)
      → Yields Any
          (IfScheduled policy f.attempt f.instant f.job_id f.decision.stage)
          (announce state f b)
  announce-IfScheduled state false = Yields-pure _ (λ _ _ h. cc)
  announce-IfScheduled state true =
      Yields-bind {R = λ _. Any} (enqueue_job_failed f.job_id f.job _ _ _ _ _) _ (any _)
        (λ _. Yields-pure _ (λ _ _ h. cc))

  finalize-IfScheduled :
      (o : Option JobState)
      → Yields Any (IfScheduled policy f.attempt f.instant f.job_id f.decision.stage) (finalize f o)
  unfolding finalize
  finalize-IfScheduled none = Yields-pure _ (λ _ _ h. cc)
  finalize-IfScheduled (some state) =
      Yields-if (transition_allowed f.job.state state) _ _
        (λ _.
          Yields-bind {R = λ _. Any} (move _ _ _ _) _ (any _)
            (λ _. announce-IfScheduled state (tells_failed state f.decision.stage)))
        (λ _. Yields-pure _ (λ _ _ h. cc))

  exhaust-IfScheduled :
      Yields Any (IfScheduled policy f.attempt f.instant f.job_id f.decision.stage) (exhaust f)
  unfolding exhaust
  exhaust-IfScheduled = Yields-bind {R = λ _. Any} (move _ _ _ _) _ (any _) (λ _.
      Yields-bind {R = λ _. Any} (enqueue_job_failed _ _ _ _ _ _ _) _ (any _)
        (λ _. Yields-pure _ (λ _ _ h. cc)))

module _ (policy : Policy) (f : Failure) where
  next_or_exhausted-queues :
      (target : JobState)
      → retry_target_state f.decision.stage ≡ some target
      → transition_allowed f.job.state JobState.retry_pending ≡ true
      → may_retry f.decision.stage ≡ true
      → (o : Option ℕ) → next_attempt_number policy.max_attempts f.attempt ≡ ok o
      → Yields
          (Ready policy f)
          (IfScheduled policy f.attempt f.instant f.job_id f.decision.stage)
          (next_or_exhausted policy f o)
  next_or_exhausted-queues target goal fine retried none e = Yields-pure _ (λ _ _ h. cc)
  next_or_exhausted-queues target goal fine retried (some next) e =
      let fit = next_within policy.max_attempts f.attempt next e in
      schedule_next-queues policy f next target goal fine retried fit.0 fit.1

  retry_after-queues :
      (target : JobState) (b : Bool)
      → retry_target_state f.decision.stage ≡ some target
      → transition_allowed f.job.state JobState.retry_pending ≡ true
      → may_retry f.decision.stage ≡ true
      → Yields
          (Ready policy f)
          (IfScheduled policy f.attempt f.instant f.job_id f.decision.stage)
          (retry_after policy f b)
  retry_after-queues target false goal fine retried = record {
    at = λ db _. (exhaust-IfScheduled policy f).at db tt;
  }
  retry_after-queues target true goal fine retried =
      Yields-bind
        {R = λ o db. Ready policy f db × (next_attempt_number policy.max_attempts f.attempt ≡ ok o)}
        (lift (next_attempt_number policy.max_attempts f.attempt)) (next_or_exhausted policy f)
        (record { at = λ _ h o e. (h, e) })
        (λ o. record {
          at = λ db p. (next_or_exhausted-queues target goal fine retried o p.1).at db p.0;
        })

  retry_in-queues :
      (o : Option JobState)
      → retry_target_state f.decision.stage ≡ o
      → may_retry f.decision.stage ≡ true
      → Yields
          (Ready policy f)
          (IfScheduled policy f.attempt f.instant f.job_id f.decision.stage)
          (retry_in policy f o)
  retry_in-queues none goal retried = Yields-pure _ (λ _ _ h. cc)
  retry_in-queues (some target) goal retried =
      Yields-if (transition_allowed f.job.state JobState.retry_pending) _ _
        (λ fine.
          Yields-bind {R = λ _. Ready policy f} _ _ (record { at = λ _ h _ _. h })
            (λ again. retry_after-queues target again goal fine retried))
        (λ _. Yields-pure _ (λ _ _ h. cc))

  decide_retry-queues :
      (f.decision.retryable ≡ true → may_retry f.decision.stage ≡ true)
      → Yields
          (Ready policy f)
          (IfScheduled policy f.attempt f.instant f.job_id f.decision.stage)
          (decide_retry policy f)
  unfolding decide_retry
  decide_retry-queues coherent =
      Yields-if f.decision.retryable _ _
        (λ retryable.
          retry_in-queues (retry_target_state f.decision.stage) refl (coherent retryable))
        (λ _. record { at = λ db _. (finalize-IfScheduled policy f _).at db tt })

with_attempt-queues :
    (policy : Policy) (j : ℕ) (job : Job) (decision : Classification) (correlation instant n : ℕ)
    (o : Option ℕ)
    → ((a : ℕ) → o ≡ some a → a ≡ n)
    → (decision.retryable ≡ true → may_retry decision.stage ≡ true)
    → Yields
        (λ db. get j db.jobs ≡ some job)
        (IfScheduled policy n instant j decision.stage)
        (with_attempt policy j job decision correlation instant o)
with_attempt-queues policy j job decision correlation instant n none same coherent =
    Yields-pure _ (λ _ _ h. cc)
with_attempt-queues policy j job decision correlation instant n (some attempt) same coherent =
    subst
      (λ m.
        Yields (λ (db : Db). get j db.jobs ≡ some job)
          (IfScheduled policy m instant j decision.stage)
          (with_attempt policy j job decision correlation instant (some attempt)))
      (same attempt refl) (decide_retry-queues policy _ coherent)

resolve_attempt_number_lem : (n a : ℕ) → resolve_attempt_number n ≡ some a → a ≡ n
unfolding resolve_attempt_number
resolve_attempt_number_lem n a e = ground arith

-- The stage that failed, as the caller named it, and what its retry leaves.
pub record Requeued (k : Casing) (policy : Policy) (instant j : ℕ) (stage : Text) (job : Job)
    (r : RetryScheduleResult) (db : Db) : Type 0 where
  pub failed : Stage
  pub named : normalize_stage k stage ≡ ok failed
  pub queued : Queued policy job.attempt_number instant j failed r db

-- The decision is about the stage that the caller named.
decided :
    (k : Casing) (stage code : Text) (decision : Classification)
    → classify k stage code none ≡ ok decision
    → normalize_stage k stage ≡ ok decision.stage
decided k stage code decision e =
    let (s, code', named, coded, same) = classify_inv k stage code none decision e in
    subst (λ (d : Classification). normalize_stage k stage ≡ ok d.stage) same named

module _ (k : Casing) (policy : Policy) (j : ℕ) (stage code : Text) (correlation : Option ℕ)
    (instant : ℕ) where
  pub for_job-queues :
      (db : Db) (r : RetryScheduleResult) (o : Option Job)
      → get j db.jobs ≡ o
      → (for_job k policy j stage code correlation instant o db).0 ≡ ok r
      → is_scheduling r.status ≡ true
      → (job : Job) × (o ≡ some job)
        × Requeued k policy instant j stage job r
            (for_job k policy j stage code correlation instant o db).1
  for_job-queues db r none e h s = cc (
      (Yields-pure {P = Any} {Q = λ (r : RetryScheduleResult) _. is_scheduling r.status ≡ false} _
          (λ _ _. refl)).at
        db tt r h)
  for_job-queues db r (some job) e h s = (
    job,
    refl,
    ((Yields-bind
          {R = λ decision db.
            (get j db.jobs ≡ some job) × (classify k stage code none ≡ ok decision)}
          {Q = λ (r : RetryScheduleResult) db.
            is_scheduling r.status ≡ true → Requeued k policy instant j stage job r db}
          {P = λ db. get j db.jobs ≡ some job} (lift (classify k stage code none)) _
          (record { at = λ _ h decision e. (h, e) })
          (λ decision. record {
            at = λ db h a e s. record {
              failed = decision.stage;
              named = decided k stage code decision h.1;
              queued =
                  (with_attempt-queues policy j job decision _ instant job.attempt_number _
                      (resolve_attempt_number_lem job.attempt_number)
                      (λ again. ((classify-coherent k stage code none h.1).0 again).2)).at
                    db h.0 a e s;
            };
          })).at
        db e r h s),
  )
