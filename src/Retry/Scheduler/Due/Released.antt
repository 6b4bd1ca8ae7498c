-- ===== src/Retry/Scheduler/Due/Released.antt =====
-- process_due_retry of app/retry/scheduler.py past its tests of the status and the time.
use stream_lite.Base.{ℕ, ◌≡◌, refl, true, ◌&&◌, Option, none, some, ltb}
use stream_lite.Base.Text.{Text}
use stream_lite.Base.Exec.{Exec}
use stream_lite.Base.Exec.Yields.{Yields, Yields-if, Yields-pure, Yields-bind}
use stream_lite.Jobs.{JobState, state_eq, transition_allowed}
use stream_lite.Store.Model.{Job, Schedule, Db}
use stream_lite.Store.Jobs.{move}
use stream_lite.Store.Retry.{mark_retry_attempted, mark_retry_exhausted, mark_retry_failed}
use stream_lite.Retry.Scheduler.{RetryDueResult, enqueue_job_failed}
use stream_lite.Retry.Scheduler.Due.{
  Release, fail_release, exhaust_release, release, for_release, due_job,
}
use stream_lite.Retry.Scheduler.Due.Once.{is_released}

abbrev pub Any : Db → Type 0
Any db = Unit

-- A due schedule is released, not skipped.
abbrev pub Released : RetryDueResult → Db → Type 0
Released r db = is_released r.status ≡ true

pub any : {A : Type 0} (m : Exec Db A) → Yields Any (λ _. Any) m
any m = record { at = λ _ _ _ _. tt }

fail_release-Released : (r : Release) (reason : Text) → Yields Any Released (fail_release r reason)
fail_release-Released r reason =
    Yields-bind {R = λ _. Any} _ _ (any (mark_retry_failed _ _)) (λ _. Yields-pure _ (λ _ _. refl))

release-Released : (r : Release) (o : Option JobState) → Yields Any Released (release r o)
unfolding release
release-Released r none = fail_release-Released r _
release-Released r (some target) =
    Yields-if (state_eq r.job.state JobState.retry_pending && transition_allowed r.job.state target)
      _ _
      (λ _. Yields-bind {R = λ _. Any} _ _ (any (move _ _ _ _)) (λ _.
        Yields-bind {R = λ _. Any} _ _ (any (mark_retry_attempted _))
          (λ _. Yields-pure _ (λ _ _. refl))))
      (λ _. fail_release-Released r _)

for_release-Released : (r : Release) → Yields Any Released (for_release r)
unfolding for_release exhaust_release
for_release-Released r =
    Yields-if (ltb r.schedule.max_attempts r.schedule.attempt_number) _ _
      (λ _.
        Yields-if (transition_allowed r.job.state JobState.failed) _ _
          (λ _. Yields-bind {R = λ _. Any} _ _ (any (mark_retry_exhausted _ _)) (λ _.
            Yields-bind {R = λ _. Any} _ _ (any (move _ _ _ _)) (λ _.
              Yields-bind {R = λ _. Any} _ _ (any (enqueue_job_failed _ _ _ _ _ _ _))
                (λ _. Yields-pure _ (λ _ _. refl)))))
          (λ _. fail_release-Released r _))
      (λ _. release-Released r _)

pub due_job-Released :
    (id : ℕ) (row : Schedule) (correlation instant : ℕ) (o : Option Job)
    → Yields Any Released (due_job id row correlation instant o)
due_job-Released id row correlation instant none =
    Yields-bind {R = λ _. Any} _ _ (record { at = λ _ _ _ _. tt })
      (λ _. Yields-pure _ (λ _ _. refl))
due_job-Released id row correlation instant (some job) = for_release-Released _
