-- ===== src/Retry/Scheduler/Answers/Due.antt =====
-- What process_due_retry of app/retry/scheduler.py answers of the job's state.
use stream_lite.Retry.Scheduler.Tells.{enqueue_job_failed-Leads}
use stream_lite.Base.{
  ◌∙◌, sym, not, subst, some-injective, refl, ℕ, ◌≡◌, ◌&&◌, Option, none, some, ltb, &&-true,
}
use stream_lite.Base.Text.{Text}
use stream_lite.Base.Table.{get}
use stream_lite.Base.Exec.{ok}
use stream_lite.Base.Exec.Yields.{Leads-Yields, Yields, Yields-if, Yields-pure, Yields-bind}
use stream_lite.Jobs.{JobState, state_eq, transition_allowed}
use stream_lite.Store.Model.{Job, Schedule, Db}
use stream_lite.Store.Retry.{
  mark_row-jobs, mark_retry_attempted, mark_retry_failed, mark_retry_exhausted,
}
use stream_lite.Retry.Scheduler.{RetryDueResult}
use stream_lite.Store.Retry.{is_scheduled}
use stream_lite.Retry.Scheduler.Due.{
  process_due_retry, due_schedule, Release, fail_release, exhaust_release, release, for_release,
  due_job,
}
use stream_lite.Retry.Scheduler.Answers.{
  JobIs, Says, say, nothing, same_jobs, move-JobIs, JobIs-off,
}

-- The answer about job `j`.
abbrev Named : ℕ → RetryDueResult → Db → Type 0
Named j r db = (r.job_id ≡ some j) × Says j r.final_state db

abbrev Holding : ℕ → Job → Db → Type 0
Holding j job db = get j db.jobs ≡ some job

module _ (r : Release) where
  abbrev j : ℕ
  j = r.schedule.job_id

  mark_retry_failed-JobIs :
      (s : JobState) (e : Option Text)
      → Yields (JobIs j s) (λ _. JobIs j s) (mark_retry_failed r.schedule_id e)
  unfolding mark_retry_failed
  mark_retry_failed-JobIs s e = record {
    at = λ db h _ _.
        same_jobs h _ (mark_row-jobs r.schedule_id _ (get r.schedule_id db.schedules) db);
  }

  mark_retry_attempted-JobIs :
      (s : JobState) → Yields (JobIs j s) (λ _. JobIs j s) (mark_retry_attempted r.schedule_id)
  unfolding mark_retry_attempted
  mark_retry_attempted-JobIs s = record {
    at = λ db h _ _.
        same_jobs h _ (mark_row-jobs r.schedule_id _ (get r.schedule_id db.schedules) db);
  }

  mark_retry_exhausted-Holding :
      (e : Option Text)
      → Yields (Holding j r.job) (λ _. Holding j r.job) (mark_retry_exhausted r.schedule_id e)
  unfolding mark_retry_exhausted
  mark_retry_exhausted-Holding e = record {
    at = λ db h _ _. rw (mark_row-jobs r.schedule_id _ (get r.schedule_id db.schedules) db) h;
  }

  fail_release-Named : (reason : Text) → Yields (Holding j r.job) (Named j) (fail_release r reason)
  fail_release-Named reason =
      Yields-bind {R = λ _. JobIs j r.job.state} _ _
        (record {
          at = λ db h a e.
              (mark_retry_failed-JobIs r.job.state _).at db
                (record { job = r.job; held = h; state = refl }) a e;
        })
        (λ _. Yields-pure _ (λ db h. (refl, say j r.job.state db h)))

  exhaust_release-Named : Yields (Holding j r.job) (Named j) (exhaust_release r)
  unfolding exhaust_release
  exhaust_release-Named =
      Yields-if (transition_allowed r.job.state JobState.failed) _ _
        (λ fine. Yields-bind {R = λ _. Holding j r.job} _ _ (mark_retry_exhausted-Holding _) (λ _.
          Yields-bind {R = λ _. JobIs j JobState.failed} _ _ (move-JobIs _ _ r.job _ _ _ fine refl)
            (λ _.
              Yields-bind {R = λ _. JobIs j JobState.failed} _ _
                (Leads-Yields _ (enqueue_job_failed-Leads _ (JobIs-off _ _) _ _ _ _ _ _ _))
                (λ _. Yields-pure _ (λ db h. (refl, say j JobState.failed db h))))))
        (λ _. fail_release-Named _)

  release-Named : (o : Option JobState) → Yields (Holding j r.job) (Named j) (release r o)
  unfolding release
  release-Named none = fail_release-Named _
  release-Named (some target) =
      Yields-if
        (state_eq r.job.state JobState.retry_pending && transition_allowed r.job.state target) _ _
        (λ fine.
          Yields-bind {R = λ _. JobIs j target} _ _
            (move-JobIs _ _ r.job _ _ _
              (&&-true (state_eq r.job.state JobState.retry_pending)
                (transition_allowed r.job.state target) fine).1
              refl)
            (λ _.
              Yields-bind {R = λ _. JobIs j target} _ _ (mark_retry_attempted-JobIs target)
                (λ _. Yields-pure _ (λ db h. (refl, say j target db h)))))
        (λ _. fail_release-Named _)

  for_release-Named : Yields (Holding j r.job) (Named j) (for_release r)
  unfolding for_release
  for_release-Named =
      Yields-if (ltb r.schedule.max_attempts r.schedule.attempt_number) _ _
        (λ _. exhaust_release-Named) (λ _. release-Named _)

due_job-Named :
    (id : ℕ) (row : Schedule) (correlation instant : ℕ) (o : Option Job) (db : Db)
    → get row.job_id db.jobs ≡ o
    → (r : RetryDueResult) → (due_job id row correlation instant o db).0 ≡ ok r
    → Named row.job_id r (due_job id row correlation instant o db).1
due_job-Named id row correlation instant none db e =
    (Yields-bind {R = λ _ _. Unit} {Q = Named row.job_id} {P = λ _. Unit} (mark_retry_failed id _) _
        (record { at = λ _ _ _ _. tt })
        (λ _. Yields-pure _ (λ db _. (refl, nothing row.job_id db)))).at
      db tt
due_job-Named id row correlation instant (some job) db e = (for_release-Named _).at db e

-- For whichever job the answer names.
abbrev AnyNamed : RetryDueResult → Db → Type 0
AnyNamed r db = (i : ℕ) → r.job_id ≡ some i → Says i r.final_state db

Named-any : (j : ℕ) (r : RetryDueResult) (db : Db) → Named j r db → AnyNamed r db
Named-any j r db h i e = subst (λ x. Says x r.final_state db) (some-injective j i (sym h.0 ∙ e)) h.1

due_schedule-Named :
    (id : ℕ) (correlation : Option ℕ) (instant : ℕ) (o : Option Schedule)
    → Yields (λ _. Unit) AnyNamed (due_schedule id correlation instant o)
due_schedule-Named id correlation instant none = Yields-pure _ (λ db _ i _. nothing i db)
due_schedule-Named id correlation instant (some row) =
    Yields-if (not (is_scheduled row.status)) _ _ (λ _. Yields-pure _ (λ db _ i _. nothing i db))
      (λ _.
        Yields-if (ltb instant row.due_at) _ _ (λ _. Yields-pure _ (λ db _ i _. nothing i db))
          (λ _. record {
            at = λ db _ r e.
                Named-any row.job_id r _
                  (due_job-Named id row _ instant (get row.job_id db.jobs) db refl r e);
          }))

-- The final state that releasing a schedule answers, for the job that it names, is the state that
-- the row of that job has then.
pub process_due_retry-JobIs :
    (id : ℕ) (correlation : Option ℕ) (instant : ℕ) (db : Db) (r : RetryDueResult) (j : ℕ)
    (s : JobState)
    → (process_due_retry id correlation instant db).0 ≡ ok r
    → r.job_id ≡ some j
    → r.final_state ≡ some s
    → JobIs j s (process_due_retry id correlation instant db).1
unfolding process_due_retry
process_due_retry-JobIs id correlation instant db r j s e named final =
    (due_schedule-Named id correlation instant (get id db.schedules)).at db tt r e j named s final
