-- ===== src/Retry/Scheduler/RoundTrip/Release.antt =====
-- A waiting schedule, and its release by process_due_retry of app/retry/scheduler.py.
use stream_lite.Base.{
  ℕ, ◌≤◌, ◌≡◌, refl, subst, true, false, Option, none, some, some-injective, ltb, arith,
}
use stream_lite.Base.Table.{get, get-put_self}
use stream_lite.Base.Exec.{ok}
use stream_lite.Jobs.{state_eq_refl, JobState, state_eq, transition_allowed}
use stream_lite.Store.Model.{Job, Schedule, Stage, Db}
use stream_lite.Store.Jobs.{moved, Transition, move-accepted, or_old}
use stream_lite.Store.Retry.{mark_retry_attempted, is_scheduled}
use stream_lite.Retry.Scheduler.{Status, by_scheduler, retry_target_state, reason_retry_due}
use stream_lite.Retry.Scheduler.Due.{release, for_release, due_result, process_due_retry}

-- A schedule that waits for its time, and its job.
pub record Waiting (id due : ℕ) (db : Db) : Type 0 where
  pub row : Schedule
  pub job : Job
  pub target : JobState
  pub found : get id db.schedules ≡ some row
  pub status : is_scheduled row.status ≡ true
  pub on_time : row.due_at ≡ due
  pub within : ltb row.max_attempts row.attempt_number ≡ false
  pub goal : retry_target_state row.next_stage ≡ some target
  pub held : get row.job_id db.jobs ≡ some job
  pub pending : job.state ≡ JobState.retry_pending

target_allowed :
    (s : Stage) (t : JobState)
    → retry_target_state s ≡ some t
    → transition_allowed JobState.retry_pending t ≡ true
unfolding retry_target_state transition_allowed
target_allowed Stage.validation t e =
    subst (λ x. transition_allowed JobState.retry_pending x ≡ true)
      (some-injective JobState.validating t e) refl
target_allowed Stage.processing t e =
    subst (λ x. transition_allowed JobState.retry_pending x ≡ true)
      (some-injective JobState.processing t e) refl
target_allowed Stage.delivery t e =
    subst (λ x. transition_allowed JobState.retry_pending x ≡ true)
      (some-injective JobState.delivering t e) refl
target_allowed Stage.routing t e = cc
target_allowed Stage.event t e = cc

-- What a release leaves of the job.
pub record Back (job_id attempt : ℕ) (target : JobState) (db : Db) : Type 0 where
  pub job : Job
  pub held : get job_id db.jobs ≡ some job
  pub state : job.state ≡ target
  pub attempt_number : job.attempt_number ≡ attempt

module _ (id due t : ℕ) (c : Option ℕ) (db : Db) (w : Waiting id due db) where
  abbrev back : Transition
  back = by_scheduler w.job.state w.target reason_retry_due (or_old c w.row.correlation_id) t

  allowed_back : transition_allowed w.job.state w.target ≡ true
  allowed_back = rw w.pending (target_allowed w.row.next_stage w.target w.goal)

  in_retry : state_eq w.job.state JobState.retry_pending ≡ true
  in_retry = rw w.pending (state_eq_refl JobState.retry_pending)

  in_time : due ≤ t → ltb t w.row.due_at ≡ false
  in_time late = rw w.on_time (ground arith)

  pub release_waiting :
      due ≤ t
      → let (result, after) = process_due_retry id c t db in
        (result ≡ ok (due_result w.row Status.attempted reason_retry_due (some w.target)))
        × Back w.row.job_id w.row.attempt_number w.target after
  unfolding process_due_retry for_release release mark_retry_attempted
  release_waiting late =
      rw (w.found, w.status, in_time late, w.held, w.within, w.goal, in_retry, allowed_back)
        (rw
          (move-accepted w.row.job_id none (some w.row.attempt_number) db w.held back allowed_back)
          (rw w.found (
            refl,
            record {
              job = moved w.target none (some w.row.attempt_number) db.now w.job;
              held =
                  get-put_self w.row.job_id
                    (moved w.target none (some w.row.attempt_number) db.now w.job) db.jobs;
              state = unfold moved in refl;
              attempt_number = unfold moved in refl;
            },
          )))
