-- ===== src/Processing/Worker/Answers.antt =====
-- What process_one of app/processing/engine.py answers of the state of the job.
use stream_lite.Base.{ℕ, ◌≡◌, refl, sym, ap, true, Option, none, some}
use stream_lite.Base.Exec.{Result, ok, err, Exec}
use stream_lite.Base.Exec.Off.{Off, Off-caught}
use stream_lite.Base.Exec.Yields.{
  Leads-Yields, Yields, Yields-if, Yields-pure, Yields-bind, Yields-finally,
}
use stream_lite.Base.Table.{get}
use stream_lite.Base.Text.{Text}
use stream_lite.Jobs.{JobState, transition_allowed}
use stream_lite.Processing.{
  AdapterResult, Adapter, Readings, ExecutionResult, by_processor, is_processable_state,
}
use stream_lite.Processing.Worker.{
  Work, Artifacts, artifacts_of, complete_with, complete_success, fail_to, complete, run_claimed,
  with_claim, claim_and_run, is_confirmed, for_job, process_one,
}
use stream_lite.Processing.Worker.Keeps.{
  processable-fine, next-fine, attempt_run-Leads, fail_attempt-Off,
}
use stream_lite.Store.Audit.{state_of}
use stream_lite.Store.Core.{
  core, enqueue_event-Off, complete_processing_attempt-Off, create_output_manifest-Off,
  get_latest_attempt-Off, claim_stage-Off, release_stage-Off,
}
use stream_lite.Store.Jobs.{move}
use stream_lite.Store.Model.{Job, Db}
use stream_lite.Store.Stable.{
  Holding, Standing, core-records, Holding-Off, Standing-Off, move_on-Leads,
}
use stream_lite.Store.Told.{
  Anything, Anything-Stable, Tells, Standing-Tells, Holding-Tells, Tells-Off,
}

abbrev Named : ℕ → ExecutionResult → Db → Type 0
Named j answer = Tells j answer.final_state

module _ (w : Work) where
  abbrev In : JobState → Db → Type 0
  In s = Standing Anything w.job_id s

  staying : {A : Type 0} (s : JobState) (m : Exec Db A) → Off core m → Yields (In s) (λ _. In s) m
  staying s m h = Leads-Yields m (Standing-Off Anything-Stable w.job_id s m (core-records m h))

  moving :
      (e : Option Text) (a : Option ℕ) (new : JobState) (reason : Text) (correlation at : ℕ)
      → transition_allowed JobState.processing new ≡ true
      → Yields
          (In JobState.processing)
          (λ _. In new)
          (move w.job_id e a (by_processor JobState.processing new reason correlation at))
  moving e a new reason correlation at fine = Leads-Yields _ (
      move_on-Leads Anything-Stable w.job_id JobState.processing e a
        (by_processor JobState.processing new reason correlation at) refl refl fine)

  complete_with-Named :
      (answer : AdapterResult) (a : Artifacts)
      → Yields (In JobState.processing) (Named w.job_id) (complete_with w answer a)
  unfolding complete_with transition_allowed
  complete_with-Named answer a =
      Yields-bind {R = λ _. In JobState.processing} _ _
        (staying _ _ (create_output_manifest-Off _ _))
        (λ _.
          Yields-bind {R = λ _. In JobState.processing} _ _
            (staying _ _ (complete_processing_attempt-Off _ _))
            (λ _.
              Yields-bind {R = λ _. In JobState.processed} _ _
                (moving _ _ JobState.processed _ _ _ refl)
                (λ _.
                  Yields-bind {R = λ _. In JobState.processed} _ _
                    (staying _ _ (enqueue_event-Off _))
                    (λ _. Yields-pure _ (Standing-Tells w.job_id _)))))

  fail_to-Named :
      (next : JobState) (o : Option ℕ) (answer : AdapterResult)
      → transition_allowed JobState.processing next ≡ true
      → Yields (In JobState.processing) (Named w.job_id) (fail_to next w o answer)
  unfolding fail_to
  fail_to-Named next o answer fine =
      Yields-bind {R = λ _. In JobState.processing} _ _
        (staying _ _ (fail_attempt-Off Anything-Stable w o _ answer))
        (λ _. Yields-bind {R = λ _. In next} _ _ (moving _ _ next _ _ _ fine) (λ _.
          Yields-bind {R = λ _. In next} _ _ (staying _ _ (enqueue_event-Off _))
            (λ _. Yields-pure _ (Standing-Tells w.job_id _))))

  complete-Named :
      (max : ℕ) (o : Option ℕ) (answer : AdapterResult)
      → Yields (In JobState.processing) (Named w.job_id) (complete max w (o, answer))
  unfolding complete
  complete-Named max o answer =
      Yields-if answer.is_processed _ _ (λ _. success (artifacts_of o answer))
        (λ _. fail_to-Named _ o answer (next-fine max answer.retryable w.attempt_number))
    where
      success :
          (a : Option Artifacts)
          → Yields (In JobState.processing) (Named w.job_id) (complete_success w answer a)
      success none = record { at = λ db p a e. cc }
      success (some a) = complete_with-Named answer a

  module _ (adapter : Adapter) (max : ℕ) (clock : Readings)
      (fine : transition_allowed w.job.state JobState.processing ≡ true) where
    run_claimed-Named :
        (id : ℕ)
        → Yields
            (Holding Anything w.job_id w.job)
            (Named w.job_id)
            (run_claimed adapter max clock w id)
    unfolding run_claimed
    run_claimed-Named id =
        Yields-bind {R = λ _. In JobState.processing} _ _
          (Leads-Yields _ (attempt_run-Leads Anything-Stable w adapter clock fine))
          (λ ended. Yields-finally _ _ (complete-Named max ended.0 ended.1) (λ answer.
            Tells-Off w.job_id answer.final_state _
              (release_stage-Off id (some clock.released_at))))

    claim_and_run-Named :
        Yields
          (Holding Anything w.job_id w.job)
          (Named w.job_id)
          (claim_and_run adapter max clock w)
    unfolding claim_and_run
    claim_and_run-Named =
        Yields-bind {R = λ _. Holding Anything w.job_id w.job} _ _
          (Leads-Yields _
            (Holding-Off Anything-Stable _ _ _ (Off-caught _ (claim_stage-Off _ _ _ _ _ _))))
          claimed
      where
        claimed :
            (r : Result ℕ)
            → Yields
                (Holding Anything w.job_id w.job)
                (Named w.job_id)
                (with_claim adapter max clock w r)
        claimed (ok id) = run_claimed-Named id
        claimed (err e) = Yields-pure _ (Holding-Tells w.job_id w.job)

-- The final state that the processing worker answers, whether the job was processed, failed, put
-- back for a retry or skipped, is the state that the job's row has then; none is answered where the
-- job does not exist.
pub process_one-tells :
    (adapter : Adapter) (max : ℕ) (clock : Readings) (j : ℕ) (correlation : Option ℕ) (db : Db)
    (answer : ExecutionResult)
    → (process_one adapter max clock j correlation db).0 ≡ ok answer
    → answer.final_state ≡ state_of (get j (process_one adapter max clock j correlation db).1.jobs)
unfolding process_one
process_one-tells adapter max clock j correlation db answer = from (get j db.jobs) refl
  where
    from :
        (o : Option Job)
        → get j db.jobs ≡ o
        → (for_job adapter max clock j correlation o db).0 ≡ ok answer
        → Tells j answer.final_state (for_job adapter max clock j correlation o db).1
    from none e h =
        (Yields-pure {P = λ db. get j db.jobs ≡ none} {Q = Named j} _
            (λ db e. ap state_of (sym e))).at
          db e answer h
    from (some job) e h =
        (Yields-if {P = Holding Anything j job} {Q = Named j}
            (is_processable_state job.state job.attempt_number) _ _
            (λ fine.
              Yields-bind {R = λ _. Holding Anything j job} _ _
                (Leads-Yields _
                  (Holding-Off Anything-Stable j job _ (core-records _ (get_latest_attempt-Off j))))
                (λ latest.
                  Yields-if (is_confirmed latest) _ _
                    (λ _.
                      claim_and_run-Named _ adapter max clock
                        (processable-fine job.state job.attempt_number fine))
                    (λ _. Yields-pure _ (Holding-Tells j job))))
            (λ _. Yields-pure _ (Holding-Tells j job))).at
          db (record { kept = tt; found = e }) answer h
