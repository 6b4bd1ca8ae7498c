-- ===== src/Delivery/Keeps/Answers.antt =====
-- What deliver_one of app/delivery/service.py answers of the state of the job.
use stream_lite.Base.{ℕ, ◌≡◌, refl, sym, ap, subst, true, Option, none, some, List, [], ◌∷◌}
use stream_lite.Base.Text.{Text, Casing}
use stream_lite.Base.Table.{get}
use stream_lite.Base.Exec.{Result, ok, err, Exec}
use stream_lite.Base.Exec.Yields.{
  Leads-Yields, Yields, Yields-if, Yields-pure, Yields-bind, Yields-lift-bind, Yields-finally,
}
use stream_lite.Base.Exec.Off.{Off, Off-caught}
use stream_lite.Jobs.{JobState, state_eq, state_eq→eq, transition_allowed}
use stream_lite.Store.Rows.{OutputManifestRow}
use stream_lite.Store.Model.{Job, Db}
use stream_lite.Store.Jobs.{move}
use stream_lite.Store.Audit.{state_of}
use stream_lite.Store.Core.{core, generate_uuid-Off, claim_stage-Off, release_stage-Off}
use stream_lite.Store.Stable.{
  Holding, Standing, core-records, Holding-Off, Standing-Off, move_on-Leads,
}
use stream_lite.Store.Told.{
  Anything, Anything-Stable, Tells, Standing-Tells, Holding-Tells, Tells-Off,
}
use stream_lite.Routing.Delivery.{Target}
use stream_lite.Delivery.{
  Manifest, Files, Readings, WorkerResult, is_deliverable_state, by_delivery,
}
use stream_lite.Delivery.Outcome.{Final, final_state_from_outcomes}
use stream_lite.Delivery.Targets.{Work, Tally, no_tally}
use stream_lite.Delivery.Worker.{
  fail_without_delivery_targets, finish_completed, finish_job, finalize, deliver_claimed,
  with_claim, deliver_to,
}
use stream_lite.Delivery.Run.{with_outputs, with_file, with_manifest, for_job, deliver_one, work}
use stream_lite.Delivery.Keeps.{
  record_manifest-Off, tell_completed-Off, deliver_targets-Off, deliverable-fine, Follows,
  final_state-Follows,
}
use stream_lite.Delivery.Keeps.Worker.{first_move}
use stream_lite.Delivery.Keeps.Run.{latest_processed_manifest-Off, resolve_targets-Off}

abbrev Named : ℕ → WorkerResult → Db → Type 0
Named j answer = Tells j answer.final_state

module _ (w : Work) (files : Files) (clock : Readings) where
  abbrev In : JobState → Db → Type 0
  In s = Standing Anything w.job_id s

  abbrev Ready : Db → Type 0
  Ready = Holding Anything w.job_id w.job

  staying : {A : Type 0} (s : JobState) (m : Exec Db A) → Off core m → Yields (In s) (λ _. In s) m
  staying s m h = Leads-Yields m (Standing-Off Anything-Stable w.job_id s m (core-records m h))

  moving :
      (old : JobState) (e : Option Text) (a : Option ℕ) (new : JobState) (reason : Text)
      (correlation at : ℕ)
      → transition_allowed old new ≡ true
      → Yields
          (In old)
          (λ _. In new)
          (move w.job_id e a (by_delivery old new reason correlation at))
  moving old e a new reason correlation at fine = Leads-Yields _ (
      move_on-Leads Anything-Stable w.job_id old e a (by_delivery old new reason correlation at)
        refl refl fine)

  fail_without_delivery_targets-Named :
      transition_allowed w.job.state JobState.failed ≡ true
      → Yields Ready (Named w.job_id) (fail_without_delivery_targets files clock w)
  unfolding fail_without_delivery_targets
  fail_without_delivery_targets-Named fine =
      Yields-bind {R = λ _. In JobState.failed} _ _
        (Leads-Yields _ (first_move Anything-Stable w _ _ JobState.failed _ _ _ fine))
        (λ _. Yields-bind {R = λ _. In JobState.failed} _ _ (staying _ _ generate_uuid-Off) (λ id.
          Yields-bind {R = λ _. In JobState.failed} _ _
            (staying _ _ (record_manifest-Off files _ [] _ _))
            (λ _. Yields-pure _ (Standing-Tells w.job_id _))))

  finish_job-In :
      (at : ℕ) (final : Final) (t : Tally)
      → Follows final
      → Yields (In JobState.delivering) (λ _. In final.state) (finish_job at w final t)
  unfolding finish_job Follows transition_allowed
  finish_job-In at final t follows =
      Yields-if (state_eq final.state JobState.completed) _ _
        (λ same.
          subst (λ s. Yields (In JobState.delivering) (λ _. In s) (finish_completed at w))
            (sym (state_eq→eq final.state JobState.completed same)) completed)
        (λ other.
          Yields-bind {R = λ _. In final.state} _ _ (moving _ _ _ final.state _ _ _ (follows other))
            (λ _. Yields-pure tt (λ db h. h)))
    where
      completed :
          Yields (In JobState.delivering) (λ _. In JobState.completed) (finish_completed at w)
      completed =
          Yields-bind {R = λ _. In JobState.delivered} _ _
            (moving _ _ _ JobState.delivered _ _ _ refl)
            (λ _.
              Yields-bind {R = λ _. In JobState.completed} _ _
                (moving _ _ _ JobState.completed _ _ _ refl) (λ _. Yields-pure tt (λ db h. h)))

  finalize-Named :
      (final : Final) (t : Tally)
      → Follows final
      → Yields (In JobState.delivering) (Named w.job_id) (finalize files clock w final t)
  unfolding finalize
  finalize-Named final t follows =
      Yields-bind {R = λ _. In final.state} _ _ (finish_job-In clock.finalized_at final t follows)
        (λ _.
          Yields-bind {R = λ _. In final.state} _ _
            (staying _ _ (record_manifest-Off files w _ _ _))
            (λ _.
              Yields-bind {R = λ _. In final.state} _ _
                (staying _ _ (tell_completed-Off _ w final t))
                (λ _. Yields-pure _ (Standing-Tells w.job_id _))))

  deliver_claimed-Named :
      (max : ℕ) (source : Text) (targets : List Target)
      → transition_allowed w.job.state JobState.delivering ≡ true
      → Yields Ready (Named w.job_id) (deliver_claimed files max clock w source targets)
  unfolding deliver_claimed
  deliver_claimed-Named max source targets fine =
      Yields-bind {R = λ _. In JobState.delivering} _ _
        (Leads-Yields _ (first_move Anything-Stable w _ _ JobState.delivering _ _ _ fine))
        (λ _.
          Yields-bind {R = λ _. In JobState.delivering} _ _
            (staying _ _ (deliver_targets-Off files w source _ _ targets no_tally))
            (λ t.
              Yields-lift-bind
                (final_state_from_outcomes max w.attempt_number t.destination_outcomes) _
                (λ final e.
                  finalize-Named final t
                    (final_state-Follows max w.attempt_number t.destination_outcomes final e))))

  with_claim-Named :
      (max : ℕ) (source : Text) (targets : List Target) (r : Result ℕ)
      → transition_allowed w.job.state JobState.delivering ≡ true
      → Yields Ready (Named w.job_id) (with_claim files max clock w source targets r)
  with_claim-Named max source targets (err e) fine = Yields-pure _ (Holding-Tells w.job_id w.job)
  with_claim-Named max source targets (ok id) fine =
      Yields-finally _ _ (deliver_claimed-Named max source targets fine) (λ answer.
        Tells-Off w.job_id answer.final_state _ (release_stage-Off id (some clock.released_at)))

deliver_to-Named :
    (files : Files) (max : ℕ) (clock : Readings) (w : Work) (source : Text) (targets : List Target)
    → is_deliverable_state w.job.state w.job.attempt_number ≡ true
    → Yields
        (Holding Anything w.job_id w.job)
        (Named w.job_id)
        (deliver_to files max clock w source targets)
unfolding deliver_to
deliver_to-Named files max clock w source [] fine =
    fail_without_delivery_targets-Named w files clock (deliverable-fine _ _ fine).1
deliver_to-Named files max clock w source (target ∷ targets) fine =
    Yields-bind {R = λ _. Holding Anything w.job_id w.job} _ _
      (Leads-Yields _ (Holding-Off Anything-Stable _ _ _ (core-records _ generate_uuid-Off)))
      (λ id.
        Yields-bind {R = λ _. Holding Anything w.job_id w.job} _ _
          (Leads-Yields _
            (Holding-Off Anything-Stable _ _ _ (Off-caught _ (claim_stage-Off _ _ _ _ _ _))))
          (λ r.
            with_claim-Named (record w { final_output_manifest_id = id }) files clock max source
              (target ∷ targets) r (deliverable-fine _ _ fine).0))

module _ (k : Casing) (files : Files) (max : ℕ) (clock : Readings) (j : ℕ)
    (correlation : Option ℕ) where
  module _ (job : Job) (fine : is_deliverable_state job.state job.attempt_number ≡ true) where
    with_outputs-Named :
        (row : OutputManifestRow) (manifest : Manifest) (outputs : List Text)
        → Yields
            (Holding Anything j job)
            (Named j)
            (with_outputs k files max clock j correlation job row manifest outputs)
    with_outputs-Named row manifest [] = Yields-pure _ (Holding-Tells j job)
    with_outputs-Named row manifest (source ∷ others) =
        Yields-bind {R = λ _. Holding Anything j job} _ _
          (Leads-Yields _
            (Holding-Off Anything-Stable j job _ (core-records _ (resolve_targets-Off k _ _))))
          (λ targets.
            deliver_to-Named files max clock (work k files max clock j correlation job row manifest)
              source targets fine)

    with_file-Named :
        (row : OutputManifestRow) (file : Option Manifest)
        → Yields
            (Holding Anything j job)
            (Named j)
            (with_file k files max clock j correlation job row file)
    with_file-Named row none = Yields-pure _ (Holding-Tells j job)
    with_file-Named row (some manifest) = with_outputs-Named row manifest _

    with_manifest-Named :
        (found : Option (ℕ × OutputManifestRow))
        → Yields
            (Holding Anything j job)
            (Named j)
            (with_manifest k files max clock j correlation job found)
    with_manifest-Named none = Yields-pure _ (Holding-Tells j job)
    with_manifest-Named (some (id, row)) = with_file-Named row _

  -- The final state that the delivery worker answers, whether its targets were delivered or not or
  -- the job was skipped, is the state that the job's row has then; none is answered where the job
  -- does not exist.
  pub deliver_one-tells :
      (db : Db) (answer : WorkerResult)
      → (deliver_one k files max clock j correlation db).0 ≡ ok answer
      → answer.final_state
        ≡ state_of (get j (deliver_one k files max clock j correlation db).1.jobs)
  unfolding deliver_one
  deliver_one-tells db answer = from (get j db.jobs) refl
    where
      from :
          (o : Option Job)
          → get j db.jobs ≡ o
          → (for_job k files max clock j correlation o db).0 ≡ ok answer
          → Tells j answer.final_state (for_job k files max clock j correlation o db).1
      from none e h =
          (Yields-pure {P = λ db. get j db.jobs ≡ none} {Q = Named j} _
              (λ db e. ap state_of (sym e))).at
            db e answer h
      from (some job) e h =
          (Yields-if {P = Holding Anything j job} {Q = Named j}
              (is_deliverable_state job.state job.attempt_number) _ _
              (λ fine.
                Yields-bind {R = λ _. Holding Anything j job} _ _
                  (Leads-Yields _ (
                    Holding-Off Anything-Stable j job _
                      (core-records _ (latest_processed_manifest-Off j))))
                  (with_manifest-Named job fine))
              (λ _. Yields-pure _ (Holding-Tells j job))).at
            db (record { kept = tt; found = e }) answer h
