-- ===== src/Delivery/Keeps/Worker.antt =====
-- What deliver_one of app/delivery/service.py keeps: the moves of a job that is delivered.
use stream_lite.Base.{ℕ, ◌≡◌, refl, true, Option, some, List, [], ◌∷◌}
use stream_lite.Base.Text.{Text}
use stream_lite.Base.Exec.{Result, ok, err, Exec}
use stream_lite.Base.Exec.Leads.{
  Leads, Leads-if, Leads-pure, Leads-lift, Leads-bind, Leads-caught, Leads-lift-bind,
}
use stream_lite.Base.Exec.Off.{Off, Off-caught}
use stream_lite.Jobs.{JobState, state_eq, transition_allowed}
use stream_lite.Store.Model.{Db}
use stream_lite.Store.Jobs.{move}
use stream_lite.Store.Core.{core, generate_uuid-Off, claim_stage-Off, release_stage-Off}
use stream_lite.Store.Stable.{
  Stable, Holding, Standing, core-records, Stable-Off, Holding-Off, Standing-Off, move-Standing,
  move_on-Leads,
}
use stream_lite.Routing.Delivery.{Target}
use stream_lite.Delivery.{Files, Readings, is_deliverable_state, by_delivery}
use stream_lite.Delivery.Outcome.{Final, final_state_from_outcomes}
use stream_lite.Delivery.Targets.{Work, Tally, no_tally}
use stream_lite.Delivery.Worker.{
  fail_without_delivery_targets, finish_completed, finish_job, finalize, deliver_claimed,
  with_claim, deliver_to,
}
use stream_lite.Delivery.Keeps.{
  record_manifest-Off, tell_completed-Off, deliver_targets-Off, deliverable-fine, Follows,
  final_state-Follows,
}

module _ {P : Db → Type 0} (stable : Stable P) where
  keep : (db : Db) → P db → P db
  keep db h = h

  on_kept : {A : Type 0} (m : Exec Db A) → Off core m → Leads P P m
  on_kept m h = Stable-Off stable m (core-records m h)

  module _ (w : Work) where
    abbrev Ready : Db → Type 0
    Ready = Holding P w.job_id w.job

    abbrev In : JobState → Db → Type 0
    In state = Standing P w.job_id state

    Ready-P : (db : Db) → Ready db → P db
    Ready-P db h = h.kept

    In-P : (state : JobState) (db : Db) → In state db → P db
    In-P state db h = h.kept

    staying :
        {A : Type 0} (state : JobState) (m : Exec Db A) → Off core m → Leads (In state) (In state) m
    staying state m h = Standing-Off stable w.job_id state m (core-records m h)

    -- The first move of the job, and a later one.
    pub first_move :
        (e : Option Text) (a : Option ℕ) (new : JobState) (reason : Text) (correlation at : ℕ)
        → transition_allowed w.job.state new ≡ true
        → Leads Ready
            (In new)
            (move w.job_id e a (by_delivery w.job.state new reason correlation at))
    first_move e a new reason correlation at fine = record {
      at = λ db h.
          move-Standing stable db w.job_id w.job e a _
            (record { found = h.found; previous = refl; numbered = refl; fine = fine }) h.kept;
    }

    move_on :
        (old : JobState) (e : Option Text) (a : Option ℕ) (new : JobState) (reason : Text)
        (correlation at : ℕ)
        → transition_allowed old new ≡ true
        → Leads (In old) (In new) (move w.job_id e a (by_delivery old new reason correlation at))
    move_on old e a new reason correlation at =
        move_on-Leads stable w.job_id old e a (by_delivery old new reason correlation at) refl refl

    fail_without_delivery_targets-Leads :
        (files : Files) (clock : Readings)
        → transition_allowed w.job.state JobState.failed ≡ true
        → Leads Ready P (fail_without_delivery_targets files clock w)
    unfolding fail_without_delivery_targets
    fail_without_delivery_targets-Leads files clock fine =
        Leads-bind {R = In JobState.failed} (In-P _) _ _ (first_move _ _ JobState.failed _ _ _ fine)
          (λ _.
            Leads-bind {R = In JobState.failed} (In-P _) _ _ (staying _ _ generate_uuid-Off) (λ id.
              Leads-bind {R = In JobState.failed} (In-P _) _ _
                (staying _ _ (record_manifest-Off files _ [] _ _)) (λ _. Leads-pure (In-P _) _)))

    abbrev Delivering : Db → Type 0
    Delivering = In JobState.delivering

    finish_completed-Leads : (at : ℕ) → Leads Delivering P (finish_completed at w)
    unfolding transition_allowed
    finish_completed-Leads at =
        Leads-bind {R = In JobState.delivered} (In-P _) _ _
          (move_on _ _ _ JobState.delivered _ _ _ refl)
          (λ _.
            Leads-bind {R = In JobState.completed} (In-P _) _ _
              (move_on _ _ _ JobState.completed _ _ _ refl) (λ _. Leads-pure (In-P _) tt))

    finish_job-Leads :
        (at : ℕ) (final : Final) (t : Tally)
        → Follows final
        → Leads Delivering P (finish_job at w final t)
    unfolding finish_job Follows
    finish_job-Leads at final t follows =
        Leads-if (state_eq final.state JobState.completed) _ _ (λ _. finish_completed-Leads at)
          (λ other.
            Leads-bind {R = In final.state} (In-P _) _ _
              (move_on _ _ _ final.state _ _ _ (follows other)) (λ _. Leads-pure (In-P _) tt))

    finalize-Leads :
        (files : Files) (clock : Readings) (final : Final) (t : Tally)
        → Follows final
        → Leads Delivering P (finalize files clock w final t)
    unfolding finalize
    finalize-Leads files clock final t follows =
        Leads-bind keep _ _ (finish_job-Leads clock.finalized_at final t follows) (λ _.
          Leads-bind keep _ _ (on_kept _ (record_manifest-Off files w _ _ _)) (λ _.
            Leads-bind keep _ _ (on_kept _ (tell_completed-Off _ w final t))
              (λ _. Leads-pure keep _)))

    deliver_claimed-Leads :
        (files : Files) (max : ℕ) (clock : Readings) (source : Text) (targets : List Target)
        → transition_allowed w.job.state JobState.delivering ≡ true
        → Leads Ready P (deliver_claimed files max clock w source targets)
    unfolding deliver_claimed
    deliver_claimed-Leads files max clock source targets fine =
        Leads-bind {R = Delivering} (In-P _) _ _ (first_move _ _ JobState.delivering _ _ _ fine)
          (λ _.
            Leads-bind {R = Delivering} (In-P _) _ _
              (staying _ _ (deliver_targets-Off files w source _ _ targets no_tally))
              (λ t.
                Leads-lift-bind {R = Delivering} {Q = P} (In-P _)
                  (final_state_from_outcomes max w.attempt_number t.destination_outcomes) _
                  (λ final e.
                    finalize-Leads files clock final t
                      (final_state-Follows max w.attempt_number t.destination_outcomes final e))))

    with_claim-Leads :
        (files : Files) (max : ℕ) (clock : Readings) (source : Text) (targets : List Target)
        (r : Result ℕ)
        → transition_allowed w.job.state JobState.delivering ≡ true
        → Leads Ready P (with_claim files max clock w source targets r)
    with_claim-Leads files max clock source targets (err e) fine = Leads-pure Ready-P _
    with_claim-Leads files max clock source targets (ok id) fine =
        Leads-bind keep _ _
          (Leads-caught _ (deliver_claimed-Leads files max clock source targets fine))
          (λ outcome.
            Leads-bind keep _ _
              (Stable-Off stable _ (release_stage-Off id (some clock.released_at)))
              (λ _. Leads-lift keep outcome))

  pub deliver_to-Leads :
      (files : Files) (max : ℕ) (clock : Readings) (w : Work) (source : Text)
      (targets : List Target)
      → is_deliverable_state w.job.state w.job.attempt_number ≡ true
      → Leads (Holding P w.job_id w.job) P (deliver_to files max clock w source targets)
  unfolding deliver_to
  deliver_to-Leads files max clock w source [] fine =
      fail_without_delivery_targets-Leads w files clock (deliverable-fine _ _ fine).1
  deliver_to-Leads files max clock w source (target ∷ targets) fine =
      Leads-bind {R = Ready w} (Ready-P w) _ _
        (Holding-Off stable _ _ _ (core-records _ generate_uuid-Off))
        (λ id.
          Leads-bind {R = Ready w} (Ready-P w) _ _
            (Holding-Off stable _ _ _ (Off-caught _ (claim_stage-Off _ _ _ _ _ _)))
            (λ r.
              with_claim-Leads (record w { final_output_manifest_id = id }) files max clock source
                (target ∷ targets) r (deliverable-fine _ _ fine).0))
