-- ===== src/Delivery/Keeps.antt =====
-- What the delivery worker of app/delivery/service.py keeps, however a run ends.
pub mod Worker
pub mod Run
pub mod Frees
pub mod Answers
pub mod Judged
pub mod Tallied
pub mod Outcomes
use stream_lite.Base.{
  ℕ, suc, ◌≡◌, refl, ap, sym, subst, Bool, true, false, ◌&&◌, ◌||◌, Option, none, some, List, [],
  ◌∷◌, ltb, arith, if◌then◌else◌,
}
use stream_lite.Base.Text.{Text, text, text_eq, Casing}
use stream_lite.Base.Table.{get}
use stream_lite.Base.Exec.{Result, ok, err, ok-injective, Exec, caught, lift, ◌>>=◌, ◌>>◌}
use stream_lite.Base.Exec.Leads.{
  Leads, Leads-if, Leads-pure, Leads-lift, Leads-bind, Leads-caught, Leads-lift-bind,
}
use stream_lite.Base.Exec.Off.{Off, Off-if, Off-pure, Off-lift, Off-bind, Off-caught}
use stream_lite.Jobs.{JobState, state_eq, transition_allowed}
use stream_lite.Store.Rows.{DestinationOutcome, ManifestStatus, OutputManifestRow}
use stream_lite.Store.Model.{Job, Db}
use stream_lite.Store.Jobs.{move}
use stream_lite.Store.Core.{
  core, records, generate_uuid-Off, enqueue_event-Off, create_delivery_attempt-Off,
  complete_delivery_attempt-Off, fail_delivery_attempt-Off, create_output_manifest-Off,
  update_source_health-Off, update_destination_health-Off, claim_stage-Off, release_stage-Off,
}
use stream_lite.Store.Stable.{
  Stable, Holding, Standing, core-records, Stable-Off, Holding-Off, Standing-Off, move-Standing,
}
use stream_lite.Routing.Delivery.{Target}
use stream_lite.Delivery.{Manifest, CopyResult, Files, Readings, is_deliverable_state, by_delivery}
use stream_lite.Delivery.Outcome.{
  Final, final_of, final_state_from_outcomes, delivered_outcomes, failed_outcomes, all_retryable,
}
use stream_lite.Delivery.Targets.{
  Work, Tally, no_tally, record_transfer_health_failure, finish_delivered, finish_failed, text_or,
  deliver_target, deliver_targets,
}
use stream_lite.Delivery.Worker.{
  record_manifest, fail_without_delivery_targets, finish_completed, finish_other, finish_job,
  tell_completed, ends_complete, finalize, deliver_claimed, with_claim, deliver_to,
}

-- Nothing of a target touches the jobs, their history or the claims.
module _ (files : Files) (w : Work) (source : Text) where
  pub record_transfer_health_failure-Off :
      (target : Target) (code : Text) → Off core (record_transfer_health_failure w target code)
  unfolding record_transfer_health_failure
  record_transfer_health_failure-Off target code =
      Off-if (text_eq code (text "SOURCE_TRANSFER_FAILED")) _ _ (update_source_health-Off _ _ _)
        (update_destination_health-Off _ _ _)

  finish_delivered-Off :
      (target : Target) (copied : CopyResult) (id started completed : ℕ) (t : Tally)
      → Off core (finish_delivered files w source target copied id started completed t)
  unfolding finish_delivered
  finish_delivered-Off target copied id started completed t =
      Off-bind _ _ (complete_delivery_attempt-Off id _ _ _ _)
        (λ _. Off-bind _ _ (enqueue_event-Off _) (λ _. Off-pure _))

  finish_failed-Off :
      (target : Target) (copied : CopyResult) (id completed : ℕ) (code : Text) (t : Tally)
      → Off core (finish_failed files w source target copied id completed code t)
  unfolding finish_failed
  finish_failed-Off target copied id completed code t =
      Off-bind _ _ (record_transfer_health_failure-Off target code) (λ _.
        Off-bind _ _ (fail_delivery_attempt-Off id _ _ _)
          (λ _. Off-bind _ _ (enqueue_event-Off _) (λ _. Off-pure _)))

  pub deliver_target-Off :
      (target : Target) (started completed : ℕ) (t : Tally)
      → Off core (deliver_target files w source target started completed t)
  unfolding deliver_target
  deliver_target-Off target started completed t =
      Off-bind _ _ (create_delivery_attempt-Off _) (λ id. Off-bind _ _ (enqueue_event-Off _) (λ _.
        Off-bind _ _ (Off-lift _) (λ copied.
          Off-if copied.is_delivered _ _ (finish_delivered-Off target copied id started completed t)
            (finish_failed-Off target copied id completed _ t))))

  pub deliver_targets-Off :
      (started completed : ℕ → ℕ) (targets : List Target) (t : Tally)
      → Off core (deliver_targets files w source started completed targets t)
  unfolding deliver_targets
  deliver_targets-Off started completed [] t = Off-pure t
  deliver_targets-Off started completed (target ∷ targets) t =
      Off-bind _ _ (deliver_target-Off target (started 0) (completed 0) t)
        (λ next. deliver_targets-Off (λ i. started (suc i)) (λ i. completed (suc i)) targets next)

pub record_manifest-Off :
    (files : Files) (w : Work) (outcomes : List DestinationOutcome) (status : ManifestStatus)
    (at : ℕ)
    → Off core (record_manifest files w outcomes status at)
unfolding record_manifest
record_manifest-Off files w outcomes status at =
    Off-bind _ _ (Off-lift _) (λ _. create_output_manifest-Off _ _)

pub tell_completed-Off :
    (at : ℕ) (w : Work) (final : Final) (t : Tally) → Off core (tell_completed at w final t)
unfolding tell_completed
tell_completed-Off at w final t =
    Off-if (ends_complete final.state) _ _ (Off-bind _ _ (enqueue_event-Off _) (λ _. Off-pure _))
      (Off-pure _)

pub deliverable-fine :
    (s : JobState) (n : ℕ)
    → is_deliverable_state s n ≡ true
    → (transition_allowed s JobState.delivering ≡ true)
      × (transition_allowed s JobState.failed ≡ true)
unfolding is_deliverable_state transition_allowed state_eq
deliverable-fine s n h = ground arith

-- COMPLETED is reached by way of DELIVERED, every other final state at once.
unfoldable pub Follows : Final → Type 0
Follows final =
    state_eq final.state JobState.completed ≡ false
    → transition_allowed JobState.delivering final.state ≡ true

final-Follows :
    (max n : ℕ) (d f : List DestinationOutcome) (final : Final)
    → final_of max n d f ≡ ok final
    → Follows final
unfolding Follows state_eq transition_allowed
final-Follows max n (d ∷ ds) [] final h = subst Follows (ok-injective _ final h) (λ k. cc)
final-Follows max n (d ∷ ds) (f ∷ fs) final h = subst Follows (ok-injective _ final h) (λ _. refl)
final-Follows max n [] (f ∷ fs) final h =
    subst Follows (ok-injective _ final h) (λ k. either (all_retryable (f ∷ fs) && ltb n max))
  where
    either :
        (b : Bool)
        → transition_allowed JobState.delivering
            (if b then JobState.retry_pending else JobState.failed)
          ≡ true
    either b = ground arith
final-Follows max n [] [] final h = cc

pub final_state-Follows :
    (max n : ℕ) (outcomes : List DestinationOutcome) (final : Final)
    → final_state_from_outcomes max n outcomes ≡ ok final
    → Follows final
unfolding final_state_from_outcomes
final_state-Follows max n outcomes final h =
    final-Follows max n (delivered_outcomes outcomes) (failed_outcomes outcomes) final h
