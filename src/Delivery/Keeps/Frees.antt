-- ===== src/Delivery/Keeps/Frees.antt =====
-- The lease of the delivery worker of app/delivery/service.py: it is given back.
use stream_lite.Base.{ℕ, ◌≡◌, refl, true, Option, none, some, List, [], ◌∷◌}
use stream_lite.Base.Table.{Table, get}
use stream_lite.Base.Text.{Text, Casing}
use stream_lite.Base.Exec.{ok}
use stream_lite.Base.Exec.Leads.{Leads, Leads-if, Leads-pure, Leads-bind}
use stream_lite.Base.Exec.Off.{Off, Off-if, Off-pure, Off-lift, Off-bind}
use stream_lite.Jobs.{JobState, state_eq}
use stream_lite.Store.Rows.{OutputManifestRow}
use stream_lite.Store.Model.{Job, Claim, Db}
use stream_lite.Store.Claims.{is_active}
use stream_lite.Store.Core.{generate_uuid-Off}
use stream_lite.Store.Freed.{
  claims_of, core-claims, move-claims, Same, Freed, Held, Same-Freed, Same-Off, finally-Leads,
  claim_stage-Leads,
}
use stream_lite.Routing.Delivery.{Target}
use stream_lite.Delivery.{Manifest, Files, Readings, is_deliverable_state}
use stream_lite.Delivery.Outcome.{Final, final_state_from_outcomes}
use stream_lite.Delivery.Targets.{Work, Tally, no_tally}
use stream_lite.Delivery.Worker.{
  fail_without_delivery_targets, finish_job, finalize, deliver_claimed, with_claim, deliver_to,
}
use stream_lite.Delivery.Run.{with_outputs, with_file, with_manifest, for_job, deliver_one}
use stream_lite.Delivery.Keeps.{record_manifest-Off, tell_completed-Off, deliver_targets-Off}
use stream_lite.Delivery.Keeps.Run.{latest_processed_manifest-Off, resolve_targets-Off}

module _ (w : Work) (files : Files) (clock : Readings) where
  fail_without_delivery_targets-claims : Off claims_of (fail_without_delivery_targets files clock w)
  unfolding fail_without_delivery_targets
  fail_without_delivery_targets-claims = Off-bind _ _ (move-claims w.job_id _ _ _) (λ _.
      Off-bind _ _ (core-claims _ generate_uuid-Off)
        (λ id. Off-bind _ _ (core-claims _ (record_manifest-Off files _ [] _ _)) (λ _. Off-pure _)))

  finish_job-claims : (at : ℕ) (final : Final) (t : Tally) → Off claims_of (finish_job at w final t)
  unfolding finish_job
  finish_job-claims at final t =
      Off-if (state_eq final.state JobState.completed) _ _
        (Off-bind _ _ (move-claims w.job_id _ _ _)
          (λ _. Off-bind _ _ (move-claims w.job_id _ _ _) (λ _. Off-pure tt)))
        (Off-bind _ _ (move-claims w.job_id _ _ _) (λ _. Off-pure tt))

  finalize-claims : (final : Final) (t : Tally) → Off claims_of (finalize files clock w final t)
  unfolding finalize
  finalize-claims final t = Off-bind _ _ (finish_job-claims clock.finalized_at final t) (λ _.
      Off-bind _ _ (core-claims _ (record_manifest-Off files w _ _ _))
        (λ _. Off-bind _ _ (core-claims _ (tell_completed-Off _ w final t)) (λ _. Off-pure _)))

  deliver_claimed-claims :
      (max : ℕ) (source : Text) (targets : List Target)
      → Off claims_of (deliver_claimed files max clock w source targets)
  unfolding deliver_claimed
  deliver_claimed-claims max source targets = Off-bind _ _ (move-claims w.job_id _ _ _) (λ _.
      Off-bind _ _ (core-claims _ (deliver_targets-Off files w source _ _ targets no_tally)) (λ t.
        Off-bind _ _
          (Off-lift (final_state_from_outcomes max w.attempt_number t.destination_outcomes))
          (λ final. finalize-claims final t)))

  with_claim-Leads :
      (c : Table Claim) (max : ℕ) (source : Text) (targets : List Target) (id : ℕ)
      → Leads (Held c id) (Freed c) (with_claim files max clock w source targets (ok id))
  with_claim-Leads c max source targets id =
      finally-Leads c _ id (some clock.released_at) (deliver_claimed-claims max source targets)

deliver_to-Leads :
    (c : Table Claim) (files : Files) (max : ℕ) (clock : Readings) (w : Work) (source : Text)
    (targets : List Target)
    → Leads (Same c) (Freed c) (deliver_to files max clock w source targets)
unfolding deliver_to
deliver_to-Leads c files max clock w source [] = record {
  at = λ db h.
      Same-Freed c _ ((Same-Off c _ (fail_without_delivery_targets-claims w files clock)).at db h);
}
deliver_to-Leads c files max clock w source (target ∷ targets) =
    Leads-bind {R = Same c} (Same-Freed c) _ _ (Same-Off c _ (core-claims _ generate_uuid-Off))
      (λ id.
        let w' = record w { final_output_manifest_id = id } in
        claim_stage-Leads c _ _ _ _ _ _ (with_claim files max clock w' source (target ∷ targets))
          (with_claim-Leads w' files clock c max source (target ∷ targets))
          (λ e. Leads-pure (Same-Freed c) _))

module _ (c : Table Claim) (k : Casing) (files : Files) (max : ℕ) (clock : Readings) (j : ℕ)
    (correlation : Option ℕ) where
  module _ (job : Job) (row : OutputManifestRow) where
    with_outputs-Leads :
        (manifest : Manifest) (outputs : List Text)
        → Leads
            (Same c)
            (Freed c)
            (with_outputs k files max clock j correlation job row manifest outputs)
    with_outputs-Leads manifest [] = Leads-pure (Same-Freed c) _
    with_outputs-Leads manifest (source ∷ others) =
        Leads-bind {R = Same c} (Same-Freed c) _ _
          (Same-Off c _ (core-claims _ (resolve_targets-Off k _ _)))
          (deliver_to-Leads c files max clock _ source)

    with_file-Leads :
        (file : Option Manifest)
        → Leads (Same c) (Freed c) (with_file k files max clock j correlation job row file)
    with_file-Leads none = Leads-pure (Same-Freed c) _
    with_file-Leads (some manifest) = with_outputs-Leads manifest _

  with_manifest-Leads :
      (job : Job) (found : Option (ℕ × OutputManifestRow))
      → Leads (Same c) (Freed c) (with_manifest k files max clock j correlation job found)
  with_manifest-Leads job none = Leads-pure (Same-Freed c) _
  with_manifest-Leads job (some (id, row)) = with_file-Leads job row _

  for_job-Leads :
      (o : Option Job) → Leads (Same c) (Freed c) (for_job k files max clock j correlation o)
  for_job-Leads none = Leads-pure (Same-Freed c) _
  for_job-Leads (some job) =
      Leads-if (is_deliverable_state job.state job.attempt_number) _ _
        (λ _.
          Leads-bind {R = Same c} (Same-Freed c) _ _
            (Same-Off c _ (core-claims _ (latest_processed_manifest-Off j)))
            (with_manifest-Leads job))
        (λ _. Leads-pure (Same-Freed c) _)

-- However a run of the delivery worker ends, also by an exception in the middle of its targets,
-- every lease that is active after it was active before it and is unchanged: the lease that the
-- worker took on the stage is given back.
pub deliver_one-frees :
    (k : Casing) (files : Files) (max : ℕ) (clock : Readings) (j : ℕ) (correlation : Option ℕ)
    (db : Db) (id : ℕ) (row : Claim)
    → get id (deliver_one k files max clock j correlation db).1.claims ≡ some row
    → is_active row.claim_status ≡ true
    → get id db.claims ≡ some row
unfolding deliver_one
deliver_one-frees k files max clock j correlation db =
    ((for_job-Leads db.claims k files max clock j correlation (get j db.jobs)).at db
      (record { same = refl })).at
