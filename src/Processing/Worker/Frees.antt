-- ===== src/Processing/Worker/Frees.antt =====
-- The lease of the processing worker of app/processing/engine.py: it is given back.
use stream_lite.Base.{ℕ, ◌≡◌, refl, true, Option, none, some}
use stream_lite.Base.Table.{Table, get}
use stream_lite.Base.Text.{Text}
use stream_lite.Base.Exec.{Result, ok, err, bad_argument, caught}
use stream_lite.Base.Exec.Leads.{Leads, Leads-if, Leads-pure, Leads-bind}
use stream_lite.Base.Exec.Off.{Off, Off-if, Off-pure, Off-lift, Off-bind, Off-caught}
use stream_lite.Jobs.{JobState}
use stream_lite.Store.Model.{Job, Claim, Db}
use stream_lite.Store.Claims.{is_active}
use stream_lite.Store.Core.{
  enqueue_event-Off, create_processing_attempt-Off, complete_processing_attempt-Off,
  fail_processing_attempt-Off, create_output_manifest-Off, get_latest_attempt-Off,
}
use stream_lite.Store.Freed.{
  claims_of, core-claims, move-claims, Same, Freed, Held, Same-Freed, Same-Off, Held-Off,
  finally-Leads, claim_stage-Leads,
}
use stream_lite.Processing.{AdapterResult, Adapter, Readings, is_processable_state}
use stream_lite.Processing.Worker.Keeps.{run_adapter-Off}
use stream_lite.Processing.Worker.{
  Work, begin_attempt, run_adapter, result_or_failure, run_begun, attempt_run, Artifacts,
  artifacts_of, complete_with, complete_success, fail_to, fail_attempt, complete, run_claimed,
  with_claim, claim_and_run, is_confirmed, for_job, process_one,
}

module _ (w : Work) where
  begin_attempt-claims :
      (adapter : Adapter) (clock : Readings) → Off claims_of (begin_attempt adapter clock w)
  unfolding begin_attempt
  begin_attempt-claims adapter clock =
      Off-bind _ _ (move-claims w.job_id _ _ _)
        (λ _. core-claims _ (create_processing_attempt-Off _))

  run_begun-claims :
      (adapter : Adapter) (clock : Readings) (r : Result ℕ)
      → Off claims_of (run_begun adapter clock w r)
  run_begun-claims adapter clock (err e) = Off-pure _
  run_begun-claims adapter clock (ok id) =
      Off-bind (caught (run_adapter adapter clock w)) _
        (core-claims (caught (run_adapter adapter clock w))
          (Off-caught _ (run_adapter-Off adapter clock w)))
        (λ outcome. Off-pure (some id, result_or_failure adapter clock w outcome))

  run_begun-ok :
      (adapter : Adapter) (clock : Readings) (r : Result ℕ) (db : Db)
      → (a : Option ℕ × AdapterResult) × ((run_begun adapter clock w r db).0 ≡ ok a)
  run_begun-ok adapter clock (err e) db = (_, refl)
  run_begun-ok adapter clock (ok id) db = (_, refl)

  complete_with-claims :
      (answer : AdapterResult) (a : Artifacts) → Off claims_of (complete_with w answer a)
  unfolding complete_with
  complete_with-claims answer a =
      Off-bind _ _ (core-claims _ (create_output_manifest-Off _ _)) (λ _.
        Off-bind _ _ (core-claims _ (complete_processing_attempt-Off _ _)) (λ _.
          Off-bind _ _ (move-claims w.job_id _ _ _)
            (λ _. Off-bind _ _ (core-claims _ (enqueue_event-Off _)) (λ _. Off-pure _))))

  fail_attempt-claims :
      (o : Option ℕ) (code : Text) (answer : AdapterResult)
      → Off claims_of (fail_attempt o code answer)
  fail_attempt-claims none code answer = Off-pure tt
  fail_attempt-claims (some id) code answer =
      Off-bind _ _ (core-claims _ (fail_processing_attempt-Off id code _ _)) (λ _. Off-pure tt)

  fail_to-claims :
      (next : JobState) (o : Option ℕ) (answer : AdapterResult)
      → Off claims_of (fail_to next w o answer)
  unfolding fail_to
  fail_to-claims next o answer = Off-bind _ _ (fail_attempt-claims o _ answer) (λ _.
      Off-bind _ _ (move-claims w.job_id _ _ _)
        (λ _. Off-bind _ _ (core-claims _ (enqueue_event-Off _)) (λ _. Off-pure _)))

  complete-claims :
      (max : ℕ) (o : Option ℕ) (answer : AdapterResult) → Off claims_of (complete max w (o, answer))
  unfolding complete
  complete-claims max o answer =
      Off-if answer.is_processed _ _ (success (artifacts_of o answer)) (fail_to-claims _ o answer)
    where
      success : (a : Option Artifacts) → Off claims_of (complete_success w answer a)
      success none = Off-lift (err bad_argument)
      success (some a) = complete_with-claims answer a

  module _ (c : Table Claim) (adapter : Adapter) (max : ℕ) (clock : Readings) where
    attempt_run-claims : Off claims_of (attempt_run adapter clock w)
    unfolding attempt_run
    attempt_run-claims =
        Off-bind _ _ (Off-caught _ (begin_attempt-claims adapter clock))
          (run_begun-claims adapter clock)

    attempt_run-ok :
        (db : Db) → (a : Option ℕ × AdapterResult) × ((attempt_run adapter clock w db).0 ≡ ok a)
    unfolding attempt_run
    attempt_run-ok db = run_begun-ok adapter clock (begin_attempt adapter clock w db).0 _

    run_claimed-Leads : (id : ℕ) → Leads (Held c id) (Freed c) (run_claimed adapter max clock w id)
    unfolding run_claimed
    run_claimed-Leads id = record { at = given_back }
      where
        given_back : (db : Db) → Held c id db → Freed c (run_claimed adapter max clock w id db).1
        given_back db h =
            let (a, e) = attempt_run-ok db in
            rw e (
              (finally-Leads c _ id (some clock.released_at) (complete-claims max a.0 a.1)).at _
                ((Held-Off c id _ attempt_run-claims).at db h))

    with_claim-Leads : Leads (Same c) (Freed c) (claim_and_run adapter max clock w)
    unfolding claim_and_run
    with_claim-Leads =
        claim_stage-Leads c _ _ _ _ _ _ (with_claim adapter max clock w) run_claimed-Leads
          (λ e. Leads-pure (Same-Freed c) _)

module _ (c : Table Claim) (adapter : Adapter) (max : ℕ) (clock : Readings) (j : ℕ)
    (correlation : Option ℕ) where
  for_job-Leads :
      (o : Option Job) → Leads (Same c) (Freed c) (for_job adapter max clock j correlation o)
  for_job-Leads none = Leads-pure (Same-Freed c) _
  for_job-Leads (some job) =
      Leads-if (is_processable_state job.state job.attempt_number) _ _
        (λ _.
          Leads-bind {R = Same c} (Same-Freed c) _ _
            (Same-Off c _ (core-claims _ (get_latest_attempt-Off j)))
            (λ latest.
              Leads-if (is_confirmed latest) _ _ (λ _. with_claim-Leads _ c adapter max clock)
                (λ _. Leads-pure (Same-Freed c) _)))
        (λ _. Leads-pure (Same-Freed c) _)

-- However a run of the worker ends, also by an exception, every lease that is active after it was
-- active before it and is unchanged: the lease that the worker took on the stage is given back.
pub process_one-frees :
    (adapter : Adapter) (max : ℕ) (clock : Readings) (j : ℕ) (correlation : Option ℕ) (db : Db)
    (id : ℕ) (row : Claim)
    → get id (process_one adapter max clock j correlation db).1.claims ≡ some row
    → is_active row.claim_status ≡ true
    → get id db.claims ≡ some row
unfolding process_one
process_one-frees adapter max clock j correlation db =
    ((for_job-Leads db.claims adapter max clock j correlation (get j db.jobs)).at db
      (record { same = refl })).at
