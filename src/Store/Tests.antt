-- ===== src/Store/Tests.antt =====
-- The theorems about the repositories at the sample session.
use stream_lite.Base.{◌≡◌, ltb, true, false, arith, refl, none, some}
use stream_lite.Base.Text.{text}
use stream_lite.Base.Table.{get}
use stream_lite.Jobs.{JobState, transition_allowed}
use stream_lite.Store.Model.{Service}
use stream_lite.Store.Jobs.{Transition, move}
use stream_lite.Store.Audit.{Audited, move-Audited}
use stream_lite.Base.Exec.{ok, err, already_claimed}
use stream_lite.Store.Model.{Stage, generate_uuid}
use stream_lite.Store.Claims.{claim_stage, find_claim, release_stage, expire_claims}
use stream_lite.Store.Leases.{claim_stage-exclusive, release_stage-frees, expire_claims-harmless}
use stream_lite.Samples.{sample_db, sample_job, sample_db-Audited}

abbrev to_processed : Transition
to_processed = record {
  previous_state = some JobState.processing;
  new_state = JobState.processed;
  actor_service = Service.processor;
  reason_code = text "PROCESSING_COMPLETED";
  correlation_id = 4;
  transitioned_at = 250;
  event_id = none;
  transition_sequence = none;
}

move-Audited_example : Audited (move 7 none (some 1) to_processed sample_db).1
unfolding get transition_allowed
move-Audited_example =
    move-Audited sample_db-Audited 7 sample_job none (some 1) to_processed refl refl refl refl

-- The processor takes the second attempt of the sample job until 400.
first_claim : (claim_stage 7 Stage.processing 2 Service.processor 400 none sample_db).0 ≡ ok 1000
unfolding claim_stage find_claim generate_uuid
first_claim = refl

claim_stage-exclusive_example :
    let later = record ((claim_stage 7 Stage.processing 2 Service.processor 400 none sample_db).1) {
      now = 300;
    } in
    let second = claim_stage 7 Stage.processing 2 Service.retry_scheduler 800 none later in
    (ltb 300 400 ≡ true → second ≡ (err already_claimed, later))
    × (ltb 300 400 ≡ false → second.0 ≡ ok 1000)
claim_stage-exclusive_example =
    claim_stage-exclusive 7 Stage.processing 2 Service.processor Service.retry_scheduler 400 800 300
      1000 none none sample_db first_claim

release_stage-frees_example :
    let given_back =
      (release_stage 1000 none
        (claim_stage 7 Stage.processing 2 Service.processor 400 none sample_db).1).1 in
    (claim_stage 7 Stage.processing 2 Service.retry_scheduler 800 none
      (record given_back { now = 300 })).0
    ≡ ok 1000
release_stage-frees_example =
    release_stage-frees 7 Stage.processing 2 Service.processor Service.retry_scheduler 400 800 300
      1000 none none none sample_db first_claim

expire_claims-harmless_example :
    (claim_stage 7 Stage.processing 1 Service.processor 900 none
      (record ((expire_claims (some 600) sample_db).1) { now = 700 })).0
    ≡ (claim_stage 7 Stage.processing 1 Service.processor 900 none
        (record sample_db { now = 700 })).0
expire_claims-harmless_example =
    expire_claims-harmless 7 Stage.processing 1 Service.processor 900 600 700 none sample_db
      (omega arith)
