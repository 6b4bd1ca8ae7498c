-- ===== src/Store/Claims.antt =====
-- app/repositories/stage_claims.py: at most one live lease on a stage of a job.
use stream_lite.Base.{
  ℕ, ◌+◌, Bool, true, false, ◌&&◌, Option, none, some, [], ◌∷◌, ◌==◌, ltb, if◌then◌else◌,
}
use stream_lite.Base.Table.{Table, get, put}
use stream_lite.Base.Exec.{ok, err, Exec, not_found, already_claimed, ◌>>=◌}
use stream_lite.Store.Jobs.{or_keep, or_old}
use stream_lite.Store.Model.{Stage, Service, Claim, ClaimStatus, Db, generate_uuid}

abbrev pub stage_rank : Stage → ℕ
stage_rank Stage.validation = 0
stage_rank Stage.processing = 1
stage_rank Stage.delivery = 2
stage_rank Stage.routing = 3
stage_rank Stage.event = 4

abbrev pub is_active : ClaimStatus → Bool
is_active ClaimStatus.active = true
is_active _ = false

abbrev pub is_for : ℕ → Stage → ℕ → Claim → Bool
is_for job_id stage attempt_number row =
    row.job_id == job_id
    && (stage_rank row.stage == stage_rank stage && row.attempt_number == attempt_number)

-- SELECT ... WHERE job_id, stage and attempt_number
unfoldable pub find_claim : ℕ → Stage → ℕ → Table Claim → Option (ℕ × Claim)
find_claim job_id stage attempt_number [] = none
find_claim job_id stage attempt_number ((id, row) ∷ rows) =
    if is_for job_id stage attempt_number row
    then some (id, row)
    else find_claim job_id stage attempt_number rows

-- The test of a live lease.
abbrev pub is_held : ℕ → Claim → Bool
is_held now row = is_active row.claim_status && ltb now row.lease_expires_at

abbrev pub new_claim : ℕ → Stage → ℕ → Service → ℕ → Option ℕ → ℕ → Claim
new_claim job_id stage attempt_number owner lease correlation now = record {
  job_id = job_id;
  stage = stage;
  attempt_number = attempt_number;
  owner_service = owner;
  lease_expires_at = lease;
  claim_status = ClaimStatus.active;
  released_at = none;
  recovered_at = none;
  recovered_by_service = none;
  correlation_id = correlation;
  updated_at = now;
}

abbrev pub recovered : Service → ℕ → Option ℕ → ℕ → Claim → Claim
recovered owner lease correlation now row = record row {
  owner_service = owner;
  lease_expires_at = lease;
  claim_status = ClaimStatus.active;
  recovered_at = some now;
  recovered_by_service = some owner;
  released_at = none;
  correlation_id = or_keep correlation row.correlation_id;
  updated_at = now;
}

abbrev pub claim_row : ℕ → Stage → ℕ → Service → ℕ → Option ℕ → Option (ℕ × Claim) → Exec Db ℕ
claim_row job_id stage attempt_number owner lease correlation none = do
  claim_id ← generate_uuid
  λ db. (
    ok claim_id,
    record db {
      claims =
          put claim_id (new_claim job_id stage attempt_number owner lease correlation db.now)
            db.claims;
    },
  )
claim_row job_id stage attempt_number owner lease correlation (some (id, row)) = λ db.
    if is_held db.now row then (err already_claimed, db) else (
      ok id,
      record db { claims = put id (recovered owner lease correlation db.now row) db.claims },
    )

unfoldable pub claim_stage : ℕ → Stage → ℕ → Service → ℕ → Option ℕ → Exec Db ℕ
unfolding generate_uuid
claim_stage job_id stage attempt_number owner lease correlation db =
    claim_row job_id stage attempt_number owner lease correlation
      (find_claim job_id stage attempt_number db.claims) db

abbrev pub write_claim : ℕ → (ℕ → Claim → Claim) → Option Claim → Exec Db Claim
write_claim id write none db = (err not_found, db)
write_claim id write (some row) db =
    (ok (write db.now row), record db { claims = put id (write db.now row) db.claims })

unfoldable pub renew_claim : ℕ → ℕ → Exec Db Claim
renew_claim id lease db =
    write_claim id (λ now row. record row { lease_expires_at = lease; updated_at = now })
      (get id db.claims) db

unfoldable pub release_stage : ℕ → Option ℕ → Exec Db Claim
release_stage id released_at db =
    write_claim id
      (λ now row. record row {
        claim_status = ClaimStatus.released;
        released_at = some (or_old released_at now);
        updated_at = now;
      })
      (get id db.claims) db

-- UPDATE ... WHERE claim_status = 'active' AND lease_expires_at < boundary, with its row count.
abbrev pub is_stale : ℕ → Claim → Bool
is_stale boundary row = is_active row.claim_status && ltb row.lease_expires_at boundary

abbrev pub expired_row : ℕ → Claim → Claim
expired_row boundary row =
    if is_stale boundary row
    then record row { claim_status = ClaimStatus.expired; updated_at = boundary }
    else row

unfoldable pub expire_rows : ℕ → Table Claim → Table Claim
expire_rows boundary [] = []
expire_rows boundary ((id, row) ∷ rows) = (id, expired_row boundary row) ∷ expire_rows boundary rows

unfoldable pub count_stale : ℕ → Table Claim → ℕ
count_stale boundary [] = 0
count_stale boundary ((id, row) ∷ rows) =
    count_stale boundary rows + (if is_stale boundary row then 1 else 0)

unfoldable pub expire_claims : Option ℕ → Exec Db ℕ
unfolding expire_rows count_stale
expire_claims as_of db =
    let boundary = or_old as_of db.now in
    (ok (count_stale boundary db.claims), record db { claims = expire_rows boundary db.claims })
