-- ===== src/Store/Attempts.antt =====
-- app/repositories/processing.py, app/repositories/delivery.py and the attempts of
-- app/repositories/validation.py: the rows of the attempts at a stage and of the output manifests.
use stream_lite.Base.{
  ℕ, Bool, ◌&&◌, ◌||◌, Option, none, some, List, [], ◌∷◌, ◌==◌, ltb, keep, true, false, sort_by,
}
use stream_lite.Base.Text.{Text}
use stream_lite.Base.Table.{Table, get, put}
use stream_lite.Base.Exec.{ok, err, Exec, not_found, ◌>>=◌}
use stream_lite.Store.Rows.{
  ProcessingAttempt, DeliveryAttempt, ValidationAttempt, AttemptStatus, OutputManifestRow,
  ManifestStatus,
}
use stream_lite.Store.Model.{Db, generate_uuid}

-- ORDER BY ... LIMIT 1
abbrev first {ℓ} : {A : Type ℓ} → List A → Option A
first [] = none
first (x ∷ xs) = some x

-- The first of the rows of a table that WHERE lets through. Which of two rows that the order does
-- not tell apart comes first is left to the database; the model takes the one inserted first.
module _ {A : Type 0} (before : A → A → Bool) (wanted : A → Bool) where
  unfoldable pub select_first : Table A → Option (ℕ × A)
  select_first rows = first (sort_by (λ a b. before (a.1) (b.1)) (keep (λ r. wanted (r.1)) rows))

unfoldable pub create_processing_attempt : ProcessingAttempt → Exec Db ℕ
unfolding generate_uuid
create_processing_attempt row = do
  id ← generate_uuid
  λ db. (ok id, record db { processing_attempts = put id row db.processing_attempts })

abbrev pub write_processing :
    ℕ
    → (ℕ → ProcessingAttempt → ProcessingAttempt)
    → Option ProcessingAttempt
    → Exec Db ProcessingAttempt
write_processing id write none db = (err not_found, db)
write_processing id write (some row) db = (
  ok (write db.now row),
  record db { processing_attempts = put id (write db.now row) db.processing_attempts },
)

-- What complete_processing_attempt is given.
pub record Completion : Type 0 where
  pub output_locator : Text
  pub summary_locator : Text
  pub completed_at : ℕ
  pub duration_seconds : ℕ
  pub row_count : Option ℕ
  pub record_count : Option ℕ
  pub byte_count : Option ℕ

unfoldable pub complete_processing_attempt : ℕ → Completion → Exec Db ProcessingAttempt
complete_processing_attempt id c db =
    write_processing id
      (λ now row. record row {
        output_locator = some c.output_locator;
        summary_locator = some c.summary_locator;
        completed_at = some c.completed_at;
        duration_seconds = some c.duration_seconds;
        row_count = c.row_count;
        record_count = c.record_count;
        byte_count = c.byte_count;
        status = AttemptStatus.processed;
        updated_at = now;
      })
      (get id db.processing_attempts) db

unfoldable pub fail_processing_attempt : ℕ → Text → ℕ → ℕ → Exec Db ProcessingAttempt
fail_processing_attempt id error_code completed_at duration_seconds db =
    write_processing id
      (λ now row. record row {
        error_code = some error_code;
        completed_at = some completed_at;
        duration_seconds = some duration_seconds;
        status = AttemptStatus.failed;
        updated_at = now;
      })
      (get id db.processing_attempts) db

-- create_output_manifest under the given id, its row filled in by the caller.
unfoldable pub create_output_manifest : ℕ → OutputManifestRow → Exec Db (Unit {0})
create_output_manifest id row db =
    (ok tt, record db { output_manifests = put id row db.output_manifests })

unfoldable pub create_delivery_attempt : DeliveryAttempt → Exec Db ℕ
unfolding generate_uuid
create_delivery_attempt row = do
  id ← generate_uuid
  λ db. (ok id, record db { delivery_attempts = put id row db.delivery_attempts })

abbrev pub write_delivery :
    ℕ → (ℕ → DeliveryAttempt → DeliveryAttempt) → Option DeliveryAttempt → Exec Db DeliveryAttempt
write_delivery id write none db = (err not_found, db)
write_delivery id write (some row) db = (
  ok (write db.now row),
  record db { delivery_attempts = put id (write db.now row) db.delivery_attempts },
)

unfoldable pub complete_delivery_attempt : ℕ → Text → Text → Text → ℕ → Exec Db DeliveryAttempt
complete_delivery_attempt id finalized_locator manifest_locator checksum_sha256 completed_at db =
    write_delivery id
      (λ now row. record row {
        finalized_locator = some finalized_locator;
        manifest_locator = some manifest_locator;
        checksum_sha256 = some checksum_sha256;
        completed_at = some completed_at;
        status = AttemptStatus.delivered;
        updated_at = now;
      })
      (get id db.delivery_attempts) db

unfoldable pub fail_delivery_attempt : ℕ → Text → ℕ → Option Text → Exec Db DeliveryAttempt
fail_delivery_attempt id failure_code completed_at manifest_locator db =
    write_delivery id
      (λ now row. record row {
        failure_code = some failure_code;
        completed_at = some completed_at;
        manifest_locator = manifest_locator;
        status = AttemptStatus.failed;
        updated_at = now;
      })
      (get id db.delivery_attempts) db

-- ORDER BY attempt_number DESC, created_at DESC
abbrev later_validation : ValidationAttempt → ValidationAttempt → Bool
later_validation a b =
    ltb b.attempt_number a.attempt_number
    || (a.attempt_number == b.attempt_number && ltb b.created_at a.created_at)

-- get_latest_attempt of the validation repository
unfoldable pub get_latest_attempt : ℕ → Exec Db (Option (ℕ × ValidationAttempt))
unfolding select_first
get_latest_attempt job_id db =
    (ok (select_first later_validation (λ row. row.job_id == job_id) db.validation_attempts), db)

abbrev is_processed_manifest : ManifestStatus → Bool
is_processed_manifest ManifestStatus.processed = true
is_processed_manifest _ = false

-- ORDER BY finalized_at DESC, created_at DESC
abbrev later_manifest : OutputManifestRow → OutputManifestRow → Bool
later_manifest a b =
    ltb b.finalized_at a.finalized_at
    || (a.finalized_at == b.finalized_at && ltb b.created_at a.created_at)

-- _get_latest_processed_manifest of app/delivery/service.py
unfoldable pub latest_processed_manifest : ℕ → Exec Db (Option (ℕ × OutputManifestRow))
unfolding select_first
latest_processed_manifest job_id db = (
  ok (
      select_first later_manifest (λ row. row.job_id == job_id && is_processed_manifest row.status)
        db.output_manifests),
  db,
)
