-- ===== src/Store/Core.antt =====
-- The part of the session that the services guard: the jobs with their history, and the claims. The
-- repositories of the other tables leave it as it is.
use stream_lite.Base.{ℕ, ◌≡◌, refl, Option, none, some, List, Bool-cases, inl, inr}
use stream_lite.Base.Text.{Text}
use stream_lite.Base.Table.{Table, get}
use stream_lite.Base.Exec.Off.{Off}
use stream_lite.Store.Rows.{
  Command, CommandStatus, FolderRow, Health, ProcessingAttempt, DeliveryAttempt, OutputManifestRow,
}
use stream_lite.Store.Claims.{
  claim_stage, claim_row, find_claim, is_held, release_stage, write_claim,
}
use stream_lite.Store.Model.{Job, HistoryRow, Claim, Stage, Service, Schedule, Db, generate_uuid}
use stream_lite.Store.Retry.{schedule_retry}
use stream_lite.Store.Folders.{
  update_source_health, update_destination_health, write_source, write_destination,
}
use stream_lite.Store.Commands.{update_command_status, write_command}
use stream_lite.Store.Attempts.{
  create_processing_attempt, complete_processing_attempt, fail_processing_attempt, write_processing,
  Completion, create_output_manifest, create_delivery_attempt, complete_delivery_attempt,
  fail_delivery_attempt, write_delivery, get_latest_attempt,
}
use stream_lite.Events.{
  Event, enqueue_event, enqueue_event-accepted, enqueue_event-refused, validate_payload,
}

pub record Core : Type 0 where
  pub jobs : Table Job
  pub history : List HistoryRow
  pub claims : Table Claim

abbrev pub core : Db → Core
core db = record { jobs = db.jobs; history = db.history; claims = db.claims }

pub enqueue_event-Off : (e : Event) → Off core (enqueue_event e)
enqueue_event-Off e = record {
  at = λ db. elim (Bool-cases (validate_payload e.payload)) [
    | inl valid ↦ rw (enqueue_event-accepted e db valid) refl
    | inr bad ↦ rw (enqueue_event-refused e db bad) refl
  ];
}

pub schedule_retry-Off : (row : Db → Schedule) → Off core (λ (db : Db). schedule_retry (row db) db)
unfolding schedule_retry generate_uuid
schedule_retry-Off row = record { at = λ db. refl }

write_command-core :
    (id : ℕ) (w : ℕ → Command → Command) (o : Option Command) (db : Db)
    → core (write_command id w o db).1 ≡ core db
write_command-core id w none db = refl
write_command-core id w (some row) db = refl

pub update_command_status-Off :
    (id : ℕ) (s : CommandStatus) (l e : Option Text) (c : Option ℕ)
    → Off core (update_command_status id s l e c)
unfolding update_command_status
update_command_status-Off id s l e c = record {
  at = λ db. write_command-core id _ (get id db.commands) db;
}

pub create_processing_attempt-Off :
    (row : Db → ProcessingAttempt) → Off core (λ (db : Db). create_processing_attempt (row db) db)
unfolding create_processing_attempt
create_processing_attempt-Off row = record { at = λ db. refl }

write_processing-core :
    (id : ℕ) (w : ℕ → ProcessingAttempt → ProcessingAttempt) (o : Option ProcessingAttempt)
    (db : Db)
    → core (write_processing id w o db).1 ≡ core db
write_processing-core id w none db = refl
write_processing-core id w (some row) db = refl

pub complete_processing_attempt-Off :
    (id : ℕ) (c : Completion) → Off core (complete_processing_attempt id c)
unfolding complete_processing_attempt
complete_processing_attempt-Off id c = record {
  at = λ db. write_processing-core id _ (get id db.processing_attempts) db;
}

pub fail_processing_attempt-Off :
    (id : ℕ) (code : Text) (at duration : ℕ)
    → Off core (fail_processing_attempt id code at duration)
unfolding fail_processing_attempt
fail_processing_attempt-Off id code at duration = record {
  at = λ db. write_processing-core id _ (get id db.processing_attempts) db;
}

pub create_output_manifest-Off :
    (id : ℕ) (row : Db → OutputManifestRow)
    → Off core (λ (db : Db). create_output_manifest id (row db) db)
unfolding create_output_manifest
create_output_manifest-Off id row = record { at = λ db. refl }

pub create_delivery_attempt-Off :
    (row : Db → DeliveryAttempt) → Off core (λ (db : Db). create_delivery_attempt (row db) db)
unfolding create_delivery_attempt
create_delivery_attempt-Off row = record { at = λ db. refl }

write_delivery-core :
    (id : ℕ) (w : ℕ → DeliveryAttempt → DeliveryAttempt) (o : Option DeliveryAttempt) (db : Db)
    → core (write_delivery id w o db).1 ≡ core db
write_delivery-core id w none db = refl
write_delivery-core id w (some row) db = refl

pub complete_delivery_attempt-Off :
    (id : ℕ) (locator manifest checksum : Text) (at : ℕ)
    → Off core (complete_delivery_attempt id locator manifest checksum at)
unfolding complete_delivery_attempt
complete_delivery_attempt-Off id locator manifest checksum at = record {
  at = λ db. write_delivery-core id _ (get id db.delivery_attempts) db;
}

pub fail_delivery_attempt-Off :
    (id : ℕ) (code : Text) (at : ℕ) (manifest : Option Text)
    → Off core (fail_delivery_attempt id code at manifest)
unfolding fail_delivery_attempt
fail_delivery_attempt-Off id code at manifest = record {
  at = λ db. write_delivery-core id _ (get id db.delivery_attempts) db;
}

pub get_latest_attempt-Off : (job_id : ℕ) → Off core (get_latest_attempt job_id)
unfolding get_latest_attempt
get_latest_attempt-Off job_id = record { at = λ db. refl }

-- The claims write neither jobs nor history.
abbrev pub records : Db → Table Job × List HistoryRow
records db = (db.jobs, db.history)

claim_row-records :
    (j : ℕ) (stage : Stage) (n : ℕ) (owner : Service) (lease : ℕ) (c : Option ℕ)
    (o : Option (ℕ × Claim)) (db : Db)
    → records (claim_row j stage n owner lease c o db).1 ≡ records db
unfolding generate_uuid
claim_row-records j stage n owner lease c none db = refl
claim_row-records j stage n owner lease c (some (id, row)) db =
    elim (Bool-cases (is_held db.now row)) [ inl held ↦ rw held refl | inr free ↦ rw free refl ]

pub claim_stage-Off :
    (j : ℕ) (stage : Stage) (n : ℕ) (owner : Service) (lease : ℕ) (c : Option ℕ)
    → Off records (claim_stage j stage n owner lease c)
unfolding claim_stage
claim_stage-Off j stage n owner lease c = record {
  at = λ db. claim_row-records j stage n owner lease c (find_claim j stage n db.claims) db;
}

write_claim-records :
    (id : ℕ) (w : ℕ → Claim → Claim) (o : Option Claim) (db : Db)
    → records (write_claim id w o db).1 ≡ records db
write_claim-records id w none db = refl
write_claim-records id w (some row) db = refl

pub release_stage-Off : (id : ℕ) (at : Option ℕ) → Off records (release_stage id at)
unfolding release_stage
release_stage-Off id at = record { at = λ db. write_claim-records id _ (get id db.claims) db }

write_source-core :
    (id : ℕ) (w : ℕ → FolderRow → FolderRow) (o : Option FolderRow) (db : Db)
    → core (write_source id w o db).1 ≡ core db
write_source-core id w none db = refl
write_source-core id w (some row) db = refl

pub update_source_health-Off :
    (id : ℕ) (h : Health) (code : Option Text) → Off core (update_source_health id h code)
unfolding update_source_health
update_source_health-Off id h code = record {
  at = λ db. write_source-core id _ (get id db.sources) db;
}

write_destination-core :
    (id : ℕ) (w : ℕ → FolderRow → FolderRow) (o : Option FolderRow) (db : Db)
    → core (write_destination id w o db).1 ≡ core db
write_destination-core id w none db = refl
write_destination-core id w (some row) db = refl

pub update_destination_health-Off :
    (id : ℕ) (h : Health) (code : Option Text) → Off core (update_destination_health id h code)
unfolding update_destination_health
update_destination_health-Off id h code = record {
  at = λ db. write_destination-core id _ (get id db.destinations) db;
}

pub generate_uuid-Off : Off core generate_uuid
unfolding generate_uuid
generate_uuid-Off = record { at = λ db. refl }
