-- ===== src/Samples.antt =====
-- A small session for the tests: one job that is being processed, with its whole history, one
-- pending event and one live claim.
pub mod Parts
pub mod Sessions
use stream_lite.Base.{ℕ, ◌≡◌, Option, none, some, List, [], ◌∷◌, ◌==◌, Bool-cases, inl, inr}
use stream_lite.Base.Text.{text}
use stream_lite.Base.Table.{get}
use stream_lite.Jobs.{JobState, transition_allowed}
use stream_lite.Store.Model.{
  Stage, Service, Payload, IdempotencyKey, Job, HistoryRow, OutboxRow, OutboxStatus, Claim,
  ClaimStatus, Db,
}
use stream_lite.Store.Audit.{Audited, replay, state_of}

abbrev pub sample_job : Job
sample_job = record {
  file_id = 1;
  watcher_id = 2;
  source_folder_id = 3;
  source_display_path = text "/in/a.csv";
  source_container_locator = text "/data/in/a.csv";
  source_file_name = text "a.csv";
  source_extension = text ".csv";
  source_size_bytes = 10;
  source_sha256 = none;
  detected_at = 100;
  stable_at = some 100;
  state = JobState.processing;
  terminal_state = none;
  attempt_number = 1;
  correlation_id = 4;
  latest_error_code = none;
  created_at = 100;
  updated_at = 100;
}

abbrev entry : ℕ → Option JobState → JobState → HistoryRow
entry n previous new = record {
  history_id = n;
  job_id = 7;
  previous_state = previous;
  new_state = new;
  actor_service = Service.watcher;
  reason_code = text "SAMPLE";
  transition_sequence = n;
  event_id = none;
  transitioned_at = 100;
  correlation_id = 4;
}

abbrev pub sample_history : List HistoryRow
sample_history =
    entry 6 (some JobState.validated) JobState.processing
    ∷ entry 5 (some JobState.validating) JobState.validated
    ∷ entry 4 (some JobState.registered) JobState.validating
    ∷ entry 3 (some JobState.stabilizing) JobState.registered
    ∷ entry 2 (some JobState.detected) JobState.stabilizing
    ∷ entry 1 none JobState.detected
    ∷ []

abbrev pub sample_event : OutboxRow
sample_event = record {
  event_id = 20;
  schema_version = text "1.0.0";
  event_type = text "retry.scheduled";
  stream_name = text "stream_lite.lifecycle";
  producer = Service.retry_scheduler;
  job_id = some 7;
  watcher_id = some 2;
  correlation_id = 4;
  idempotency_key = IdempotencyKey.key (text "retry.scheduled") 7 Stage.processing 2;
  attempt_number = some 2;
  occurred_at = 100;
  payload_json = Payload.retry_payload Stage.processing 100 5 3 (text "again");
  status = OutboxStatus.pending;
  publish_attempts = 0;
  next_publish_at = none;
  published_at = none;
  published_stream_id = none;
  last_error_code = none;
  updated_at = 100;
}

abbrev pub sample_claim : Claim
sample_claim = record {
  job_id = 7;
  stage = Stage.processing;
  attempt_number = 1;
  owner_service = Service.processor;
  lease_expires_at = 500;
  claim_status = ClaimStatus.active;
  released_at = none;
  recovered_at = none;
  recovered_by_service = none;
  correlation_id = none;
  updated_at = 100;
}

abbrev pub sample_db : Db
sample_db = record {
  jobs = (7, sample_job) ∷ [];
  history = sample_history;
  schedules = [];
  outbox = (30, sample_event) ∷ [];
  claims = (40, sample_claim) ∷ [];
  commands = [];
  idempotency_keys = [];
  validation_attempts = [];
  processing_attempts = [];
  delivery_attempts = [];
  output_manifests = [];
  sources = [];
  destinations = [];
  next_uuid = 1000;
  now = 200;
}

pub sample_db-Audited : Audited sample_db
unfolding replay get transition_allowed
sample_db-Audited = record { at = at' }
  where
    at' :
        (j : ℕ) → (n : ℕ) × (replay j sample_db.history ≡ some (state_of (get j sample_db.jobs), n))
    at' j = elim (Bool-cases (7 == j)) [ inl same ↦ (6, rw same) | inr other ↦ (0, rw other) ]
