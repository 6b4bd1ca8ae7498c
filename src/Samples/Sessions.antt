-- ===== src/Samples/Sessions.antt =====
-- Sessions for the tests of the services: a job that failed in processing, one that is validated and
-- one that is processed, each beside the job and the live claim of the small session.
use stream_lite.Base.{true, none, some, [], ◌∷◌}
use stream_lite.Base.Text.{text}
use stream_lite.Jobs.{JobState}
use stream_lite.Store.Rows.{
  ProcessingAttempt, ValidationAttempt, AttemptStatus, OutputManifestRow, ManifestStatus, FolderRow,
  Health,
}
use stream_lite.Store.Model.{Job, Db}
use stream_lite.Samples.{sample_db, sample_job}

abbrev pub failed_job : Job
failed_job = record sample_job {
  state = JobState.failed;
  terminal_state = some JobState.failed;
  latest_error_code = some (text "PROCESSOR_TIMEOUT");
}

abbrev failed_attempt : ProcessingAttempt
failed_attempt = record {
  job_id = 7;
  attempt_number = 1;
  engine = text "spark";
  engine_version = text "1.0.0";
  input_locator = text "/data/in/a.csv";
  output_locator = none;
  summary_locator = none;
  row_count = none;
  record_count = none;
  byte_count = none;
  started_at = 110;
  completed_at = some 120;
  duration_seconds = some 0;
  status = AttemptStatus.failed;
  error_code = some (text "PROCESSOR_TIMEOUT");
  correlation_id = 4;
  created_at = 110;
  updated_at = 120;
}

abbrev pub failed_db : Db
failed_db = record sample_db {
  jobs = (7, failed_job) ∷ [];
  processing_attempts = (60, failed_attempt) ∷ [];
}

abbrev pub other_job : JobState → Job
other_job state = record sample_job { state = state; source_sha256 = some (text "aa") }

abbrev valid_attempt : ValidationAttempt
valid_attempt = record {
  job_id = 8;
  attempt_number = 1;
  validation_status = text "valid";
  rules_applied = [];
  reason_codes = [];
  started_at = 110;
  completed_at = some 120;
  duration_seconds = some 0;
  correlation_id = 4;
  created_at = 110;
}

abbrev pub validated_db : Db
validated_db = record sample_db {
  jobs = (7, sample_job) ∷ (8, other_job JobState.validated) ∷ [];
  validation_attempts = (70, valid_attempt) ∷ [];
}

abbrev pub processed_row : OutputManifestRow
processed_row = record {
  job_id = 8;
  watcher_id = 2;
  schema_version = text "1.0.0";
  manifest_locator = text "/data/out/manifest.json";
  processing_summary_locator = text "/data/out/a.json";
  produced_output_locators = text "/data/out/a.parquet" ∷ [];
  source_sha256 = some (text "aa");
  output_sha256 = none;
  destination_outcomes = [];
  finalized_at = 150;
  status = ManifestStatus.processed;
  correlation_id = 4;
  created_at = 150;
}

abbrev folder : FolderRow
folder = record {
  watcher_id = 2;
  display_path = text "/out";
  normalized_path = text "/data/dest";
  route_tags = text "A" ∷ [];
  health_status = Health.green;
  reason_code = none;
  enabled = true;
  created_at = 90;
  updated_at = 90;
}

abbrev pub processed_db : Db
processed_db = record sample_db {
  jobs = (7, sample_job) ∷ (8, other_job JobState.processed) ∷ [];
  output_manifests = (80, processed_row) ∷ [];
  sources = (3, folder) ∷ [];
  destinations = (5, folder) ∷ [];
}
