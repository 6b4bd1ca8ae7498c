-- ===== src/Store/Model.antt =====
-- The rows of app/db/models.py that the modelled services read and write. A UUID is a number, and
-- an instant is the number of its microseconds since the epoch, in UTC.
use stream_lite.Base.{ℕ, suc, Bool, Option, List}
use stream_lite.Base.Text.{Text}
use stream_lite.Base.Table.{Table}
use stream_lite.Base.Exec.{ok, Exec}
use stream_lite.Jobs.{JobState}
use stream_lite.Store.Rows.{
  Command, KeyRow, ProcessingAttempt, DeliveryAttempt, ValidationAttempt, OutputManifestRow,
  FolderRow,
}

-- RETRY_STAGE_VALUES with the two further stages of the failure catalog.
pub data Stage : Type 0 where
  validation processing delivery routing event : Stage

pub data FailureClass : Type 0 where
  retryable non_retryable exhausted_retries : FailureClass

-- ACTOR_SERVICE
pub data Service : Type 0 where
  api watcher validator processor delivery_service retry_scheduler : Service
  event_dispatcher streamlit : Service

pub data ScheduleStatus : Type 0 where
  scheduled attempted exhausted failed : ScheduleStatus

-- OUTBOX_STATUS
pub data OutboxStatus : Type 0 where
  pending published publish_failed dead_lettered : OutboxStatus

-- CLAIM_STATUS
pub data ClaimStatus : Type 0 where
  active released expired : ClaimStatus

pub record Job : Type 0 where
  pub file_id : ℕ
  pub watcher_id : ℕ
  pub source_folder_id : ℕ
  pub source_display_path : Text
  pub source_container_locator : Text
  pub source_file_name : Text
  pub source_extension : Text
  pub source_size_bytes : ℕ
  pub source_sha256 : Option Text
  pub detected_at : ℕ
  pub stable_at : Option ℕ
  pub state : JobState
  pub terminal_state : Option JobState
  pub attempt_number : ℕ
  pub correlation_id : ℕ
  pub latest_error_code : Option Text
  pub created_at : ℕ
  pub updated_at : ℕ

pub record HistoryRow : Type 0 where
  pub history_id : ℕ
  pub job_id : ℕ
  pub previous_state : Option JobState
  pub new_state : JobState
  pub actor_service : Service
  pub reason_code : Text
  pub transition_sequence : ℕ
  pub event_id : Option ℕ
  pub transitioned_at : ℕ
  pub correlation_id : ℕ

-- The delay of `backoff_seconds` is held in microseconds, the unit in which it is added to a time.
pub record Schedule : Type 0 where
  pub job_id : ℕ
  pub failed_stage : Stage
  pub failure_class : FailureClass
  pub due_at : ℕ
  pub backoff_micros : ℕ
  pub attempt_number : ℕ
  pub max_attempts : ℕ
  pub jitter_enabled : Bool
  pub status : ScheduleStatus
  pub next_stage : Stage
  pub last_error_code : Option Text
  pub correlation_id : ℕ
  pub created_at : ℕ
  pub updated_at : ℕ

-- The payloads of the modelled producers. The retry scheduler writes `retry.scheduled`, with its
-- next stage, due time, delay, greatest attempt and reason, and `job.failed`, with its class, stage,
-- code and message. The processor writes its start (engine, version, input, time), its end (engine,
-- manifest, output, rows, seconds) and its failure (engine, code, message, whether it is retryable).
-- The delivery worker writes a start (folder, path, tags, manifest, time), an end (folder, path,
-- manifest, bytes, time, delay) or a failure (folder, path, code, message, whether it is retryable)
-- for each destination, and `job.completed` (final state, successes, failures, time).
pub data Payload : Type 0 where
  retry_payload : Stage → ℕ → ℕ → ℕ → Text → Payload
  failed_payload : FailureClass → Stage → Text → Text → Payload
  processing_started_payload : Text → Text → Text → ℕ → Payload
  processing_completed_payload : Text → ℕ → Text → Option ℕ → ℕ → Payload
  processing_failed_payload : Text → Text → Text → Bool → Payload
  delivery_started_payload : ℕ → Text → List Text → ℕ → ℕ → Payload
  delivery_completed_payload : ℕ → Text → ℕ → ℕ → ℕ → ℕ → Payload
  delivery_failed_payload : ℕ → Text → Text → Text → Bool → Payload
  job_completed_payload : JobState → ℕ → ℕ → ℕ → Payload

-- `kind:job:stage:attempt`, `kind:job:attempt`, `kind:job:manual:stage:attempt`,
-- `kind:job:folder:attempt` and `kind:job:job:attempt`, by their parts.
pub data IdempotencyKey : Type 0 where
  key : Text → ℕ → Stage → ℕ → IdempotencyKey
  event_key : Text → ℕ → ℕ → IdempotencyKey
  manual_key : Text → ℕ → Stage → ℕ → IdempotencyKey
  folder_key : Text → ℕ → ℕ → ℕ → IdempotencyKey
  job_key : Text → ℕ → ℕ → IdempotencyKey

pub record OutboxRow : Type 0 where
  pub event_id : ℕ
  pub schema_version : Text
  pub event_type : Text
  pub stream_name : Text
  pub producer : Service
  pub job_id : Option ℕ
  pub watcher_id : Option ℕ
  pub correlation_id : ℕ
  pub idempotency_key : IdempotencyKey
  pub attempt_number : Option ℕ
  pub occurred_at : ℕ
  pub payload_json : Payload
  pub status : OutboxStatus
  pub publish_attempts : ℕ
  pub next_publish_at : Option ℕ
  pub published_at : Option ℕ
  pub published_stream_id : Option Text
  pub last_error_code : Option Text
  pub updated_at : ℕ

pub record Claim : Type 0 where
  pub job_id : ℕ
  pub stage : Stage
  pub attempt_number : ℕ
  pub owner_service : Service
  pub lease_expires_at : ℕ
  pub claim_status : ClaimStatus
  pub released_at : Option ℕ
  pub recovered_at : Option ℕ
  pub recovered_by_service : Option Service
  pub correlation_id : Option ℕ
  pub updated_at : ℕ

-- The tables, the next UUID to be handed out and the reading of the repositories' clock
-- (`RepositoryBase._now`). The history is a bag of rows, the newest one first.
pub record Db : Type 0 where
  pub jobs : Table Job
  pub history : List HistoryRow
  pub schedules : Table Schedule
  pub outbox : Table OutboxRow
  pub claims : Table Claim
  pub commands : Table Command
  pub idempotency_keys : Table KeyRow
  pub validation_attempts : Table ValidationAttempt
  pub processing_attempts : Table ProcessingAttempt
  pub delivery_attempts : Table DeliveryAttempt
  pub output_manifests : Table OutputManifestRow
  pub sources : Table FolderRow
  pub destinations : Table FolderRow
  pub next_uuid : ℕ
  pub now : ℕ

-- Every UUID that is handed out is a new one.
unfoldable pub generate_uuid : Exec Db ℕ
generate_uuid db = (ok db.next_uuid, record db { next_uuid = suc db.next_uuid })
