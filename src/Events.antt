-- ===== src/Events.antt =====
-- app/events/outbox.py and the constraints of app/events/models.py: an event is checked against its
-- model, then written to the outbox as a pending row.
pub mod Schema
pub mod Dispatcher
mod Tests
use stream_lite.Base.{ℕ, suc, Bool, true, false, ◌&&◌, none, some, List, [], ◌∷◌, leb, ◌≡◌}
use stream_lite.Base.Text.{Text, text}
use stream_lite.Base.Table.{put}
use stream_lite.Base.Exec.{◌>>=◌, ◌>>◌, ok, err, raise, pure, Exec, invalid_event}
use stream_lite.Jobs.{JobState}
use stream_lite.Store.Model.{
  Stage, FailureClass, Service, Payload, retry_payload, failed_payload, processing_started_payload,
  processing_completed_payload, processing_failed_payload, delivery_started_payload,
  delivery_completed_payload, delivery_failed_payload, job_completed_payload, IdempotencyKey,
  OutboxRow, OutboxStatus, Db, generate_uuid,
}
use stream_lite.Store.Outbox.{insert_event}
use stream_lite.Routing.{is_tag}
use stream_lite.Events.Schema.{has_length, is_error_code, is_engine, is_locator, is_display_path}

abbrev pub lifecycle_stream_name : Text
lifecycle_stream_name = text "stream_lite.lifecycle"

abbrev pub dead_letter_stream_name : Text
dead_letter_stream_name = text "stream_lite.dead_letter"

-- What a service gives to enqueue_event.
pub record Event : Type 0 where
  pub schema_version : Text
  pub event_type : Text
  pub producer : Service
  pub correlation_id : ℕ
  pub job_id : ℕ
  pub watcher_id : ℕ
  pub attempt_number : ℕ
  pub occurred_at : ℕ
  pub idempotency_key : IdempotencyKey
  pub payload : Payload

-- RetryStage of the event models
abbrev pub is_retry_stage : Stage → Bool
is_retry_stage Stage.validation = true
is_retry_stage Stage.processing = true
is_retry_stage Stage.delivery = true
is_retry_stage _ = false

-- The stages that a job.failed event may name.
unfoldable pub supports_job_failed_stage : Stage → Bool
supports_job_failed_stage Stage.event = false
supports_job_failed_stage _ = true

abbrev is_final_class : FailureClass → Bool
is_final_class FailureClass.retryable = false
is_final_class _ = true

-- The final states that a job.completed event may name.
abbrev is_completion : JobState → Bool
is_completion JobState.completed = true
is_completion JobState.completed_with_delivery_errors = true
is_completion _ = false

abbrev are_tags : List Text → Bool
are_tags [] = true
are_tags (tag ∷ tags) = is_tag tag && are_tags tags

-- model_validate of the payload models
unfoldable pub validate_payload : Payload → Bool
unfolding supports_job_failed_stage is_engine
validate_payload (retry_payload next_stage due_at backoff max_attempts reason) =
    is_retry_stage next_stage && (leb 1 max_attempts && has_length 1 256 reason)
validate_payload (failed_payload class stage code message) =
    is_final_class class
    && (supports_job_failed_stage stage && (is_error_code code && has_length 1 512 message))
validate_payload (processing_started_payload engine version input_locator started_at) =
    is_engine engine && (has_length 1 64 version && is_locator input_locator)
validate_payload (processing_completed_payload engine manifest output_locator rows seconds) =
    is_engine engine && is_locator output_locator
validate_payload (processing_failed_payload engine code message retryable) =
    is_engine engine && (is_error_code code && has_length 1 512 message)
validate_payload (delivery_started_payload folder path matched_tags manifest started_at) =
    is_display_path path && are_tags matched_tags
validate_payload (delivery_completed_payload folder path manifest bytes completed_at delay) =
    is_display_path path
validate_payload (delivery_failed_payload folder path code message retryable) =
    is_display_path path && (is_error_code code && has_length 1 512 message)
validate_payload (job_completed_payload final_state successes failures completed_at) =
    is_completion final_state

-- The row of a validated event.
unfoldable pub event_row : Event → ℕ → ℕ → OutboxRow
event_row e event_id now = record {
  event_id = event_id;
  schema_version = e.schema_version;
  event_type = e.event_type;
  stream_name = lifecycle_stream_name;
  producer = e.producer;
  job_id = some e.job_id;
  watcher_id = some e.watcher_id;
  correlation_id = e.correlation_id;
  idempotency_key = e.idempotency_key;
  attempt_number = some e.attempt_number;
  occurred_at = e.occurred_at;
  payload_json = e.payload;
  status = OutboxStatus.pending;
  publish_attempts = 0;
  next_publish_at = none;
  published_at = none;
  published_stream_id = none;
  last_error_code = none;
  updated_at = now;
}

abbrev checked : Bool → Exec Db (Unit {0})
checked true = pure tt
checked false = raise invalid_event

unfoldable pub enqueue_event : Event → Exec Db ℕ
unfolding generate_uuid insert_event
enqueue_event e = do
  event_id ← generate_uuid
  checked (validate_payload e.payload)
  λ db. insert_event (event_row e event_id db.now) db

module _ (e : Event) (db : Db) where
  -- What the session holds after an event was enqueued.
  abbrev pub after_event : Db
  after_event = record db {
    outbox =
        put (suc db.next_uuid) (record (event_row e db.next_uuid db.now) { publish_attempts = 0 })
          db.outbox;
    next_uuid = suc (suc db.next_uuid);
  }

  pub enqueue_event-accepted :
      validate_payload e.payload ≡ true → enqueue_event e db ≡ (ok (suc db.next_uuid), after_event)
  unfolding enqueue_event
  enqueue_event-accepted h = rw h

  pub enqueue_event-refused :
      validate_payload e.payload ≡ false
      → enqueue_event e db ≡ (err invalid_event, record db { next_uuid = suc db.next_uuid })
  unfolding enqueue_event
  enqueue_event-refused h = rw h
