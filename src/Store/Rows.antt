-- ===== src/Store/Rows.antt =====
-- The rows of app/db/models.py for commands, idempotency keys, the attempts of the stages and the
-- output manifests. Every model has the columns `created_at` and `updated_at`.
use stream_lite.Base.{ℕ, Bool, Option, List}
use stream_lite.Base.Text.{Text}

-- COMMAND_STATUS
pub data CommandStatus : Type 0 where
  accepted running succeeded failed expired : CommandStatus

pub record Command : Type 0 where
  pub command_type : Text
  pub target_resource_type : Text
  pub target_resource_id : ℕ
  pub requested_by : Text
  pub operator_reason : Text
  pub idempotency_key : Text
  pub status : CommandStatus
  pub result_locator : Option Text
  pub error_code : Option Text
  pub completed_at : Option ℕ
  pub correlation_id : ℕ
  pub created_at : ℕ
  pub updated_at : ℕ

-- The JSON answer that is kept for a repeated request; its status is always "accepted".
pub record AcceptedResponse : Type 0 where
  pub command_id : ℕ
  pub target_resource_type : Text
  pub target_resource_id : ℕ
  pub accepted_at : ℕ
  pub correlation_id : ℕ

pub record KeyRow : Type 0 where
  pub scope : Text
  pub idempotency_key : Text
  pub payload_hash : Option Text
  pub target_type : Text
  pub target_id : ℕ
  pub first_response_json : Option AcceptedResponse
  pub created_at : ℕ

pub data AttemptStatus : Type 0 where
  pending started processed delivered failed : AttemptStatus

pub record ProcessingAttempt : Type 0 where
  pub job_id : ℕ
  pub attempt_number : ℕ
  pub engine : Text
  pub engine_version : Text
  pub input_locator : Text
  pub output_locator : Option Text
  pub summary_locator : Option Text
  pub row_count : Option ℕ
  pub record_count : Option ℕ
  pub byte_count : Option ℕ
  pub started_at : ℕ
  pub completed_at : Option ℕ
  pub duration_seconds : Option ℕ
  pub status : AttemptStatus
  pub error_code : Option Text
  pub correlation_id : ℕ
  pub created_at : ℕ
  pub updated_at : ℕ

pub record DeliveryAttempt : Type 0 where
  pub job_id : ℕ
  pub destination_folder_id : ℕ
  pub attempt_number : ℕ
  pub matched_route_tags : List Text
  pub temporary_locator : Option Text
  pub finalized_locator : Option Text
  pub manifest_locator : Option Text
  pub checksum_sha256 : Option Text
  pub status : AttemptStatus
  pub failure_code : Option Text
  pub started_at : ℕ
  pub completed_at : Option ℕ
  pub correlation_id : ℕ
  pub created_at : ℕ
  pub updated_at : ℕ

-- The statuses of a validation attempt that the code tells apart: "valid" and all others.
pub record ValidationAttempt : Type 0 where
  pub job_id : ℕ
  pub attempt_number : ℕ
  pub validation_status : Text
  pub rules_applied : List Text
  pub reason_codes : List Text
  pub started_at : ℕ
  pub completed_at : Option ℕ
  pub duration_seconds : Option ℕ
  pub correlation_id : ℕ
  pub created_at : ℕ

-- The entry of `destination_outcomes` for one destination.
pub record DestinationOutcome : Type 0 where
  pub destination_folder_id : ℕ
  pub destination_display_path : Text
  pub matched_route_tags : List Text
  pub is_delivered : Bool
  pub finalized_locator : Option Text
  pub checksum_sha256 : Option Text
  pub bytes_written : Option ℕ
  pub reason_code : Option Text
  pub retryable : Bool

pub data ManifestStatus : Type 0 where
  processed delivered completed_with_delivery_errors failed : ManifestStatus

pub record OutputManifestRow : Type 0 where
  pub job_id : ℕ
  pub watcher_id : ℕ
  pub schema_version : Text
  pub manifest_locator : Text
  pub processing_summary_locator : Text
  pub produced_output_locators : List Text
  pub source_sha256 : Option Text
  pub output_sha256 : Option Text
  pub destination_outcomes : List DestinationOutcome
  pub finalized_at : ℕ
  pub status : ManifestStatus
  pub correlation_id : ℕ
  pub created_at : ℕ

-- OPERATIONAL_STATUS
pub data Health : Type 0 where
  green yellow red : Health

-- A row of watcher_sources or of watcher_destinations, which have the same columns.
pub record FolderRow : Type 0 where
  pub watcher_id : ℕ
  pub display_path : Text
  pub normalized_path : Text
  pub route_tags : List Text
  pub health_status : Health
  pub reason_code : Option Text
  pub enabled : Bool
  pub created_at : ℕ
  pub updated_at : ℕ
