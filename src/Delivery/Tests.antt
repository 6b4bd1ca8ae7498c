-- ===== src/Delivery/Tests.antt =====
-- The theorems about the delivery worker at a session with a processed job.
use stream_lite.Base.{true, [], ◌∷◌, ◌==◌, ℕ, ◌≡◌, refl, none, some, keep, sort_by}
use stream_lite.Base.Exec.{ok}
use stream_lite.Base.Table.{get, put}
use stream_lite.Base.Text.{
  text, ascii_casing, upper, is_space, upper_char, split, text_eq, lstrip, strip, lower_ascii,
}
use stream_lite.Delivery.{
  Files, Readings, Status, WorkerResult, reason_delivery_completed, is_deliverable_state,
}
use stream_lite.Delivery.Keeps.Answers.{deliver_one-tells}
use stream_lite.Delivery.Keeps.Frees.{deliver_one-frees}
use stream_lite.Delivery.Keeps.Outcomes.{Settled, deliver_claimed-Settled}
use stream_lite.Delivery.Outcome.{delivered_outcomes, failed_outcomes, final_state_from_outcomes}
use stream_lite.Delivery.Run.{deliver_one, resolve_targets}
use stream_lite.Delivery.Targets.{
  record_transfer_health_failure, deliver_target, deliver_targets, finish_delivered, finish_failed,
  Work,
}
use stream_lite.Delivery.Worker.{
  deliver_claimed, record_manifest, tell_completed, fail_without_delivery_targets, finalize,
  finish_job, deliver_to,
}
use stream_lite.Events.{enqueue_event, event_row, supports_job_failed_stage, validate_payload}
use stream_lite.Events.Schema.{
  has_parent_segment, is_safe_reference, has_drive, starts_with, is_safe_locator, has_char,
  is_locator, is_error_code, is_display_path, is_engine,
}
use stream_lite.Jobs.{JobState, state_eq, allowed, is_terminal}
use stream_lite.Processing.{resolve_attempt_number}
use stream_lite.Routing.{
  normalize_route_tags, has_text, clean, normalize_each, common, all_tag_chars, is_tag,
}
use stream_lite.Routing.Delivery.{
  resolve_each, resolve_delivery_targets, enabled_destinations, Target,
}
use stream_lite.Samples.{sample_claim}
use stream_lite.Samples.Parts.{steady_files}
use stream_lite.Samples.Sessions.{other_job, processed_row, processed_db}
use stream_lite.Store.Attempts.{
  create_output_manifest, fail_delivery_attempt, select_first, complete_delivery_attempt,
  latest_processed_manifest, create_delivery_attempt,
}
use stream_lite.Store.Audit.{state_of}
use stream_lite.Store.Claims.{release_stage, claim_stage, find_claim}
use stream_lite.Store.Folders.{
  list_destinations, text_lt, list_sources, update_source_health, update_destination_health,
}
use stream_lite.Store.Jobs.{max_sequence, update_state, moved, append_state_history, move}
use stream_lite.Store.Model.{generate_uuid}
use stream_lite.Store.Outbox.{insert_event}

abbrev clock : Readings
clock = record {
  claim_started_at = 300;
  destination_started_at = λ i. 310;
  destination_completed_at = λ i. 320;
  finalized_at = 330;
  released_at = 340;
}

abbrev delivered_result : WorkerResult
delivered_result = record {
  status = Status.delivered;
  final_state = some JobState.completed;
  reason_code = reason_delivery_completed;
  attempt_number = some 1;
  event_type = some (text "job.completed");
  output_manifest_id = some 1000;
  successful_destination_count = 1;
  failed_destination_count = 0;
}

-- The job 8 is delivered; the lease on job 7 is not touched.
delivered_first :
    let (result, after) = deliver_one ascii_casing steady_files 3 clock 8 none processed_db in
    (result ≡ ok delivered_result) × (get 40 after.claims ≡ some sample_claim)
unfolding all_tag_chars allowed append_state_history claim_stage clean common
    complete_delivery_attempt create_delivery_attempt create_output_manifest deliver_claimed
    deliver_one deliver_target deliver_targets deliver_to delivered_outcomes enabled_destinations
    enqueue_event event_row fail_delivery_attempt fail_without_delivery_targets failed_outcomes
    final_state_from_outcomes finalize find_claim finish_delivered finish_failed finish_job
    generate_uuid get has_char has_drive has_parent_segment has_text insert_event
    is_deliverable_state is_display_path is_engine is_error_code is_locator is_safe_locator
    is_safe_reference is_space is_tag is_terminal keep latest_processed_manifest list_destinations
    list_sources lower_ascii lstrip max_sequence move moved normalize_each normalize_route_tags put
    record_manifest record_transfer_health_failure release_stage resolve_attempt_number
    resolve_delivery_targets resolve_each resolve_targets select_first sort_by split starts_with
    state_eq strip supports_job_failed_stage tell_completed text text_eq text_lt
    update_destination_health update_source_health update_state upper upper_char validate_payload
delivered_first = (refl, refl)

deliver_one-frees_example : get 40 processed_db.claims ≡ some sample_claim
deliver_one-frees_example =
    deliver_one-frees ascii_casing steady_files 3 clock 8 none processed_db 40 sample_claim
      delivered_first.1 refl

deliver_one-tells_example :
    some JobState.completed
    ≡ state_of (get 8 (deliver_one ascii_casing steady_files 3 clock 8 none processed_db).1.jobs)
deliver_one-tells_example =
    deliver_one-tells ascii_casing steady_files 3 clock 8 none processed_db delivered_result
      delivered_first.0

abbrev started_work : Work
started_work = record {
  job_id = 8;
  job = other_job JobState.processed;
  attempt_number = 1;
  correlation_id = 4;
  manifest_row = processed_row;
  manifest = record {
    produced_output_locators = text "/data/out/a.parquet" ∷ [];
    source_sha256 = text "aa";
  };
  final_output_manifest_id = 900;
}

-- One copy arrives, the other fails.
abbrev broken_files : Files
broken_files = record steady_files {
  copy_output_to_destination = λ job_id job source target started_at. ok (record {
    is_delivered = target.destination_folder_id == 5;
    finalized_locator = some source;
    checksum_sha256 = some (text "aa");
    bytes_written = 50;
    reason_code = some (text "SOURCE_TRANSFER_FAILED");
    retryable = true;
    operator_message = text "done";
  });
}

abbrev target : ℕ → Target
target id = record {
  destination_folder_id = id;
  destination_display_path = text "/out";
  destination_container_locator = text "/data/dest";
  destination_route_tags = text "A" ∷ [];
  matched_route_tags = text "A" ∷ [];
}

abbrev half_delivered : WorkerResult
half_delivered = record delivered_result {
  final_state = some JobState.completed_with_delivery_errors;
  reason_code = text "SOURCE_TRANSFER_FAILED";
  output_manifest_id = some 900;
  failed_destination_count = 1;
}

half_first :
    (deliver_claimed broken_files 3 clock started_work
      (text "/data/out/a.parquet")
      (target 5 ∷ target 6 ∷ [])
      processed_db).0
    ≡ ok half_delivered
unfolding all_tag_chars allowed append_state_history complete_delivery_attempt
    create_delivery_attempt create_output_manifest deliver_claimed deliver_target deliver_targets
    delivered_outcomes enqueue_event event_row fail_delivery_attempt failed_outcomes
    final_state_from_outcomes finalize finish_delivered finish_failed finish_job generate_uuid get
    has_char has_drive has_parent_segment insert_event is_display_path is_engine is_error_code
    is_locator is_safe_locator is_safe_reference is_tag is_terminal keep lower_ascii max_sequence
    move moved put record_manifest record_transfer_health_failure split starts_with state_eq
    supports_job_failed_stage tell_completed text text_eq update_destination_health
    update_source_health update_state validate_payload
half_first = refl

deliver_claimed-Settled_example : Settled 3 1 2 1 half_delivered
deliver_claimed-Settled_example =
    deliver_claimed-Settled broken_files 3 clock started_work (text "/data/out/a.parquet")
      (target 5 ∷ target 6 ∷ []) processed_db half_delivered half_first
