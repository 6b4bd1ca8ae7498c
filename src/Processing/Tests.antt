-- ===== src/Processing/Tests.antt =====
-- The theorems about the processing worker at a session with a validated job.
use stream_lite.Base.{◌≡◌, refl, none, some, keep, sort_by}
use stream_lite.Base.Exec.{ok}
use stream_lite.Base.Table.{get, put}
use stream_lite.Base.Text.{text, lower_ascii, split, text_eq}
use stream_lite.Events.{event_row, validate_payload, supports_job_failed_stage, enqueue_event}
use stream_lite.Events.Schema.{
  is_safe_reference, is_safe_locator, has_drive, is_locator, is_error_code, starts_with,
  has_parent_segment, has_char, is_engine, is_display_path,
}
use stream_lite.Jobs.{JobState, state_eq, is_terminal, allowed}
use stream_lite.Processing.{
  Readings, Outcome, ExecutionResult, reason_processing_completed, resolve_attempt_number,
  is_processable_state,
}
use stream_lite.Processing.Worker.{
  process_one, artifacts_of, fail_to, complete, begin_attempt, complete_with, run_adapter,
  build_worker_failure, claim_and_run, run_claimed, attempt_run,
}
use stream_lite.Processing.Worker.Answers.{process_one-tells}
use stream_lite.Processing.Worker.Frees.{process_one-frees}
use stream_lite.Routing.{is_tag, all_tag_chars}
use stream_lite.Samples.{sample_claim}
use stream_lite.Samples.Parts.{steady_adapter}
use stream_lite.Samples.Sessions.{validated_db}
use stream_lite.Store.Attempts.{
  create_processing_attempt, create_output_manifest, complete_processing_attempt,
  fail_processing_attempt, select_first, get_latest_attempt,
}
use stream_lite.Store.Audit.{state_of}
use stream_lite.Store.Claims.{claim_stage, release_stage, find_claim}
use stream_lite.Store.Jobs.{moved, max_sequence, update_state, append_state_history, move}
use stream_lite.Store.Model.{generate_uuid}
use stream_lite.Store.Outbox.{insert_event}

abbrev clock : Readings
clock = record { started_at = 300; failed_at = 310; released_at = 320 }

abbrev processed_result : ExecutionResult
processed_result = record {
  status = Outcome.processed;
  final_state = some JobState.processed;
  reason_code = reason_processing_completed;
  attempt_number = some 1;
  event_type = some (text "processing.completed");
  error_code = none;
  output_manifest_id = some 90;
}

-- The job 8 is processed; the lease on job 7 is not touched.
processed_first :
    let (result, after) = process_one steady_adapter 3 clock 8 none validated_db in
    (result ≡ ok processed_result) × (get 40 after.claims ≡ some sample_claim)
unfolding all_tag_chars allowed append_state_history artifacts_of attempt_run begin_attempt
    build_worker_failure claim_and_run claim_stage complete complete_processing_attempt
    complete_with create_output_manifest create_processing_attempt enqueue_event event_row
    fail_processing_attempt fail_to find_claim generate_uuid get get_latest_attempt has_char
    has_drive has_parent_segment insert_event is_display_path is_engine is_error_code is_locator
    is_processable_state is_safe_locator is_safe_reference is_tag is_terminal keep lower_ascii
    max_sequence move moved process_one put release_stage resolve_attempt_number run_adapter
    run_claimed select_first sort_by split starts_with state_eq supports_job_failed_stage text
    text_eq update_state validate_payload
processed_first = (refl, refl)

process_one-frees_example : get 40 validated_db.claims ≡ some sample_claim
process_one-frees_example =
    process_one-frees steady_adapter 3 clock 8 none validated_db 40 sample_claim processed_first.1
      refl

process_one-tells_example :
    some JobState.processed
    ≡ state_of (get 8 (process_one steady_adapter 3 clock 8 none validated_db).1.jobs)
process_one-tells_example =
    process_one-tells steady_adapter 3 clock 8 none validated_db processed_result processed_first.0
