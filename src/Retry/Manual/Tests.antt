-- ===== src/Retry/Manual/Tests.antt =====
-- The theorems about manual retries at a session with a job whose processing timed out.
use stream_lite.Base.{Option, keep, sort_by, ◌≡◌, refl, true, false, none, some, if◌then◌else◌}
use stream_lite.Base.Exec.{ok}
use stream_lite.Base.Table.{get}
use stream_lite.Base.Text.{Text, text, text_eq, strip, lower, upper, is_empty, ascii_casing}
use stream_lite.Jobs.{state_eq}
use stream_lite.Retry.Backoff.{retry_allowed, next_attempt_number}
use stream_lite.Retry.Catalog.{
  catalog, event_catalog, validation_catalog, processing_catalog, delivery_catalog, routing_catalog,
}
use stream_lite.Retry.Classifier.{
  classified, classify, normalize_stage, normalize_error_code, catalog_get, entry_for,
}
use stream_lite.Retry.Manual.{ManualRetryResult, passed, ◌>>=◌, require, or_refuse, of_result}
use stream_lite.Retry.Manual.Accept.{
  Request, result, refusal, resolved_reason, request_hash, key_conflict,
  accept_manual_retry_command,
}
use stream_lite.Retry.Manual.Failed.{
  infer_failed_stage, latest_delivery_failure, latest_processing_failure, latest_stage_schedule,
  latest_retry_schedule, resolve_current_attempt_number,
}
use stream_lite.Retry.Manual.Locator.{
  command_result_locator, parse_retry_schedule_id, parse_manual_override, locator_round_trip,
}
use stream_lite.Retry.Manual.Plan.{Plan, plan_retry, no_job}
use stream_lite.Retry.Manual.Refused.{Because, accept_manual_retry_command-refusal}
use stream_lite.Retry.Manual.Repeat.{keyed, accept_manual_retry_command-twice}
use stream_lite.Retry.Manual.Success.{Accepted, accept_manual_retry_command-Accepted}
use stream_lite.Samples.Parts.{unary, fixed_policy}
use stream_lite.Samples.Sessions.{failed_job, failed_db}
use stream_lite.Store.Attempts.{select_first}
use stream_lite.Store.Commands.{find_key}
use stream_lite.Store.Model.{Stage}

locator_round_trip_example :
    (parse_retry_schedule_id unary (some (command_result_locator unary 5 true)) ≡ some 5)
    × (parse_manual_override (some (command_result_locator unary 5 true)) ≡ some true)
locator_round_trip_example = locator_round_trip unary 5 true

abbrev plan : Plan
plan = record {
  job = failed_job;
  failed_context = record {
    stage = Stage.processing;
    attempt_number = some 1;
    error_code = some (text "PROCESSOR_TIMEOUT");
    failed_at = 120;
  };
  classification = classified none Stage.processing (text "PROCESSOR_TIMEOUT");
  next_attempt_number = 2;
  correlation_id = 9;
}

planned : plan_retry ascii_casing unary fixed_policy 7 (some 9) 9 failed_db ≡ passed plan
unfolding plan_retry get ◌>>=◌ require or_refuse of_result state_eq infer_failed_stage
    latest_delivery_failure latest_processing_failure select_first keep sort_by
    latest_stage_schedule latest_retry_schedule classify normalize_stage normalize_error_code lower
    upper strip text text_eq entry_for catalog_get catalog event_catalog validation_catalog
    processing_catalog delivery_catalog routing_catalog retry_allowed next_attempt_number
    resolve_current_attempt_number
planned = refl

abbrev first : Request
first = keyed 7 (text "key-1") (text "operator") (some (text "again")) (some 9)

reason_given : is_empty (resolved_reason first) ≡ false
unfolding strip text
reason_given = refl

abbrev hash : Text → Option Text → Text
hash by why = by

accept_manual_retry_command-Accepted_example :
    Accepted ascii_casing unary hash fixed_policy first 300
      (some (text "key-1"))
      plan
      200
      failed_db
      (accept_manual_retry_command ascii_casing unary hash fixed_policy first 300 failed_db)
unfolding find_key
accept_manual_retry_command-Accepted_example =
    accept_manual_retry_command-Accepted ascii_casing unary hash fixed_policy first 300 failed_db
      plan reason_given refl planned

accept_manual_retry_command-twice_example :
    let second = keyed 7 (text "key-1") (text "other") (some (text "again")) (some 11) in
    let (answer, db') =
      accept_manual_retry_command ascii_casing unary hash fixed_policy first 300 failed_db in
    (told : ManualRetryResult) × (answer ≡ ok (result told))
    × (accept_manual_retry_command ascii_casing unary hash fixed_policy second 400 db' ≡ (
      ok (
          if text_eq (request_hash hash first) (request_hash hash second)
          then result (record told { idempotency_reused = true })
          else refusal (key_conflict 7 11)),
      db',
    ))
unfolding find_key strip text
accept_manual_retry_command-twice_example =
    accept_manual_retry_command-twice ascii_casing unary hash fixed_policy 7 (text "key-1")
      (text "operator") (some (text "again")) (some 9) 300 (text "other") (some (text "again"))
      (some 11) 400 plan failed_db reason_given refl planned refl

abbrev missing : Request
missing = record first { job_id = 8; idempotency_key = none }

refused_first :
    (accept_manual_retry_command ascii_casing unary hash fixed_policy missing 300 failed_db).0
    ≡ ok (refusal (no_job unary 8 9))
unfolding accept_manual_retry_command strip text plan_retry get ◌>>=◌ or_refuse
refused_first = refl

accept_manual_retry_command-refusal_example :
    ((accept_manual_retry_command ascii_casing unary hash fixed_policy missing 300 failed_db).1
      ≡ failed_db)
    × Because missing failed_db (no_job unary 8 9)
accept_manual_retry_command-refusal_example =
    accept_manual_retry_command-refusal ascii_casing unary hash fixed_policy missing 300 failed_db
      (no_job unary 8 9) refused_first
