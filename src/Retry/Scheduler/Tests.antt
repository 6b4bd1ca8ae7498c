-- ===== src/Retry/Scheduler/Tests.antt =====
-- The theorems about due retries at a concrete session: a processing timeout of job 7, scheduled at
-- 300 for a second later.
use stream_lite.Base.{◌≤◌, keep, sort_by, ◌+◌, ◌≡◌, ◌≤◌, refl, none, some, [], ◌∷◌, arith, false}
use stream_lite.Base.Text.{text}
use stream_lite.Base.Table.{get, put}
use stream_lite.Base.Exec.{ok}
use stream_lite.Jobs.{JobState, transition_allowed}
use stream_lite.Store.Model.{Db, Schedule, Stage, FailureClass, ScheduleStatus, generate_uuid}
use stream_lite.Store.Jobs.{move, update_state, append_state_history}
use stream_lite.Store.Retry.{claim_due_retries, mark_retry_attempted}
use stream_lite.Samples.{sample_db, sample_job}
use stream_lite.Retry.Scheduler.{
  Status, RetryDueResult, retry_target_state, reason_retry_due, reason_retry_schedule_not_scheduled,
}
use stream_lite.Retry.Scheduler.Due.{
  process_due_retry, due_result, for_release, release, RetryBatchResult, process_due_retries,
  process_each, counted,
}
use stream_lite.Retry.Scheduler.Due.Returns.{Returns, process_due_retries-Returns}
use stream_lite.Retry.Scheduler.Due.Once.{process_due_retry-once}
use stream_lite.Retry.Scheduler.Due.Batch.{process_due_retries-skips_none}
use stream_lite.Base.Text.{Text, ascii_casing, strip, lower, upper, text_eq}
use stream_lite.Events.{enqueue_event, validate_payload}
use stream_lite.Store.Retry.{schedule_retry}
use stream_lite.Retry.Catalog.{
  catalog, event_catalog, validation_catalog, processing_catalog, delivery_catalog, routing_catalog,
}
use stream_lite.Retry.Classifier.{
  classify, normalize_stage, normalize_error_code, catalog_get, entry_for,
}
use stream_lite.Retry.Backoff.{Policy, retry_allowed, next_attempt_number}
use stream_lite.Retry.Scheduler.{
  RetryScheduleResult, reason_retry_scheduled, retry_scheduled, resolve_attempt_number,
  enqueue_retry_scheduled,
}
use stream_lite.Retry.Scheduler.Schedule.{schedule_retry_for_job, decide_retry, schedule_next}
use stream_lite.Retry.Scheduler.Answers.{JobIs, schedule_retry_for_job-JobIs}
use stream_lite.Retry.Scheduler.Answers.Due.{process_due_retry-JobIs}

abbrev waiting : Schedule
waiting = record {
  job_id = 7;
  failed_stage = Stage.processing;
  failure_class = FailureClass.retryable;
  due_at = 150;
  backoff_micros = 50;
  attempt_number = 2;
  max_attempts = 3;
  jitter_enabled = false;
  status = ScheduleStatus.scheduled;
  next_stage = Stage.processing;
  last_error_code = some (text "PROCESSOR_TIMEOUT");
  correlation_id = 4;
  created_at = 100;
  updated_at = 100;
}

abbrev waiting_db : Db
waiting_db = record sample_db {
  jobs = (7, record sample_job { state = JobState.retry_pending }) ∷ [];
  schedules = (50, waiting) ∷ [];
}

abbrev released : RetryDueResult
released = due_result waiting Status.attempted reason_retry_due (some JobState.processing)

released_first : (process_due_retry 50 none 200 waiting_db).0 ≡ ok released
unfolding process_due_retry for_release release retry_target_state transition_allowed move
    update_state append_state_history mark_retry_attempted get put generate_uuid
released_first = refl

process_due_retry-once_example :
    (row : Schedule) × (process_due_retry 50 none 900 (process_due_retry 50 none 200 waiting_db).1
      ≡ (
        ok (due_result row Status.skipped reason_retry_schedule_not_scheduled none),
        (process_due_retry 50 none 200 waiting_db).1,
      ))
process_due_retry-once_example =
    process_due_retry-once 50 none none 200 900 waiting_db released released_first refl

abbrev one_released : RetryBatchResult
one_released = record { scanned = 1; attempted = 1; exhausted = 0; skipped = 0; failed = 0 }

batch_of_one : (process_due_retries 10 none 200 (λ i. 200 + i) waiting_db).0 ≡ ok one_released
unfolding process_due_retries process_each claim_due_retries keep sort_by counted process_due_retry
    for_release release retry_target_state transition_allowed move update_state append_state_history
    mark_retry_attempted get put generate_uuid
batch_of_one = refl

process_due_retries-skips_none_example : one_released.skipped ≡ 0
process_due_retries-skips_none_example =
    process_due_retries-skips_none 10 none 200 (λ i. 200 + i) waiting_db one_released (tt, tt)
      (λ i. omega arith) batch_of_one

abbrev policy : Policy
policy = record { max_attempts = 3; jitter_enabled = false; delay_micros = λ n. ok 1000000 }

abbrev timed_out : Text
timed_out = text "PROCESSOR_TIMEOUT"

abbrev scheduled_result : RetryScheduleResult
scheduled_result = record {
  status = Status.scheduled;
  reason_code = reason_retry_scheduled;
  final_state = some JobState.retry_pending;
  attempt_number = some 2;
  retry_schedule_id = some 1000;
  due_at = some 1000300;
  event_type = some retry_scheduled;
  final_failure_class = none;
}

scheduled_first :
    (schedule_retry_for_job ascii_casing policy 7
      (text "processing")
      timed_out
      none
      300
      sample_db).0
    ≡ ok scheduled_result
unfolding schedule_retry_for_job classify normalize_stage normalize_error_code lower upper strip
    text text_eq entry_for catalog_get catalog event_catalog validation_catalog processing_catalog
    delivery_catalog routing_catalog resolve_attempt_number decide_retry retry_target_state
    transition_allowed retry_allowed next_attempt_number schedule_next schedule_retry move
    update_state append_state_history enqueue_retry_scheduled enqueue_event get put generate_uuid
    validate_payload
scheduled_first = refl

schedule_retry_for_job-JobIs_example :
    JobIs 7 JobState.retry_pending
      (schedule_retry_for_job ascii_casing policy 7
        (text "processing")
        timed_out
        none
        300
        sample_db).1
schedule_retry_for_job-JobIs_example =
    schedule_retry_for_job-JobIs ascii_casing policy 7 (text "processing") timed_out none 300
      sample_db scheduled_result JobState.retry_pending scheduled_first refl

process_due_retry-JobIs_example :
    JobIs 7 JobState.processing (process_due_retry 50 none 200 waiting_db).1
process_due_retry-JobIs_example =
    process_due_retry-JobIs 50 none 200 waiting_db released 7 JobState.processing released_first
      refl refl

process_due_retries-Returns_example :
    Returns (process_due_retries 10 none 200 (λ i. 200 + i)) waiting_db
process_due_retries-Returns_example =
    process_due_retries-Returns 10 none 200 (λ i. 200 + i) waiting_db (tt, tt) (refl, tt)
