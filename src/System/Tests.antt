-- ===== src/System/Tests.antt =====
-- The services together at a concrete run: a processing failure is scheduled for
-- a retry, which is released once it is due.
use stream_lite.Base.{◌+◌, ◌≡◌, refl, none, some}
use stream_lite.Base.Table.{get}
use stream_lite.Base.Text.{text, ascii_casing}
use stream_lite.Jobs.{JobState}
use stream_lite.Retry.Scheduler.Due.{process_due_retries}
use stream_lite.Retry.Scheduler.Schedule.{schedule_retry_for_job}
use stream_lite.Samples.{sample_db, sample_job, sample_db-Audited}
use stream_lite.Samples.Parts.{unary, fixed_policy, steady_adapter, steady_files}
use stream_lite.Store.Audit.{Audited}
use stream_lite.Store.Lives.{Lived}
use stream_lite.Store.Model.{Db}
use stream_lite.System.{Setting, Run, idle, and_then, schedules, releases, Run-refines}

abbrev setting : Setting
setting = record {
  casing = ascii_casing;
  uuids = unary;
  policy = fixed_policy;
  payload_hash = λ by why. by;
  adapter = steady_adapter;
  files = steady_files;
  retry_max_attempts = 3;
}

abbrev failed_once : Db
failed_once =
    (schedule_retry_for_job ascii_casing fixed_policy 7 (text "processing")
      (text "PROCESSOR_TIMEOUT") none 300 sample_db).1

abbrev released : Db
released = (process_due_retries 10 none 1000300 (λ i. 1000300 + i) failed_once).1

both_ran : Run setting sample_db released
both_ran =
    and_then failed_once
      (and_then sample_db idle
        (schedules sample_db 7 (text "processing") (text "PROCESSOR_TIMEOUT") none 300))
      (releases failed_once 10 none 1000300 (λ i. 1000300 + i))

found_job : get 7 sample_db.jobs ≡ some sample_job
unfolding get
found_job = refl

Run-refines_example : Audited released × Lived JobState.processing (get 7 released.jobs)
Run-refines_example =
    Run-refines setting sample_db released 7 sample_job both_ran sample_db-Audited found_job
