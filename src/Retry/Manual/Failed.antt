-- ===== src/Retry/Manual/Failed.antt =====
-- Which stage of a job failed last (_infer_failed_stage of app/retry/manual.py).
use stream_lite.Base.{
  ℕ, Bool, true, false, ◌&&◌, ◌||◌, Option, none, some, ◌==◌, ltb, leb, if◌then◌else◌, List, [],
  ◌∷◌, keep, sort_by,
}
use stream_lite.Base.Text.{Text}
use stream_lite.Store.Rows.{ProcessingAttempt, DeliveryAttempt, AttemptStatus}
use stream_lite.Store.Model.{Stage, Schedule, Db}
use stream_lite.Store.Jobs.{or_old}
use stream_lite.Store.Attempts.{select_first}

pub record FailedStageContext : Type 0 where
  pub stage : Stage
  pub attempt_number : Option ℕ
  pub error_code : Option Text
  pub failed_at : ℕ

-- completed_at DESC NULLS LAST
abbrev later : Option ℕ → Option ℕ → Bool
later none b = false
later (some a) none = true
later (some a) (some b) = ltb b a

abbrev same_time : Option ℕ → Option ℕ → Bool
same_time none none = true
same_time (some a) (some b) = a == b
same_time _ _ = false

abbrev pub is_failed : AttemptStatus → Bool
is_failed AttemptStatus.failed = true
is_failed _ = false

abbrev later_delivery : DeliveryAttempt → DeliveryAttempt → Bool
later_delivery a b =
    later a.completed_at b.completed_at
    || (same_time a.completed_at b.completed_at && ltb b.created_at a.created_at)

abbrev later_processing : ProcessingAttempt → ProcessingAttempt → Bool
later_processing a b =
    later a.completed_at b.completed_at
    || (same_time a.completed_at b.completed_at && ltb b.created_at a.created_at)

unfoldable pub latest_delivery_failure : ℕ → Db → Option (ℕ × DeliveryAttempt)
unfolding select_first
latest_delivery_failure job_id db =
    select_first later_delivery (λ row. row.job_id == job_id && is_failed row.status)
      db.delivery_attempts

unfoldable pub latest_processing_failure : ℕ → Db → Option (ℕ × ProcessingAttempt)
unfolding select_first
latest_processing_failure job_id db =
    select_first later_processing (λ row. row.job_id == job_id && is_failed row.status)
      db.processing_attempts

abbrev pub delivery_context : ℕ × DeliveryAttempt → FailedStageContext
delivery_context (id, row) = record {
  stage = Stage.delivery;
  attempt_number = some row.attempt_number;
  error_code = row.failure_code;
  failed_at = or_old row.completed_at row.created_at;
}

abbrev pub processing_context : ℕ × ProcessingAttempt → FailedStageContext
processing_context (id, row) = record {
  stage = Stage.processing;
  attempt_number = some row.attempt_number;
  error_code = row.error_code;
  failed_at = or_old row.completed_at row.created_at;
}

-- failed_stage in _FAILED_STAGES
abbrev pub is_failed_stage : Stage → Bool
is_failed_stage Stage.processing = true
is_failed_stage Stage.delivery = true
is_failed_stage _ = false

-- ORDER BY created_at DESC, retry_schedule_id DESC
abbrev later_schedule : ℕ × Schedule → ℕ × Schedule → Bool
later_schedule (i, a) (j, b) =
    ltb b.created_at a.created_at || (a.created_at == b.created_at && ltb j i)

abbrev head : List (ℕ × Schedule) → Option (ℕ × Schedule)
head [] = none
head (row ∷ rows) = some row

-- _latest_retry_schedule
unfoldable pub latest_retry_schedule : ℕ → Db → Option (ℕ × Schedule)
latest_retry_schedule job_id db =
    head (sort_by later_schedule (keep (λ r. r.1.job_id == job_id) db.schedules))

unfoldable pub latest_stage_schedule : ℕ → Db → Option (ℕ × Schedule)
latest_stage_schedule job_id db = head (
    sort_by later_schedule
      (keep (λ r. r.1.job_id == job_id && is_failed_stage r.1.failed_stage) db.schedules))

abbrev pub schedule_context : Option (ℕ × Schedule) → Option FailedStageContext
schedule_context none = none
schedule_context (some (id, row)) =
    if is_failed_stage row.failed_stage
    then some (record {
      stage = row.failed_stage;
      attempt_number = some row.attempt_number;
      error_code = row.last_error_code;
      failed_at = row.created_at;
    })
    else none

-- Of two failed attempts the later one counts, and the delivery where they are level.
abbrev pub latest_context :
    Option (ℕ × DeliveryAttempt)
    → Option (ℕ × ProcessingAttempt)
    → Option (ℕ × Schedule)
    → Option FailedStageContext
latest_context (some d) (some p) row =
    if leb (processing_context p).failed_at (delivery_context d).failed_at
    then some (delivery_context d)
    else some (processing_context p)
latest_context (some d) none row = some (delivery_context d)
latest_context none (some p) row = some (processing_context p)
latest_context none none row = schedule_context row

unfoldable pub infer_failed_stage : ℕ → Db → Option FailedStageContext
unfolding latest_delivery_failure latest_processing_failure latest_stage_schedule
infer_failed_stage job_id db =
    latest_context (latest_delivery_failure job_id db) (latest_processing_failure job_id db)
      (latest_stage_schedule job_id db)

abbrev at_least_one : Option ℕ → Option ℕ
at_least_one none = none
at_least_one (some n) = if leb 1 n then some n else none

abbrev greatest : Option ℕ → Option ℕ → Option ℕ
greatest none b = b
greatest (some a) none = some a
greatest (some a) (some b) = some (if ltb a b then b else a)

-- _resolve_current_attempt_number
unfoldable pub resolve_current_attempt_number : Option ℕ → Option ℕ → Option ℕ
resolve_current_attempt_number job_attempt_number failed_attempt_number =
    greatest (at_least_one job_attempt_number) (at_least_one failed_attempt_number)
