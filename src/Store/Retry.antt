-- ===== src/Store/Retry.antt =====
-- app/repositories/retry.py: the rows of retry_schedules.
use stream_lite.Base.{
  ◌≡◌, refl, ℕ, Bool, true, false, ◌&&◌, ◌||◌, Option, none, some, List, ◌==◌, ltb, leb, keep, take,
  sort_by,
}
use stream_lite.Base.Text.{Text}
use stream_lite.Base.Table.{get, put}
use stream_lite.Base.Exec.{ok, err, Exec, not_found, ◌>>=◌}
use stream_lite.Store.Model.{Schedule, ScheduleStatus, Db, generate_uuid}

unfoldable pub get_retry_schedule : ℕ → Exec Db (Option Schedule)
get_retry_schedule id db = (ok (get id db.schedules), db)

unfoldable pub schedule_retry : Schedule → Exec Db ℕ
unfolding generate_uuid
schedule_retry row = do
  id ← generate_uuid
  λ db. (ok id, record db { schedules = put id row db.schedules })

abbrev pub is_scheduled : ScheduleStatus → Bool
is_scheduled ScheduleStatus.scheduled = true
is_scheduled _ = false

-- The rows that WHERE lets through.
abbrev pub is_due : ℕ → ℕ × Schedule → Bool
is_due as_of (id, row) = is_scheduled row.status && leb row.due_at as_of

-- ORDER BY due_at, retry_schedule_id
abbrev pub earlier : ℕ × Schedule → ℕ × Schedule → Bool
earlier (i, a) (j, b) = ltb a.due_at b.due_at || (a.due_at == b.due_at && ltb i j)

unfoldable pub claim_due_retries : ℕ → ℕ → Exec Db (List (ℕ × Schedule))
claim_due_retries as_of limit db =
    (ok (take limit (sort_by earlier (keep (is_due as_of) db.schedules))), db)

abbrev pub marked : ScheduleStatus → Option Text → ℕ → Schedule → Schedule
marked status last_error_code now row = record row {
  status = status;
  last_error_code = last_error_code;
  updated_at = now;
}

abbrev pub mark_row : ℕ → (ℕ → Schedule → Schedule) → Option Schedule → Exec Db Schedule
mark_row id write none db = (err not_found, db)
mark_row id write (some row) db =
    (ok (write db.now row), record db { schedules = put id (write db.now row) db.schedules })

unfoldable pub mark_retry_attempted : ℕ → Exec Db Schedule
mark_retry_attempted id db =
    mark_row id (λ now row. marked ScheduleStatus.attempted row.last_error_code now row)
      (get id db.schedules) db

unfoldable pub mark_retry_exhausted : ℕ → Option Text → Exec Db Schedule
mark_retry_exhausted id last_error_code db =
    mark_row id (marked ScheduleStatus.exhausted last_error_code) (get id db.schedules) db

unfoldable pub mark_retry_failed : ℕ → Option Text → Exec Db Schedule
mark_retry_failed id last_error_code db =
    mark_row id (marked ScheduleStatus.failed last_error_code) (get id db.schedules) db

-- Marking a schedule touches no job.
pub mark_row-jobs :
    (id : ℕ) (w : ℕ → Schedule → Schedule) (o : Option Schedule) (db : Db)
    → (mark_row id w o db).1.jobs ≡ db.jobs
mark_row-jobs id w none db = refl
mark_row-jobs id w (some row) db = refl
