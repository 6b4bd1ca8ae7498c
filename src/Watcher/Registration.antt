-- ===== src/Watcher/Registration.antt =====
-- The part of poll_once of app/watcher/service.py that registers a stable file as a job: its row and
-- its first three states. The row of the file and the events are not part of it.
pub mod Keeps
use stream_lite.Base.{ℕ, suc, ◌≡◌, refl, Option, none, some, ◌∷◌}
use stream_lite.Base.Text.{Text, text}
use stream_lite.Base.Table.{get, put, get-put_self}
use stream_lite.Base.Exec.{Exec, pure, ◌>>=◌, ◌>>◌}
use stream_lite.Jobs.{JobState}
use stream_lite.Store.Model.{Job, Service, Db}
use stream_lite.Store.Jobs.{
  Transition, create_job, append_state_history, move, history_row, moved, terminal_of, after_move,
}
use stream_lite.Store.Audit.{Audited, Audited-extend}

abbrev by_watcher : Option JobState → JobState → Text → ℕ → ℕ → Transition
by_watcher previous_state new_state reason_code correlation_id transitioned_at = record {
  previous_state = previous_state;
  new_state = new_state;
  actor_service = Service.watcher;
  reason_code = reason_code;
  correlation_id = correlation_id;
  transitioned_at = transitioned_at;
  event_id = none;
  transition_sequence = none;
}

-- The job starts as DETECTED.
abbrev pub detected_job : Job → Job
detected_job row = record row { state = JobState.detected }

unfoldable pub register_job : Job → ℕ → ℕ → Exec Db ℕ
unfolding create_job append_state_history
register_job row correlation observed_at = do
  job_id ← create_job (detected_job row)
  append_state_history job_id
      (by_watcher none JobState.detected (text "FILE_DETECTED") correlation observed_at)
  move job_id none none (
      by_watcher (some JobState.detected) JobState.stabilizing (text "FILE_STABLE") correlation
        observed_at)
  move job_id none none (
      by_watcher (some JobState.stabilizing) JobState.registered (text "JOB_REGISTERED") correlation
        observed_at)
  pure job_id

module _ (row : Job) (correlation observed_at : ℕ) (db : Db) where
  abbrev job_id : ℕ
  job_id = db.next_uuid

  abbrev first : Job
  first = record (detected_job row) { terminal_state = terminal_of JobState.detected }

  abbrev start : Transition
  start = by_watcher none JobState.detected (text "FILE_DETECTED") correlation observed_at

  -- The job is there, as DETECTED, with one row of history.
  abbrev detected_db : Db
  detected_db = record db {
    jobs = put job_id first db.jobs;
    history = history_row (suc job_id) job_id start db.history ∷ db.history;
    next_uuid = suc (suc job_id);
  }

  abbrev settle : Transition
  settle =
      by_watcher (some JobState.detected) JobState.stabilizing (text "FILE_STABLE") correlation
        observed_at

  abbrev enter : Transition
  enter =
      by_watcher (some JobState.stabilizing) JobState.registered (text "JOB_REGISTERED") correlation
        observed_at

  found_first : get job_id detected_db.jobs ≡ some first
  found_first = get-put_self job_id first db.jobs

  abbrev second : Job
  second = moved JobState.stabilizing none none db.now first

  abbrev stable_db : Db
  stable_db = after_move job_id none none detected_db found_first settle

  found_second : get job_id stable_db.jobs ≡ some second
  found_second = get-put_self job_id second detected_db.jobs

  pub detected-Audited : Audited db → get job_id db.jobs ≡ none → Audited detected_db
  detected-Audited audited fresh =
      Audited-extend audited detected_db job_id first
        (history_row (suc job_id) job_id start db.history) refl refl refl (rw fresh refl)
        (rw fresh refl) refl refl

  abbrev registered_db : Db
  registered_db = after_move job_id none none stable_db found_second enter
