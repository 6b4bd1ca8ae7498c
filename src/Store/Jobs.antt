-- ===== src/Store/Jobs.antt =====
-- app/repositories/jobs.py: the job rows and the history of their states.
use stream_lite.Base.{
  ℕ, suc, ◌+◌, ◌≡◌, true, false, not, ◌&&◌, Option, none, some, List, [], ◌∷◌, arith, ◌==◌, ltb,
  if◌then◌else◌, Bool, ◌||◌, keep, sort_by,
}
use stream_lite.Base.Text.{Text}
use stream_lite.Base.Table.{get, put}
use stream_lite.Base.Exec.{ok, err, Exec, not_found, invalid_transition, ◌>>=◌, ◌>>◌}
use stream_lite.Jobs.{JobState, state_eq, allowed, is_terminal, transition_allowed}
use stream_lite.Store.Model.{Job, HistoryRow, Service, Db, generate_uuid}

unfoldable pub get_job : ℕ → Exec Db (Option Job)
get_job job_id db = (ok (get job_id db.jobs), db)

-- `new_state if new_state in TERMINAL_JOB_STATES else None`
abbrev pub terminal_of : JobState → Option JobState
terminal_of s = if is_terminal s then some s else none

abbrev pub or_keep {ℓ} : {A : Type ℓ} → Option A → Option A → Option A
or_keep none old = old
or_keep (some a) old = some a

abbrev pub or_old {ℓ} : {A : Type ℓ} → Option A → A → A
or_old none old = old
or_old (some a) old = a

-- ORDER BY created_at DESC, job_id DESC
abbrev newer : ℕ × Job → ℕ × Job → Bool
newer (i, a) (j, b) = ltb b.created_at a.created_at || (a.created_at == b.created_at && ltb j i)

-- list_jobs with a state and no other filter
unfoldable pub list_jobs : JobState → Exec Db (List (ℕ × Job))
list_jobs state db = (ok (sort_by newer (keep (λ r. state_eq r.1.state state) db.jobs)), db)

-- create_job, its row filled in by the caller but for what the method computes.
unfoldable pub create_job : Job → Exec Db ℕ
unfolding generate_uuid
create_job row = do
  job_id ← generate_uuid
  λ db. (
    ok job_id,
    record db { jobs = put job_id (record row { terminal_state = terminal_of row.state }) db.jobs },
  )

-- The fields that update_state writes.
unfoldable pub moved : JobState → Option Text → Option ℕ → ℕ → Job → Job
moved new_state latest_error_code attempt_number now job = record job {
  state = new_state;
  terminal_state = terminal_of new_state;
  latest_error_code = or_keep latest_error_code job.latest_error_code;
  attempt_number = or_old attempt_number job.attempt_number;
  updated_at = now;
}

abbrev pub update_row : ℕ → JobState → Option Text → Option ℕ → Option Job → Exec Db Job
update_row job_id new_state latest_error_code attempt_number none db = (err not_found, db)
update_row job_id new_state latest_error_code attempt_number (some job) db =
    let job' = moved new_state latest_error_code attempt_number db.now job in
    if not (state_eq new_state job.state) && not (allowed job.state new_state)
    then (err invalid_transition, db)
    else (ok job', record db { jobs = put job_id job' db.jobs })

unfoldable pub update_state : ℕ → JobState → Option Text → Option ℕ → Exec Db Job
update_state job_id new_state latest_error_code attempt_number db =
    update_row job_id new_state latest_error_code attempt_number (get job_id db.jobs) db

-- SELECT max(transition_sequence) WHERE job_id = ...
abbrev pub greater : ℕ → Option ℕ → Option ℕ
greater n none = some n
greater n (some m) = some (if ltb n m then m else n)

unfoldable pub max_sequence : ℕ → List HistoryRow → Option ℕ
max_sequence job_id [] = none
max_sequence job_id (row ∷ rows) =
    let rest = max_sequence job_id rows in
    if row.job_id == job_id then greater row.transition_sequence rest else rest

abbrev pub after : Option ℕ → ℕ
after none = 1
after (some current_max) = current_max + 1

-- What a caller says of a transition.
pub record Transition : Type 0 where
  pub previous_state : Option JobState
  pub new_state : JobState
  pub actor_service : Service
  pub reason_code : Text
  pub correlation_id : ℕ
  pub transitioned_at : ℕ
  pub event_id : Option ℕ
  pub transition_sequence : Option ℕ

-- The row that append_state_history adds.
abbrev pub history_row : ℕ → ℕ → Transition → List HistoryRow → HistoryRow
history_row history_id job_id t history = record {
  history_id = history_id;
  job_id = job_id;
  previous_state = t.previous_state;
  new_state = t.new_state;
  actor_service = t.actor_service;
  reason_code = t.reason_code;
  transition_sequence = or_old t.transition_sequence (after (max_sequence job_id history));
  event_id = t.event_id;
  transitioned_at = t.transitioned_at;
  correlation_id = t.correlation_id;
}

unfoldable pub append_state_history : ℕ → Transition → Exec Db HistoryRow
unfolding generate_uuid
append_state_history job_id t = do
  history_id ← generate_uuid
  λ db.
      let row = history_row history_id job_id t db.history in
      (ok row, record db { history = row ∷ db.history })

-- The two calls by which a service moves a job: update_state, then append_state_history.
unfoldable pub move : ℕ → Option Text → Option ℕ → Transition → Exec Db HistoryRow
unfolding append_state_history
move job_id latest_error_code attempt_number t = do
  update_state job_id t.new_state latest_error_code attempt_number
  append_state_history job_id t

accepted :
    (old new : JobState)
    → transition_allowed old new ≡ true
    → (not (state_eq new old) && not (allowed old new)) ≡ false
unfolding transition_allowed
accepted old new h = ground arith

refused :
    (old new : JobState)
    → transition_allowed old new ≡ false
    → (not (state_eq new old) && not (allowed old new)) ≡ true
unfolding transition_allowed
refused old new h = ground arith

module _ (job_id : ℕ) (e : Option Text) (a : Option ℕ) (db : Db) {job : Job}
    (found : get job_id db.jobs ≡ some job) where
  -- What the session holds after an accepted move.
  abbrev pub after_move : Transition → Db
  after_move t = record db {
    jobs = put job_id (moved t.new_state e a db.now job) db.jobs;
    history = history_row db.next_uuid job_id t db.history ∷ db.history;
    next_uuid = suc db.next_uuid;
  }

  pub update_state-accepted :
      (new_state : JobState)
      → transition_allowed job.state new_state ≡ true
      → update_state job_id new_state e a db ≡ (
        ok (moved new_state e a db.now job),
        record db { jobs = put job_id (moved new_state e a db.now job) db.jobs },
      )
  update_state-accepted new_state fine =
      unfold update_state in rw (found, accepted job.state new_state fine)

  pub update_state-refused :
      (new_state : JobState)
      → transition_allowed job.state new_state ≡ false
      → update_state job_id new_state e a db ≡ (err invalid_transition, db)
  update_state-refused new_state bad =
      unfold update_state in rw (found, refused job.state new_state bad)

  pub move-accepted :
      (t : Transition)
      → transition_allowed job.state t.new_state ≡ true
      → move job_id e a t db ≡ (ok (history_row db.next_uuid job_id t db.history), after_move t)
  move-accepted t fine = unfold move in rw (update_state-accepted t.new_state fine)
