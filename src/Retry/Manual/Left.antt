-- ===== src/Retry/Manual/Left.antt =====
-- What an accepted manual retry leaves in the session (app/retry/manual.py).
use stream_lite.Base.{ℕ, suc, ◌≡◌, refl, false, not, take, Option, none, some, [], ◌∷◌, arith}
use stream_lite.Base.Text.{Text, text, text_eq_refl}
use stream_lite.Base.Table.{Table, get, put}
use stream_lite.Base.Uuids.{Uuids}
use stream_lite.Store.Rows.{Command, CommandStatus, KeyRow}
use stream_lite.Jobs.{JobState}
use stream_lite.Store.Jobs.{or_keep}
use stream_lite.Store.Model.{
  Job, Schedule, ScheduleStatus, OutboxRow, OutboxStatus, retry_payload, Db,
}
use stream_lite.Store.Commands.{find_key}
use stream_lite.Retry.Backoff.{Policy}
use stream_lite.Retry.Manual.Locator.{command_result_locator}
use stream_lite.Retry.Manual.Plan.{Plan}
use stream_lite.Retry.Manual.Accept.{
  Request, resolved_reason, request_hash, new_key, idempotency_scope,
}

-- The row of the key holds the hash of the request and the answer to it.
abbrev pub Reserved :
    Uuids → (Text → Option Text → Text) → Request → Plan → ℕ → ℕ → Option Text → Db → Type 0
Reserved u payload_hash r p command_id now none db = Unit
Reserved u payload_hash r p command_id now (some key) db =
    find_key (idempotency_scope u r.job_id) key db.idempotency_keys
    ≡ some (new_key u (request_hash payload_hash r) r p key command_id now)

pub Reserved-same :
    (u : Uuids) (payload_hash : Text → Option Text → Text) (r : Request) (p : Plan)
    (command_id now : ℕ) (o : Option Text) (db db' : Db)
    → db'.idempotency_keys ≡ db.idempotency_keys
    → Reserved u payload_hash r p command_id now o db
    → Reserved u payload_hash r p command_id now o db'
Reserved-same u payload_hash r p command_id now none db db' e h = tt
Reserved-same u payload_hash r p command_id now (some key) db db' e h = rw e h

-- A new row is found under its own key.
pub find_key-put :
    (id : ℕ) (row : KeyRow) (t : Table KeyRow)
    → find_key row.scope row.idempotency_key t ≡ none
    → find_key row.scope row.idempotency_key (put id row t) ≡ some row
unfolding find_key put
find_key-put id row [] h = rw (text_eq_refl row.scope, text_eq_refl row.idempotency_key) refl
find_key-put id row ((j, other) ∷ t) h =
    ground (arith, text_eq_refl row.scope, text_eq_refl row.idempotency_key, find_key-put id row t)

-- What a manual retry is to leave, written out without the code's own helpers. The schedule is for
-- the stage that failed, due at once and with no delay.
abbrev pub due_at_once : Policy → ℕ → Plan → ℕ → ℕ → Schedule
due_at_once policy job_id p instant now = record {
  job_id = job_id;
  failed_stage = p.failed_context.stage;
  failure_class = p.classification.failure_class;
  due_at = instant;
  backoff_micros = 0;
  attempt_number = p.next_attempt_number;
  max_attempts = policy.max_attempts;
  jitter_enabled = false;
  status = ScheduleStatus.scheduled;
  next_stage = p.failed_context.stage;
  last_error_code = p.failed_context.error_code;
  correlation_id = p.correlation_id;
  created_at = now;
  updated_at = now;
}

-- The job waits for that attempt; a failure without a code leaves the code of the job.
abbrev pub waiting_job : Plan → ℕ → Job
waiting_job p now = record p.job {
  state = JobState.retry_pending;
  terminal_state = none;
  latest_error_code = or_keep p.failed_context.error_code p.job.latest_error_code;
  attempt_number = p.next_attempt_number;
  updated_at = now;
}

-- The event that waits in the outbox.
pub record Announced (policy : Policy) (r : Request) (p : Plan) (instant : ℕ) (row : OutboxRow)
    : Type 0 where
  pub waits : row.status ≡ OutboxStatus.pending
  pub event_type : row.event_type ≡ text "retry.scheduled"
  pub job_id : row.job_id ≡ some r.job_id
  pub attempt_number : row.attempt_number ≡ some p.next_attempt_number
  pub payload_json :
      row.payload_json
      ≡ retry_payload p.failed_context.stage instant 0 policy.max_attempts
          (take 256 (resolved_reason r))

-- The command is the one that was asked for, done, with the locator of the schedule.
pub record Done (u : Uuids) (r : Request) (p : Plan) (schedule_id : ℕ) (row : Command)
    : Type 0 where
  pub status : row.status ≡ CommandStatus.succeeded
  pub target_resource_id : row.target_resource_id ≡ r.job_id
  pub requested_by : row.requested_by ≡ r.requested_by
  pub operator_reason : row.operator_reason ≡ resolved_reason r
  pub result_locator :
      row.result_locator
      ≡ some (command_result_locator u schedule_id (not p.classification.retryable))
  pub error_code : row.error_code ≡ none

-- What an accepted request leaves in the session.
pub record HandedBack (u : Uuids) (payload_hash : Text → Option Text → Text) (policy : Policy)
    (r : Request) (o : Option Text) (instant : ℕ) (p : Plan) (schedule_id command_id : ℕ) (now : ℕ)
    (db : Db) : Type 0 where
  pub job : get r.job_id db.jobs ≡ some (waiting_job p now)
  pub schedule : get schedule_id db.schedules ≡ some (due_at_once policy r.job_id p instant now)
  pub outbox_id : ℕ
  pub row : OutboxRow
  pub event : get outbox_id db.outbox ≡ some row
  pub announced : Announced policy r p instant row
  pub command : Command
  pub held : get command_id db.commands ≡ some command
  pub done : Done u r p schedule_id command
  pub reserved : Reserved u payload_hash r p command_id now o db

-- No earlier request stands under the key, where there is one.
abbrev pub Unused : Uuids → ℕ → Option Text → Db → Type 0
Unused u job_id none db = Unit
Unused u job_id (some key) db = find_key (idempotency_scope u job_id) key db.idempotency_keys ≡ none

-- The session once the correlation id is known, and that id.
abbrev pub ensured : Option ℕ → Db → ℕ × Db
ensured none db = (db.next_uuid, record db { next_uuid = suc db.next_uuid })
ensured (some id) db = (id, db)
