-- ===== src/Retry/Manual/Accept.antt =====
-- accept_manual_retry_command of app/retry/manual.py. The hash of the request is a parameter: the
-- function of `hashlib` on its JSON text.
use stream_lite.Base.{
  ℕ, Bool, true, false, not, Option, none, some, [], ◌∷◌, ◌++◌, take, if◌then◌else◌,
}
use stream_lite.Base.Text.{Text, text, text_eq, is_empty, strip, Casing}
use stream_lite.Base.Table.{get}
use stream_lite.Base.Uuids.{Uuids}
use stream_lite.Base.Exec.{Result, ok, err, Error, Exec, pure, raise, caught, ◌>>=◌, ◌>>◌}
use stream_lite.Jobs.{JobState}
use stream_lite.Store.Rows.{Command, CommandStatus, AcceptedResponse, KeyRow}
use stream_lite.Store.Model.{
  Stage, Service, Schedule, ScheduleStatus, retry_payload, IdempotencyKey, Db, generate_uuid,
}
use stream_lite.Store.Jobs.{move}
use stream_lite.Store.Retry.{schedule_retry}
use stream_lite.Store.Commands.{
  create_command, update_command_status, get_key, reserve_idempotency_key,
}
use stream_lite.Events.{Event, enqueue_event}
use stream_lite.Retry.Backoff.{Policy}
use stream_lite.Retry.Scheduler.{by_scheduler, retry_scheduled, schema_version}
use stream_lite.Retry.Manual.{
  ManualRetryResult, ManualRetryError, Verdict, passed, refused, crashed, job_not_retryable,
  reason_manual_retry_requested, command_type, command_resource_type, retry_schedule_failed,
}
use stream_lite.Retry.Manual.Failed.{is_failed_stage, latest_retry_schedule}
use stream_lite.Retry.Manual.Locator.{
  command_result_locator, parse_retry_schedule_id, parse_manual_override,
}
use stream_lite.Retry.Manual.Plan.{Plan, plan_retry}

-- What the caller gets: the refusal that the method raises, or its result.
pub data Outcome : Type 0 where
  refusal : ManualRetryError → Outcome
  result : ManualRetryResult → Outcome

-- The request.
pub record Request : Type 0 where
  pub job_id : ℕ
  pub requested_by : Text
  pub operator_reason : Option Text
  pub idempotency_key : Option Text
  pub correlation_id : Option ℕ

-- (operator_reason or "").strip()
abbrev stripped : Option Text → Text
stripped none = []
stripped (some reason) = strip reason

abbrev pub resolved_reason : Request → Text
resolved_reason r = stripped r.operator_reason

-- _payload_hash of the request
abbrev pub request_hash : (Text → Option Text → Text) → Request → Text
request_hash payload_hash r = payload_hash r.requested_by r.operator_reason

-- ensure_uuid_str
abbrev pub ensure_uuid : Option ℕ → Exec Db ℕ
ensure_uuid none = generate_uuid
ensure_uuid (some id) = pure id

-- _idempotency_scope
unfoldable pub idempotency_scope : Uuids → ℕ → Text
idempotency_scope u job_id = command_type ++ (b':' ∷ u.print job_id)

-- idempotency_key or generate_uuid_str()
abbrev pub key_or_uuid : Uuids → Option Text → Exec Db Text
key_or_uuid u none = do id ← generate_uuid; pure (u.print id)
key_or_uuid u (some []) = do id ← generate_uuid; pure (u.print id)
key_or_uuid u (some (c ∷ s)) = pure (c ∷ s)

-- _command_failure_code: of the exceptions that can reach it, the repository's "job not found" and
-- "invalid state transition" are told apart.
unfoldable pub command_failure_code : Error → Text
command_failure_code Error.not_found = text "JOB_NOT_FOUND"
command_failure_code Error.invalid_transition = job_not_retryable
command_failure_code _ = retry_schedule_failed

abbrev pub empty_reason : ℕ → ManualRetryError
empty_reason correlation_id = record {
  status_code = 422;
  error_code = text "REQUEST_VALIDATION_FAILED";
  message = text "reason is required for manual retry commands.";
  correlation_id = correlation_id;
  field = some (text "reason");
  resource_id = none;
  current_state = none;
}

abbrev pub key_conflict : ℕ → ℕ → ManualRetryError
key_conflict job_id correlation_id = record {
  status_code = 409;
  error_code = text "IDEMPOTENCY_KEY_CONFLICT";
  message = text "Idempotency-Key was already used with a different request payload.";
  correlation_id = correlation_id;
  field = none;
  resource_id = some job_id;
  current_state = none;
}

-- _result_from_existing_response, which reads only.
abbrev pub known_stage : Option (ℕ × Schedule) → Option Stage
known_stage none = none
known_stage (some (id, row)) =
    if is_failed_stage row.failed_stage then some row.failed_stage else none

abbrev pub with_key : ℕ → Option Schedule → Option (ℕ × Schedule)
with_key id none = none
with_key id (some row) = some (id, row)

abbrev pub schedule_named : Option ℕ → Db → Option (ℕ × Schedule)
schedule_named none db = none
schedule_named (some id) db = with_key id (get id db.schedules)

abbrev pub or_latest : ℕ → Db → Option (ℕ × Schedule) → Option (ℕ × Schedule)
or_latest job_id db none = latest_retry_schedule job_id db
or_latest job_id db (some row) = some row

abbrev pub locator_of : Option Command → Option Text
locator_of none = none
locator_of (some command) = command.result_locator

abbrev pub status_of : Option Command → CommandStatus
status_of none = CommandStatus.accepted
status_of (some command) = command.status

abbrev pub error_of : Option Command → Option Text
error_of none = none
error_of (some command) = command.error_code

abbrev pub id_of : Option (ℕ × Schedule) → Option ℕ
id_of none = none
id_of (some (id, row)) = some id

abbrev pub attempt_of : Option (ℕ × Schedule) → Option ℕ
attempt_of none = none
attempt_of (some (id, row)) = some row.attempt_number

abbrev pub repeated : AcceptedResponse → Option Command → Option (ℕ × Schedule) → ManualRetryResult
repeated response command schedule = record {
  command_id = response.command_id;
  job_id = response.target_resource_id;
  accepted_at = response.accepted_at;
  correlation_id = response.correlation_id;
  command_status = status_of command;
  retry_schedule_id = id_of schedule;
  failed_stage = known_stage schedule;
  attempt_number = attempt_of schedule;
  manual_override = parse_manual_override (locator_of command);
  error_code = error_of command;
  idempotency_reused = true;
}

unfoldable pub result_from_existing_response : Uuids → AcceptedResponse → Db → ManualRetryResult
result_from_existing_response u response db =
    let command = get response.command_id db.commands in
    repeated response command (
      or_latest response.target_resource_id db
        (schedule_named (parse_retry_schedule_id u (locator_of command)) db))

-- The row of the schedule: due at once, with no delay.
abbrev pub manual_schedule : Policy → ℕ → Plan → ℕ → ℕ → Schedule
manual_schedule policy job_id p instant now = record {
  job_id = job_id;
  failed_stage = p.failed_context.stage;
  failure_class = p.classification.failure_class;
  due_at = instant;
  backoff_micros = 0;
  attempt_number = p.next_attempt_number;
  max_attempts = policy.max_attempts;
  jitter_enabled = false;
  status = ScheduleStatus.scheduled;
  next_stage = p.failed_context.stage;
  last_error_code = p.failed_context.error_code;
  correlation_id = p.correlation_id;
  created_at = now;
  updated_at = now;
}

-- The event, its reason cut to 256 characters.
abbrev pub manual_event : Policy → ℕ → Plan → Text → ℕ → Event
manual_event policy job_id p reason instant = record {
  schema_version = schema_version;
  event_type = retry_scheduled;
  producer = Service.retry_scheduler;
  correlation_id = p.correlation_id;
  job_id = job_id;
  watcher_id = p.job.watcher_id;
  attempt_number = p.next_attempt_number;
  occurred_at = instant;
  idempotency_key =
      IdempotencyKey.manual_key retry_scheduled job_id p.failed_context.stage p.next_attempt_number;
  payload = retry_payload p.failed_context.stage instant 0 policy.max_attempts (take 256 reason);
}

-- The block under `try`: the schedule's id.
unfoldable pub hand_back : Uuids → Policy → ℕ → Plan → Text → ℕ → ℕ → Exec Db ℕ
hand_back u policy job_id p reason instant command_id = do
  schedule_id ← λ db. schedule_retry (manual_schedule policy job_id p instant db.now) db
  move job_id p.failed_context.error_code (some p.next_attempt_number) (
      by_scheduler JobState.failed JobState.retry_pending reason_manual_retry_requested
        p.correlation_id instant)
  enqueue_event (manual_event policy job_id p reason instant)
  update_command_status command_id CommandStatus.succeeded
      (some (command_result_locator u schedule_id (not p.classification.retryable))) none none
  pure schedule_id

abbrev pub accepted_result : ℕ → Plan → ℕ → ℕ → ManualRetryResult
accepted_result job_id p command_id accepted_at = record {
  command_id = command_id;
  job_id = job_id;
  accepted_at = accepted_at;
  correlation_id = p.correlation_id;
  command_status = CommandStatus.succeeded;
  retry_schedule_id = none;
  failed_stage = some p.failed_context.stage;
  attempt_number = some p.next_attempt_number;
  manual_override = some (not p.classification.retryable);
  error_code = none;
  idempotency_reused = false;
}

-- The end of the block, or its `except`.
abbrev pub finish : ℕ → Plan → ℕ → ℕ → Result ℕ → Exec Db ManualRetryResult
finish job_id p command_id accepted_at (ok schedule_id) =
    pure (record (accepted_result job_id p command_id accepted_at) {
      retry_schedule_id = some schedule_id;
    })
finish job_id p command_id accepted_at (err e) = do
  update_command_status command_id CommandStatus.failed none (some (command_failure_code e)) none
  pure (record (accepted_result job_id p command_id accepted_at) {
    command_status = CommandStatus.failed;
    error_code = some (command_failure_code e);
  })

abbrev pub new_command : Request → Plan → Text → Text → ℕ → Command
new_command r p reason key now = record {
  command_type = command_type;
  target_resource_type = command_resource_type;
  target_resource_id = r.job_id;
  requested_by = r.requested_by;
  operator_reason = reason;
  idempotency_key = key;
  status = CommandStatus.accepted;
  result_locator = none;
  error_code = none;
  completed_at = none;
  correlation_id = p.correlation_id;
  created_at = now;
  updated_at = now;
}

-- _accepted_response_json
abbrev pub accepted_response : ℕ → Plan → ℕ → ℕ → AcceptedResponse
accepted_response job_id p command_id accepted_at = record {
  command_id = command_id;
  target_resource_type = command_resource_type;
  target_resource_id = job_id;
  accepted_at = accepted_at;
  correlation_id = p.correlation_id;
}

abbrev pub new_key : Uuids → Text → Request → Plan → Text → ℕ → ℕ → KeyRow
new_key u hash r p key command_id now = record {
  scope = idempotency_scope u r.job_id;
  idempotency_key = key;
  payload_hash = some hash;
  target_type = command_resource_type;
  target_id = r.job_id;
  first_response_json = some (accepted_response r.job_id p command_id now);
  created_at = now;
}

abbrev pub reserve : Uuids → Text → Request → Plan → Option Text → ℕ → ℕ → Exec Db (Unit {0})
reserve u hash r p none command_id accepted_at = pure tt
reserve u hash r p (some key) command_id accepted_at = do
  key_id ← generate_uuid
  reserve_idempotency_key key_id (new_key u hash r p key command_id accepted_at)

module _ (k : Casing) (u : Uuids) (payload_hash : Text → Option Text → Text) (policy : Policy)
    (r : Request) (instant : ℕ) where
  -- From the new command on, for the key of the request.
  abbrev pub carry_out_under : Option Text → Plan → Exec Db ManualRetryResult
  carry_out_under idempotency_key p = do
    command_id ← generate_uuid
    key ← key_or_uuid u idempotency_key
    created ← λ db. create_command command_id (new_command r p (resolved_reason r) key db.now) db
    reserve u (request_hash payload_hash r) r p idempotency_key command_id created.created_at
    outcome ← caught (hand_back u policy r.job_id p (resolved_reason r) instant command_id)
    finish r.job_id p command_id created.created_at outcome

  unfoldable pub carry_out : Plan → Exec Db ManualRetryResult
  unfolding generate_uuid
  carry_out p = carry_out_under r.idempotency_key p

  abbrev pub decide : Verdict Plan → Exec Db Outcome
  decide (passed p) = do answer ← carry_out p; pure (result answer)
  decide (refused e) = pure (refusal e)
  decide (crashed e) = raise e

  -- A request that no earlier one answers.
  abbrev pub start : ℕ → Exec Db Outcome
  start fallback db = decide (plan_retry k u policy r.job_id r.correlation_id fallback db) db

  abbrev pub is_other_payload : Option Text → Bool
  is_other_payload none = false
  is_other_payload (some earlier) = not (text_eq earlier (request_hash payload_hash r))

  abbrev pub repeat_or_start : ℕ → Option AcceptedResponse → Exec Db Outcome
  repeat_or_start fallback none = start fallback
  repeat_or_start fallback (some response) =
      λ db. (ok (result (result_from_existing_response u response db)), db)

  abbrev pub with_record : ℕ → Option KeyRow → Exec Db Outcome
  with_record fallback none = start fallback
  with_record fallback (some row) =
      if is_other_payload row.payload_hash
      then pure (refusal (key_conflict r.job_id fallback))
      else repeat_or_start fallback row.first_response_json

  abbrev pub with_idempotency : ℕ → Option Text → Exec Db Outcome
  with_idempotency fallback none = start fallback
  with_idempotency fallback (some key) = do
    existing ← get_key (idempotency_scope u r.job_id) key
    with_record fallback existing

  unfoldable pub accept_manual_retry_command : Exec Db Outcome
  unfolding generate_uuid get_key
  accept_manual_retry_command = do
    fallback ← ensure_uuid r.correlation_id
    if is_empty (resolved_reason r)
        then pure (refusal (empty_reason fallback))
        else with_idempotency fallback r.idempotency_key
