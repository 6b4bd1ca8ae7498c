-- ===== src/Retry/Manual/Success.antt =====
-- A manual retry that is not refused hands the job back to the retry scheduler
-- (accept_manual_retry_command of app/retry/manual.py).
use stream_lite.Base.{
  ℕ, suc, not, ap, ◌∙◌, ◌≡◌, refl, false, Option, none, some, [], ◌∷◌, if◌then◌else◌,
}
use stream_lite.Base.Text.{Text, is_empty, Casing}
use stream_lite.Base.Table.{get, put, get-put_self}
use stream_lite.Base.Uuids.{Uuids}
use stream_lite.Base.Exec.{Result, ok, Exec, caught, pure, ◌>>=◌}
use stream_lite.Store.Rows.{Command, CommandStatus}
use stream_lite.Jobs.{is_terminal}
use stream_lite.Store.Jobs.{moved}
use stream_lite.Store.Model.{Db, generate_uuid}
use stream_lite.Store.Commands.{get_key, create_command, reserve_idempotency_key}
use stream_lite.Events.{event_row}
use stream_lite.Retry.Backoff.{Policy}
use stream_lite.Retry.Manual.{passed}
use stream_lite.Retry.Manual.Plan.{Plan, plan_retry}
use stream_lite.Retry.Manual.Passed.{Passed, plan_retry-Passed}
use stream_lite.Retry.Manual.HandBack.{pending_job, event_valid, hand_back_lem}
use stream_lite.Retry.Manual.Left.{
  HandedBack, due_at_once, waiting_job, Reserved, Reserved-same, find_key-put, Unused, ensured,
}
use stream_lite.Retry.Manual.Accept.{
  Outcome, result, Request, resolved_reason, request_hash, new_command, new_key, hand_back, finish,
  carry_out, carry_out_under, with_idempotency, accept_manual_retry_command, ensure_uuid, refusal,
  empty_reason,
}

module _ (k : Casing) (u : Uuids) (payload_hash : Text → Option Text → Text) (policy : Policy)
    (r : Request) (instant : ℕ) where
  -- What the method returns for the plan.
  pub record Accepted (o : Option Text) (p : Plan) (now : ℕ) (db : Db)
      (answer : Result Outcome × Db) : Type 0 where
    pub schedule_id : ℕ
    pub command_id : ℕ
    pub returned :
        answer.0
        ≡ ok (
            result (record {
              command_id = command_id;
              job_id = r.job_id;
              accepted_at = now;
              correlation_id = p.correlation_id;
              command_status = CommandStatus.succeeded;
              retry_schedule_id = some schedule_id;
              failed_stage = some p.failed_context.stage;
              attempt_number = some p.next_attempt_number;
              manual_override = some (not p.classification.retryable);
              error_code = none;
              idempotency_reused = false;
            }))
    pub planned : Passed policy r.job_id db p
    pub left : HandedBack u payload_hash policy r o instant p schedule_id command_id now answer.1

  pending_job-waits : (p : Plan) (now : ℕ) → pending_job p now ≡ waiting_job p now
  unfolding moved is_terminal
  pending_job-waits p now = refl

  -- From the session on in which the command was written.
  handed :
      (o : Option Text) (p : Plan) (db₀ db : Db) (command_id : ℕ) (command : Command)
      → Passed policy r.job_id db₀ p
      → get r.job_id db.jobs ≡ some p.job
      → is_empty (resolved_reason r) ≡ false
      → get command_id db.commands ≡ some command
      → command.target_resource_id ≡ r.job_id
      → command.requested_by ≡ r.requested_by
      → command.operator_reason ≡ resolved_reason r
      → Reserved u payload_hash r p command_id db.now o db
      → Accepted o p db.now db₀ (
          (do
            outcome ← caught (hand_back u policy r.job_id p (resolved_reason r) instant command_id)
            answer ← finish r.job_id p command_id db.now outcome
            pure (result answer))
            db)
  handed o p db₀ db command_id command fine found given held target by why kept =
      rw
        (hand_back_lem u policy r.job_id p (resolved_reason r) instant command_id db command found
          fine.is_failed
          (event_valid u policy r.job_id p (resolved_reason r) instant command_id fine.stage
            fine.some_attempt given)
          held)
        (record {
          schedule_id = db.next_uuid;
          command_id = command_id;
          returned = refl;
          planned = fine;
          left = record {
            job = get-put_self r.job_id _ db.jobs ∙ ap some (pending_job-waits p db.now);
            schedule =
                get-put_self db.next_uuid (due_at_once policy r.job_id p instant db.now)
                  db.schedules;
            outbox_id = suc (suc (suc db.next_uuid));
            row = _;
            event = get-put_self (suc (suc (suc db.next_uuid))) _ db.outbox;
            announced = record {
              waits = unfold event_row in refl;
              event_type = unfold event_row in refl;
              job_id = unfold event_row in refl;
              attempt_number = unfold event_row in refl;
              payload_json = unfold event_row in refl;
            };
            command = _;
            held = get-put_self command_id _ db.commands;
            done = record {
              status = refl;
              target_resource_id = target;
              requested_by = by;
              operator_reason = why;
              result_locator = refl;
              error_code = refl;
            };
            reserved = Reserved-same u payload_hash r p command_id db.now o db _ refl kept;
          };
        })

  -- The session behind the first writes.
  abbrev with_command : Plan → Text → ℕ → Db → Db
  with_command p key next db = record db {
    commands = put db.next_uuid (new_command r p (resolved_reason r) key db.now) db.commands;
    next_uuid = next;
  }

  abbrev with_key : Plan → Text → ℕ → ℕ → Db → Db
  with_key p key command_id id db = record db {
    idempotency_keys =
        put id (new_key u (request_hash payload_hash r) r p key command_id db.now)
          db.idempotency_keys;
  }

  abbrev answer_for : Option Text → Plan → Exec Db Outcome
  answer_for o p = do
    answer ← carry_out_under k u payload_hash policy r instant o p
    pure (result answer)

  started :
      (p : Plan) (db₀ db : Db) (o : Option Text)
      → Passed policy r.job_id db₀ p
      → get r.job_id db.jobs ≡ some p.job
      → is_empty (resolved_reason r) ≡ false
      → Unused u r.job_id o db
      → Accepted o p db.now db₀ (answer_for o p db)
  unfolding create_command generate_uuid reserve_idempotency_key
  started p db₀ db none fine found given unused =
      handed none p db₀ (with_command p (u.print (suc db.next_uuid)) (suc (suc db.next_uuid)) db)
        db.next_uuid _ fine found given (get-put_self db.next_uuid _ db.commands) refl refl refl tt
  started p db₀ db (some []) fine found given unused = rw unused (
      handed (some []) p db₀
        (with_key p [] db.next_uuid (suc (suc db.next_uuid))
          (with_command p (u.print (suc db.next_uuid)) (suc (suc (suc db.next_uuid))) db))
        db.next_uuid _ fine found given (get-put_self db.next_uuid _ db.commands) refl refl refl
        (find_key-put (suc (suc db.next_uuid)) _ db.idempotency_keys unused))
  started p db₀ db (some (c ∷ s)) fine found given unused = rw unused (
      handed (some (c ∷ s)) p db₀
        (with_key p (c ∷ s) db.next_uuid (suc db.next_uuid)
          (with_command p (c ∷ s) (suc (suc db.next_uuid)) db))
        db.next_uuid _ fine found given (get-put_self db.next_uuid _ db.commands) refl refl refl
        (find_key-put (suc db.next_uuid) _ db.idempotency_keys unused))

  found_key :
      (o : Option Text) (fallback : ℕ) (p : Plan) (db : Db)
      → Unused u r.job_id o db
      → plan_retry k u policy r.job_id r.correlation_id fallback db ≡ passed p
      → with_idempotency k u payload_hash policy r instant fallback o db
        ≡ answer_for r.idempotency_key p db
  unfolding get_key carry_out
  found_key none fallback p db unused planned = rw planned refl
  found_key (some key) fallback p db unused planned = rw (unused, planned) refl

  proceed :
      (fallback : ℕ) (db : Db) (p : Plan)
      → is_empty (resolved_reason r) ≡ false
      → Unused u r.job_id r.idempotency_key db
      → plan_retry k u policy r.job_id r.correlation_id fallback db ≡ passed p
      → Accepted r.idempotency_key p db.now db (
          (if is_empty (resolved_reason r)
              then pure (refusal (empty_reason fallback))
              else with_idempotency k u payload_hash policy r instant fallback r.idempotency_key)
            db)
  proceed fallback db p given unused planned =
      let fine = plan_retry-Passed k u policy r.job_id db r.correlation_id fallback p planned in
      rw (given, found_key r.idempotency_key fallback p db unused planned)
        (started p db db r.idempotency_key fine fine.found given unused)

  accept_from :
      (o : Option ℕ) (db : Db) (p : Plan)
      → is_empty (resolved_reason r) ≡ false
      → Unused u r.job_id r.idempotency_key db
      → plan_retry k u policy r.job_id r.correlation_id (ensured o db).0 (ensured o db).1 ≡ passed p
      → Accepted r.idempotency_key p db.now (ensured o db).1 (
          (do
            fallback ← ensure_uuid o
            if is_empty (resolved_reason r)
                then pure (refusal (empty_reason fallback))
                else with_idempotency k u payload_hash policy r instant fallback r.idempotency_key)
            db)
  unfolding generate_uuid
  accept_from none db p given unused planned =
      proceed db.next_uuid (record db { next_uuid = suc db.next_uuid }) p given
        (unused_later r.idempotency_key unused) planned
    where
      unused_later :
          (o : Option Text)
          → Unused u r.job_id o db
          → Unused u r.job_id o (record db { next_uuid = suc db.next_uuid })
      unused_later none h = tt
      unused_later (some key) h = h
  accept_from (some id) db p given unused planned = proceed id db p given unused planned

  -- A manual retry whose reason is not blank, whose key answers no earlier request and whose job
  -- passes the checks always succeeds: nothing under its `try` can raise. It returns the status
  -- "succeeded" with the id of the new schedule. It leaves the FAILED job RETRY_PENDING at the next
  -- attempt number, one more than the current one and within the policy; a schedule for that attempt
  -- whose next stage is the stage that failed, due at the instant of the request with no delay; a
  -- pending `retry.scheduled` event with the reason cut to 256 characters; and the command, done,
  -- with the locator of the schedule.
  pub accept_manual_retry_command-Accepted :
      (db : Db) (p : Plan)
      → is_empty (resolved_reason r) ≡ false
      → Unused u r.job_id r.idempotency_key db
      → plan_retry k u policy r.job_id r.correlation_id
          (ensured r.correlation_id db).0
          (ensured r.correlation_id db).1
        ≡ passed p
      → Accepted r.idempotency_key p db.now
          (ensured r.correlation_id db).1
          (accept_manual_retry_command k u payload_hash policy r instant db)
  unfolding accept_manual_retry_command
  accept_manual_retry_command-Accepted db p given unused planned =
      accept_from r.correlation_id db p given unused planned
