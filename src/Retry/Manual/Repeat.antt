-- ===== src/Retry/Manual/Repeat.antt =====
-- A second request under the idempotency key of an accepted manual retry (app/retry/manual.py).
use stream_lite.Base.{
  ℕ, suc, ◌≡◌, refl, ap, true, false, not, Option, none, some, if◌then◌else◌, Bool-cases, inl, inr,
}
use stream_lite.Base.Text.{Text, text_eq, is_empty, Casing}
use stream_lite.Base.Uuids.{Uuids}
use stream_lite.Base.Exec.{ok, pure, ◌>>=◌}
use stream_lite.Store.Model.{Db, generate_uuid}
use stream_lite.Store.Commands.{get_key}
use stream_lite.Retry.Backoff.{Policy}
use stream_lite.Store.Commands.{find_key}
use stream_lite.Retry.Manual.{ManualRetryResult, passed}
use stream_lite.Retry.Manual.Passed.{plan_retry-Passed}
use stream_lite.Retry.Manual.Success.{accept_manual_retry_command-Accepted}
use stream_lite.Retry.Manual.Failed.{is_failed_stage}
use stream_lite.Retry.Manual.Locator.{locator_round_trip}
use stream_lite.Retry.Manual.Plan.{Plan, plan_retry}
use stream_lite.Retry.Manual.Left.{HandedBack, ensured}
use stream_lite.Retry.Manual.Accept.{
  Outcome, result, refusal, Request, resolved_reason, request_hash, accepted_result,
  accepted_response, key_conflict, result_from_existing_response, with_idempotency,
  accept_manual_retry_command, idempotency_scope, ensure_uuid, empty_reason,
}

module _ (k : Casing) (u : Uuids) (payload_hash : Text → Option Text → Text) (policy : Policy)
    (r : Request) (key : Text) (instant : ℕ) (p : Plan) (schedule_id command_id now : ℕ) (db : Db)
    (stage : is_failed_stage p.failed_context.stage ≡ true)
    (left : HandedBack u payload_hash policy r
      (some key)
      instant
      p
      schedule_id
      command_id
      now
      db) where
  -- What the first request was told, marked as told again.
  abbrev pub told_again : ManualRetryResult
  told_again = record (accepted_result r.job_id p command_id now) {
    retry_schedule_id = some schedule_id;
    idempotency_reused = true;
  }

  existing :
      (n : ℕ)
      → result_from_existing_response u
          (accepted_response r.job_id p command_id now)
          (record db { next_uuid = n })
        ≡ told_again
  unfolding result_from_existing_response
  existing n =
      let (named, overrode) = locator_round_trip u schedule_id (not p.classification.retryable) in
      rw
        (
          left.held, left.done.result_locator, left.done.status, left.done.error_code, named,
          left.schedule, overrode, stage,
        )
        refl

  -- A second request for the same job under the same key.
  abbrev pub second_request : Text → Option Text → Option ℕ → Request
  second_request requested_by operator_reason correlation_id = record {
    job_id = r.job_id;
    requested_by = requested_by;
    operator_reason = operator_reason;
    idempotency_key = some key;
    correlation_id = correlation_id;
  }

  -- The answer to it: the first one where the hashes agree.
  abbrev pub second_answer : Request → ℕ → Outcome
  second_answer again fallback =
      if text_eq (request_hash payload_hash r) (request_hash payload_hash again)
      then result told_again
      else refusal (key_conflict r.job_id fallback)

  module _ (requested_by : Text) (operator_reason : Option Text) (correlation_id : Option ℕ)
      (later : ℕ) where
    abbrev again : Request
    again = second_request requested_by operator_reason correlation_id

    answered :
        (fallback n : ℕ)
        → with_idempotency k u payload_hash policy again later fallback
            (some key)
            (record db { next_uuid = n })
          ≡ (ok (second_answer again fallback), record db { next_uuid = n })
    unfolding get_key
    answered fallback n =
        rw left.reserved
          (elim (Bool-cases
            (text_eq (request_hash payload_hash r) (request_hash payload_hash again))) [
              | inl same ↦
                  rw same (ap (λ x. (ok (result x), record db { next_uuid = n })) (existing n))
              | inr other ↦ rw other refl
            ])

    second_request-answered :
        is_empty (resolved_reason again) ≡ false
        → accept_manual_retry_command k u payload_hash policy again later db
          ≡ (ok (second_answer again (ensured correlation_id db).0), (ensured correlation_id db).1)
    unfolding accept_manual_retry_command generate_uuid
    second_request-answered given = from correlation_id
      where
        from :
            (o : Option ℕ)
            → (do
              fallback ← ensure_uuid o
              if is_empty (resolved_reason again)
                  then pure (refusal (empty_reason fallback))
                  else with_idempotency k u payload_hash policy again later fallback (some key))
                db
              ≡ (ok (second_answer again (ensured o db).0), (ensured o db).1)
        from none = rw given (answered db.next_uuid (suc db.next_uuid))
        from (some id) = rw given (answered id db.next_uuid)

-- A request for a job under a key.
abbrev pub keyed : ℕ → Text → Text → Option Text → Option ℕ → Request
keyed job_id key requested_by operator_reason correlation_id = record {
  job_id = job_id;
  requested_by = requested_by;
  operator_reason = operator_reason;
  idempotency_key = some key;
  correlation_id = correlation_id;
}

-- Two requests for one job under one key, of which the first is accepted. The second one, whose
-- reason is not blank either, writes nothing but a new correlation id where it brings none. Where
-- its hash is the first one's, it is told what the first one was told: the same command, schedule,
-- stage, attempt number, status and override, marked as used again. Where the hash differs, it is
-- refused with 409.
pub accept_manual_retry_command-twice :
    (k : Casing) (u : Uuids) (payload_hash : Text → Option Text → Text) (policy : Policy)
    (job_id : ℕ) (key by : Text) (why : Option Text) (correlation : Option ℕ) (instant : ℕ)
    (by' : Text) (why' : Option Text) (correlation' : Option ℕ) (later : ℕ) (p : Plan) (db : Db)
    → is_empty (resolved_reason (keyed job_id key by why correlation)) ≡ false
    → find_key (idempotency_scope u job_id) key db.idempotency_keys ≡ none
    → plan_retry k u policy job_id correlation (ensured correlation db).0 (ensured correlation db).1
      ≡ passed p
    → is_empty (resolved_reason (keyed job_id key by' why' correlation')) ≡ false
    → let first = keyed job_id key by why correlation in
      let second = keyed job_id key by' why' correlation' in
      let (answer, db') = accept_manual_retry_command k u payload_hash policy first instant db in
      let again = ensured correlation' db' in
      (told : ManualRetryResult) × (answer ≡ ok (result told))
      × (accept_manual_retry_command k u payload_hash policy second later db' ≡ (
        ok (
            if text_eq (request_hash payload_hash first) (request_hash payload_hash second)
            then result (record told { idempotency_reused = true })
            else refusal (key_conflict job_id again.0)),
        again.1,
      ))
accept_manual_retry_command-twice k u payload_hash policy job_id key by why correlation instant by'
      why' correlation' later p db given unused planned given' =
    let first = keyed job_id key by why correlation in
    let accepted =
      accept_manual_retry_command-Accepted k u payload_hash policy first instant db p given unused
        planned in
    let fine = plan_retry-Passed k u policy job_id _ correlation _ p planned in
    (
      _,
      accepted.returned,
      second_request-answered k u payload_hash policy first key instant p accepted.schedule_id
          accepted.command_id db.now _ fine.stage accepted.left by' why' correlation' later given',
    )
