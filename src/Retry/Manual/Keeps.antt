-- ===== src/Retry/Manual/Keeps.antt =====
-- What a manual retry keeps, however it ends (accept_manual_retry_command of app/retry/manual.py).
use stream_lite.Base.{ℕ, ◌≡◌, refl, ap, sym, Option, none, some, [], ◌∷◌}
use stream_lite.Base.Text.{Text, is_empty, Casing}
use stream_lite.Base.Uuids.{Uuids}
use stream_lite.Base.Exec.{Result, ok, err, Exec}
use stream_lite.Base.Exec.Leads.{Leads, Leads-if, Leads-pure, Leads-bind, Leads-caught}
use stream_lite.Base.Exec.Off.{Off, Off-pure, Off-bind}
use stream_lite.Jobs.{JobState}
use stream_lite.Store.Rows.{Command, KeyRow, AcceptedResponse}
use stream_lite.Store.Model.{Db}
use stream_lite.Store.Commands.{create_command, get_key, find_key, add_key, reserve_idempotency_key}
use stream_lite.Store.Core.{
  core, generate_uuid-Off, schedule_retry-Off, enqueue_event-Off, update_command_status-Off,
}
use stream_lite.Store.Stable.{Stable, Holding, core-records, Stable-Off, Holding-Off}
use stream_lite.Retry.Backoff.{Policy}
use stream_lite.Retry.Manual.{Verdict, passed, refused, crashed}
use stream_lite.Retry.Manual.Passed.{plan_retry-Passed}
use stream_lite.Retry.Manual.HandBack.{failed_retries}
use stream_lite.Retry.Manual.Plan.{Plan, plan_retry}
use stream_lite.Retry.Manual.Accept.{
  Request, resolved_reason, request_hash, hand_back, finish, key_or_uuid, reserve, carry_out,
  decide, start, repeat_or_start, with_record, with_idempotency, is_other_payload,
  idempotency_scope, ensure_uuid, accept_manual_retry_command,
}

add_key-core :
    (id : ℕ) (row : KeyRow) (o : Option KeyRow) (db : Db) → core (add_key id row o db).1 ≡ core db
add_key-core id row none db = refl
add_key-core id row (some taken) db = refl

reserve_idempotency_key-Off : (id : ℕ) (row : KeyRow) → Off core (reserve_idempotency_key id row)
unfolding reserve_idempotency_key
reserve_idempotency_key-Off id row = record {
  at = λ db. add_key-core id row (find_key row.scope row.idempotency_key db.idempotency_keys) db;
}

key_or_uuid-Off : (u : Uuids) (o : Option Text) → Off core (key_or_uuid u o)
key_or_uuid-Off u none = Off-bind _ _ generate_uuid-Off (λ id. Off-pure _)
key_or_uuid-Off u (some []) = Off-bind _ _ generate_uuid-Off (λ id. Off-pure _)
key_or_uuid-Off u (some (c ∷ s)) = Off-pure _

reserve-Off :
    (u : Uuids) (hash : Text) (r : Request) (p : Plan) (o : Option Text) (id at : ℕ)
    → Off core (reserve u hash r p o id at)
reserve-Off u hash r p none id at = Off-pure tt
reserve-Off u hash r p (some key) id at =
    Off-bind _ _ generate_uuid-Off (λ key_id. reserve_idempotency_key-Off key_id _)

finish-Off :
    (j : ℕ) (p : Plan) (id at : ℕ) (outcome : Result ℕ) → Off core (finish j p id at outcome)
finish-Off j p id at (ok schedule_id) = Off-pure _
finish-Off j p id at (err e) = Off-bind _ _ (update_command_status-Off id _ _ _ _) (λ _. Off-pure _)

create_command-Off :
    (id : ℕ) (row : Db → Command) → Off core (λ (db : Db). create_command id (row db) db)
unfolding create_command
create_command-Off id row = record { at = λ db. refl }

module _ {P : Db → Type 0} (stable : Stable P) (k : Casing) (u : Uuids)
    (payload_hash : Text → Option Text → Text) (policy : Policy) (r : Request) (instant : ℕ) where
  same : (db : Db) → P db → P db
  same db h = h

  on_kept : {A : Type 0} (m : Exec Db A) → Off core m → Leads P P m
  on_kept m h = Stable-Off stable m (core-records m h)

  module _ (p : Plan) (failed : p.job.state ≡ JobState.failed) where
    abbrev Ready : Db → Type 0
    Ready = Holding P r.job_id p.job

    ready : (db : Db) → Ready db → P db
    ready db h = h.kept

    staying : {A : Type 0} (m : Exec Db A) → Off core m → Leads Ready Ready m
    staying m h = Holding-Off stable r.job_id p.job m (core-records m h)

    hand_back-Leads :
        (reason : Text) (id : ℕ) → Leads Ready P (hand_back u policy r.job_id p reason instant id)
    unfolding hand_back
    hand_back-Leads reason id =
        Leads-bind {R = Ready} ready _ _ (staying _ (schedule_retry-Off _)) (λ schedule_id.
          Leads-bind same _ _
            (record {
              at = λ db h.
                  stable.moves db r.job_id p.job _ _ _
                    (record {
                      found = h.found;
                      previous = ap some (sym failed);
                      numbered = refl;
                      fine = failed_retries p.job.state failed;
                    })
                    h.kept;
            })
            (λ _. Leads-bind same _ _ (on_kept _ (enqueue_event-Off _)) (λ _.
              Leads-bind same _ _ (on_kept _ (update_command_status-Off id _ _ _ _))
                (λ _. Leads-pure same _))))

    carry_out-Leads : Leads Ready P (carry_out k u payload_hash policy r instant p)
    unfolding carry_out
    carry_out-Leads = Leads-bind {R = Ready} ready _ _ (staying _ generate_uuid-Off) (λ id.
        Leads-bind {R = Ready} ready (key_or_uuid u r.idempotency_key) _
          (staying _ (key_or_uuid-Off u r.idempotency_key))
          (λ key. Leads-bind {R = Ready} ready _ _ (staying _ (create_command-Off id _)) (λ created.
            Leads-bind {R = Ready} ready _ _
              (staying _ (
                reserve-Off u (request_hash payload_hash r) r p r.idempotency_key id
                  created.created_at))
              (λ _.
                Leads-bind same _ _ (Leads-caught _ (hand_back-Leads (resolved_reason r) id))
                  (λ outcome. on_kept _ (finish-Off r.job_id p id created.created_at outcome))))))

  -- From a request that no earlier one answers on.
  start-Leads : (fallback : ℕ) → Leads P P (start k u payload_hash policy r instant fallback)
  start-Leads fallback = record {
    at = λ db h. from db h (plan_retry k u policy r.job_id r.correlation_id fallback db) refl;
  }
    where
      from :
          (db : Db)
          → P db
          → (v : Verdict Plan) → plan_retry k u policy r.job_id r.correlation_id fallback db ≡ v
          → P (decide k u payload_hash policy r instant v db).1
      from db h (refused e) planned = h
      from db h (crashed e) planned = h
      from db h (passed p) planned =
          let fine = plan_retry-Passed k u policy r.job_id db r.correlation_id fallback p planned in
          (Leads-bind {R = P} {Q = P} same {P = Ready p fine.is_failed} _ _
              (carry_out-Leads p fine.is_failed) (λ answer. Leads-pure same _)).at
            db (record { kept = h; found = fine.found })

  with_record-Leads :
      (fallback : ℕ) (o : Option KeyRow)
      → Leads P P (with_record k u payload_hash policy r instant fallback o)
  with_record-Leads fallback none = start-Leads fallback
  with_record-Leads fallback (some row) =
      Leads-if (is_other_payload k u payload_hash policy r instant row.payload_hash) _ _
        (λ _. Leads-pure same _) (λ _. repeat row.first_response_json)
    where
      repeat :
          (o : Option AcceptedResponse)
          → Leads P P (repeat_or_start k u payload_hash policy r instant fallback o)
      repeat none = start-Leads fallback
      repeat (some response) = record { at = λ db h. h }

  with_idempotency-Leads :
      (fallback : ℕ) (o : Option Text)
      → Leads P P (with_idempotency k u payload_hash policy r instant fallback o)
  unfolding get_key
  with_idempotency-Leads fallback none = start-Leads fallback
  with_idempotency-Leads fallback (some key) =
      Leads-bind same (get_key (idempotency_scope u r.job_id) key) _ (record { at = λ db h. h })
        (λ o. with_record-Leads fallback o)

  ensure_uuid-Leads : (o : Option ℕ) → Leads P P (ensure_uuid o)
  ensure_uuid-Leads none = on_kept _ generate_uuid-Off
  ensure_uuid-Leads (some id) = Leads-pure same id

  pub accept_manual_retry_command-Leads :
      Leads P P (accept_manual_retry_command k u payload_hash policy r instant)
  unfolding accept_manual_retry_command
  accept_manual_retry_command-Leads =
      Leads-bind same (ensure_uuid r.correlation_id) _ (ensure_uuid-Leads r.correlation_id)
        (λ fallback.
          Leads-if (is_empty (resolved_reason r)) _ _ (λ _. Leads-pure same _)
            (λ _. with_idempotency-Leads fallback r.idempotency_key))
