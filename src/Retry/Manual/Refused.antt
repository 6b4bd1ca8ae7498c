-- ===== src/Retry/Manual/Refused.antt =====
-- Why a manual retry is refused, and that a refusal writes nothing (app/retry/manual.py).
use stream_lite.Base.{
  ℕ, ◌≡◌, refl, sym, subst, true, false, Option, none, some, if◌then◌else◌, inl, inr, ◌⊎◌,
}
use stream_lite.Base.Text.{Text, is_empty, Casing}
use stream_lite.Base.Table.{get}
use stream_lite.Base.Uuids.{Uuids}
use stream_lite.Base.Exec.{ok, Exec, pure, ok-injective, ◌>>=◌}
use stream_lite.Base.Exec.Yields.{Yields, Yields-pure, Yields-bind, Yields-if}
use stream_lite.Store.Rows.{KeyRow, AcceptedResponse}
use stream_lite.Store.Model.{Job, Db, generate_uuid}
use stream_lite.Store.Commands.{get_key}
use stream_lite.Retry.Classifier.{Classification}
use stream_lite.Retry.Backoff.{Policy}
use stream_lite.Retry.Manual.{ManualRetryError, Verdict, passed, refused, crashed}
use stream_lite.Retry.Manual.Checks.{
  Refuses, Refuses-weaken, Refuses-passed, Refuses-or_refuse, Refuses-of_result, Refuses-require,
  Refuses-bind,
}
use stream_lite.Retry.Manual.Failed.{FailedStageContext}
use stream_lite.Retry.Manual.Plan.{Plan, plan_retry, plan_attempt, plan_job}
use stream_lite.Retry.Manual.Left.{ensured}
use stream_lite.Retry.Manual.Accept.{
  Outcome, result, refusal, Request, resolved_reason, empty_reason, decide, start, with_record,
  repeat_or_start, with_idempotency, ensure_uuid, carry_out, accept_manual_retry_command,
  idempotency_scope, is_other_payload,
}

-- Why a request is refused: its reason is blank, its job is not there, or it is in conflict with the
-- state of the job or with an earlier request.
abbrev pub Because : Request → Db → ManualRetryError → Type 0
Because r db e =
    ((e.status_code ≡ 422) × (is_empty (resolved_reason r) ≡ true))
    ⊎ ((e.status_code ≡ 404) × (get r.job_id db.jobs ≡ none))
    ⊎ ((e.status_code ≡ 409) × (is_empty (resolved_reason r) ≡ false))

module _ (k : Casing) (u : Uuids) (payload_hash : Text → Option Text → Text) (policy : Policy)
    (r : Request) (instant : ℕ) where
  abbrev Conflict : ManualRetryError → Type 0
  Conflict e = e.status_code ≡ 409

  plan_attempt-Refuses :
      (job : Job) (c : FailedStageContext) (correlation : ℕ) (d : Classification)
      → Refuses Conflict (plan_attempt k u policy r.job_id job c correlation d)
  plan_attempt-Refuses job c correlation d =
      Refuses-require _ _ _ (λ _. refl)
        (Refuses-bind _ _ (Refuses-or_refuse _ _ (λ _. refl)) (λ current _.
          Refuses-bind _ _ (Refuses-of_result _) (λ allowed _.
            Refuses-require _ _ _ (λ _. refl)
              (Refuses-bind _ _ (Refuses-of_result _) (λ after_it _.
                Refuses-bind _ _ (Refuses-or_refuse _ _ (λ _. refl))
                  (λ next _. Refuses-passed _))))))

  plan_job-Refuses :
      (db : Db) (job : Job)
      → Refuses Conflict (plan_job k u policy r.job_id r.correlation_id db job)
  plan_job-Refuses db job =
      Refuses-require _ _ _ (λ _. refl)
        (Refuses-bind _ _ (Refuses-or_refuse _ _ (λ _. refl))
          (λ c _. Refuses-bind _ _ (Refuses-of_result _) (λ d _. plan_attempt-Refuses job c _ d)))

  plan_retry-Refuses :
      (db : Db) (fallback : ℕ)
      → is_empty (resolved_reason r) ≡ false
      → Refuses (Because r db) (plan_retry k u policy r.job_id r.correlation_id fallback db)
  unfolding plan_retry
  plan_retry-Refuses db fallback given =
      Refuses-bind _ _ (Refuses-or_refuse _ _ (λ gone. inr (inl (refl, gone))))
        (λ job _. Refuses-weaken _ (λ e h. inr (inr (h, given))) (plan_job-Refuses db job))

  -- A refusal in the session that it began with, or a result.
  abbrev Told : Db → Outcome → Db → Type 0
  Told s (refusal e) db = (db ≡ s) × Because r s e
  Told s (result a) db = Unit

  abbrev At : Db → Db → Type 0
  At s db = db ≡ s

  decide-Told :
      (s : Db) (v : Verdict Plan)
      → Refuses (Because r s) v
      → Yields (At s) (Told s) (decide k u payload_hash policy r instant v)
  decide-Told s (passed p) h =
      Yields-bind {R = λ _ _. Unit} (carry_out k u payload_hash policy r instant p) _
        (record { at = λ _ _ _ _. tt }) (λ a. Yields-pure (result a) (λ _ _. tt))
  decide-Told s (refused e) h = Yields-pure (refusal e) (λ db same. (same, h.at e refl))
  decide-Told s (crashed e) h = record { at = λ db _ a q. cc }

  module _ (s : Db) (given : is_empty (resolved_reason r) ≡ false) where
    start-Told :
        (fallback : ℕ) → Yields (At s) (Told s) (start k u payload_hash policy r instant fallback)
    start-Told fallback = record {
      at = λ db same.
          subst
            (λ x.
              (a : Outcome)
              → (start k u payload_hash policy r instant fallback x).0 ≡ ok a
              → Told s a (start k u payload_hash policy r instant fallback x).1)
            (sym same) ((decide-Told s _ (plan_retry-Refuses s fallback given)).at s refl);
    }

    with_record-Told :
        (fallback : ℕ) (o : Option KeyRow)
        → Yields (At s) (Told s) (with_record k u payload_hash policy r instant fallback o)
    with_record-Told fallback none = start-Told fallback
    with_record-Told fallback (some row) =
        Yields-if (is_other_payload k u payload_hash policy r instant row.payload_hash) _ _
          (λ _. Yields-pure _ (λ db same. (same, inr (inr (refl, given)))))
          (λ _. repeat row.first_response_json)
      where
        repeat :
            (o : Option AcceptedResponse)
            → Yields (At s) (Told s) (repeat_or_start k u payload_hash policy r instant fallback o)
        repeat none = start-Told fallback
        repeat (some response) = record {
          at = λ db same a e. subst (λ x. Told s x db) (ok-injective _ a e) tt;
        }

    with_idempotency-Told :
        (fallback : ℕ) (o : Option Text)
        → Yields (At s) (Told s) (with_idempotency k u payload_hash policy r instant fallback o)
    unfolding get_key
    with_idempotency-Told fallback none = start-Told fallback
    with_idempotency-Told fallback (some key) =
        Yields-bind {R = λ _. At s} (get_key (idempotency_scope u r.job_id) key) _
          (record { at = λ db same _ _. same }) (λ o. with_record-Told fallback o)

  abbrev after_id : ℕ → Exec Db Outcome
  after_id fallback =
      if is_empty (resolved_reason r)
      then pure (refusal (empty_reason fallback))
      else with_idempotency k u payload_hash policy r instant fallback r.idempotency_key

  after_id-Told : (s : Db) (fallback : ℕ) → Yields (At s) (Told s) (after_id fallback)
  after_id-Told s fallback =
      Yields-if (is_empty (resolved_reason r)) _ _
        (λ blank. Yields-pure _ (λ db same. (same, inl (refl, blank))))
        (λ given. with_idempotency-Told s given fallback r.idempotency_key)

  -- A manual retry that is refused has written nothing: at most a correlation id was drawn. The
  -- refusal has the status 422 and the reason of the request is blank, or 404 and the job is not
  -- there, or 409 for a request with a reason.
  pub accept_manual_retry_command-refusal :
      (db : Db) (e : ManualRetryError)
      → (accept_manual_retry_command k u payload_hash policy r instant db).0 ≡ ok (refusal e)
      → ((accept_manual_retry_command k u payload_hash policy r instant db).1
          ≡ (ensured r.correlation_id db).1)
        × Because r db e
  unfolding accept_manual_retry_command generate_uuid
  accept_manual_retry_command-refusal db e = from r.correlation_id
    where
      from :
          (o : Option ℕ)
          → ((do fallback ← ensure_uuid o; after_id fallback) db).0 ≡ ok (refusal e)
          → (((do fallback ← ensure_uuid o; after_id fallback) db).1 ≡ (ensured o db).1)
            × Because r db e
      from none =
          (after_id-Told (ensured none db).1 db.next_uuid).at (ensured none db).1 refl (refusal e)
      from (some id) = (after_id-Told db id).at db refl (refusal e)
