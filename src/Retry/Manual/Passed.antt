-- ===== src/Retry/Manual/Passed.antt =====
-- What is known of the job once the checks of app/retry/manual.py have passed.
use stream_lite.Base.{
  ℕ, ◌+◌, ◌≤◌, ◌≡◌, refl, ap, true, Option, none, some, some-injective, arith, leb, Bool-cases, inl,
  inr, ◌∙◌,
}
use stream_lite.Base.Text.{Casing}
use stream_lite.Base.Table.{get}
use stream_lite.Base.Uuids.{Uuids}
use stream_lite.Base.Exec.{ok}
use stream_lite.Jobs.{JobState, state_eq→eq}
use stream_lite.Store.Rows.{ProcessingAttempt, DeliveryAttempt}
use stream_lite.Store.Model.{Job, Schedule, Db}
use stream_lite.Retry.Classifier.{Classification}
use stream_lite.Retry.Backoff.{Policy, retry_allowed, next_attempt_number}
use stream_lite.Retry.Manual.{passed, or_refuse, of_result}
use stream_lite.Retry.Manual.Failed.{
  FailedStageContext, is_failed_stage, schedule_context, latest_context, infer_failed_stage,
  resolve_current_attempt_number, latest_delivery_failure, latest_processing_failure,
  latest_stage_schedule, delivery_context, processing_context,
}
use stream_lite.Retry.Manual.Checks.{
  Ensures, Ensures-passed, Ensures-bind, Ensures-require, or_refuse-passed, of_result-passed,
}
use stream_lite.Retry.Manual.Plan.{Plan, plan_retry, plan_attempt, exhausted}

schedule_context-stage :
    (o : Option (ℕ × Schedule)) (c : FailedStageContext)
    → schedule_context o ≡ some c
    → is_failed_stage c.stage ≡ true
schedule_context-stage none c h = cc
schedule_context-stage (some (id, row)) c h = elim (Bool-cases (is_failed_stage row.failed_stage)) [
  | inl fine ↦ rw (← some-injective _ c (rw fine at h)) fine
  | inr bad ↦ cc (rw bad at h)
]

latest_context-stage :
    (d : Option (ℕ × DeliveryAttempt)) (p : Option (ℕ × ProcessingAttempt))
    (s : Option (ℕ × Schedule)) (c : FailedStageContext)
    → latest_context d p s ≡ some c
    → is_failed_stage c.stage ≡ true
latest_context-stage (some d) (some p) s c h =
    elim (Bool-cases (leb (processing_context p).failed_at (delivery_context d).failed_at)) [
      | inl first ↦ rw (← some-injective _ c (rw first at h)) refl
      | inr second ↦ rw (← some-injective _ c (rw second at h)) refl
    ]
latest_context-stage (some d) none s c h = rw (← some-injective _ c h) refl
latest_context-stage none (some p) s c h = rw (← some-injective _ c h) refl
latest_context-stage none none s c h = schedule_context-stage s c h

infer_failed_stage-stage :
    (j : ℕ) (db : Db) (c : FailedStageContext)
    → infer_failed_stage j db ≡ some c
    → is_failed_stage c.stage ≡ true
unfolding infer_failed_stage
infer_failed_stage-stage j db c h =
    latest_context-stage (latest_delivery_failure j db) (latest_processing_failure j db)
      (latest_stage_schedule j db) c h

-- Where another attempt is allowed, the policy allows at least one, and the next is a later one.
next_attempt_number-some :
    (max n next : ℕ)
    → next_attempt_number max n ≡ ok (some next)
    → (1 ≤ max) × (next ≡ n + 1) × (next ≤ max)
unfolding next_attempt_number retry_allowed
next_attempt_number-some max n next h = ground arith

pub record Passed (policy : Policy) (job_id : ℕ) (db : Db) (p : Plan) : Type 0 where
  pub found : get job_id db.jobs ≡ some p.job
  pub is_failed : p.job.state ≡ JobState.failed
  pub context : infer_failed_stage job_id db ≡ some p.failed_context
  pub stage : is_failed_stage p.failed_context.stage ≡ true
  pub current : ℕ
  pub counted :
      resolve_current_attempt_number (some p.job.attempt_number) p.failed_context.attempt_number
      ≡ some current
  pub next : p.next_attempt_number ≡ current + 1
  pub some_attempt : 1 ≤ policy.max_attempts
  pub within : p.next_attempt_number ≤ policy.max_attempts

module _ (k : Casing) (u : Uuids) (policy : Policy) (job_id : ℕ) (db : Db) where
  -- The end of the chain.
  plan_attempt-Ensures :
      (job : Job) (c : FailedStageContext) (correlation : ℕ) (d : Classification)
      → get job_id db.jobs ≡ some job
      → job.state ≡ JobState.failed
      → infer_failed_stage job_id db ≡ some c
      → Ensures (Passed policy job_id db) (plan_attempt k u policy job_id job c correlation d)
  plan_attempt-Ensures job c correlation d found state inferred = Ensures-require _ _ _ (λ _.
      Ensures-bind _ _ (λ current counted. Ensures-bind _ _ (λ allowed _.
        Ensures-require _ _ _ (λ _. Ensures-bind _ _ (λ after_it e. Ensures-bind _ _ (λ next e'.
          Ensures-passed _ (last current after_it next (or_refuse-passed _ _ counted) e e')))))))
    where
      last :
          (current : ℕ) (after_it : Option ℕ) (next : ℕ)
          → resolve_current_attempt_number (some job.attempt_number) c.attempt_number ≡ some current
          → of_result (next_attempt_number policy.max_attempts current) ≡ passed after_it
          → or_refuse after_it (exhausted job_id correlation job) ≡ passed next
          → Passed policy job_id db (record {
            job = job;
            failed_context = c;
            classification = d;
            next_attempt_number = next;
            correlation_id = correlation;
          })
      last current after_it next counted e e' =
          let fine =
            next_attempt_number-some policy.max_attempts current next
              (of_result-passed _ e ∙ ap ok (or_refuse-passed after_it _ e')) in
          record {
            found = found;
            is_failed = state;
            context = inferred;
            stage = infer_failed_stage-stage job_id db c inferred;
            current = current;
            counted = counted;
            next = fine.1;
            some_attempt = fine.0;
            within = fine.2;
          }

  -- What holds of the job where the checks have passed.
  pub plan_retry-Passed :
      (correlation_id : Option ℕ) (fallback : ℕ) (p : Plan)
      → plan_retry k u policy job_id correlation_id fallback db ≡ passed p
      → Passed policy job_id db p
  unfolding plan_retry
  plan_retry-Passed correlation_id fallback = chain.at
    where
      chain :
          Ensures
            (Passed policy job_id db)
            (plan_retry k u policy job_id correlation_id fallback db)
      chain = Ensures-bind _ _ (λ job e. Ensures-require _ _ _ (λ state. Ensures-bind _ _ (λ c e'.
          Ensures-bind _ _ (λ d _.
            plan_attempt-Ensures job c _ d (or_refuse-passed _ _ e) (state_eq→eq _ _ state)
              (or_refuse-passed _ _ e')))))
