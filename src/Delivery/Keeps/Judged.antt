-- ===== src/Delivery/Keeps/Judged.antt =====
-- How many copies arrived and failed, and the final state (_final_state_from_outcomes of
-- app/delivery/service.py).
use stream_lite.Base.{
  ℕ, suc, ◌≡◌, refl, subst, Bool, true, false, ◌&&◌, List, [], ◌∷◌, ◌↔◌, length, ltb, arith,
  if◌then◌else◌,
}
use stream_lite.Base.Exec.{ok, ok-injective}
use stream_lite.Jobs.{JobState}
use stream_lite.Store.Rows.{DestinationOutcome}
use stream_lite.Delivery.Outcome.{Final, final_of, all_retryable}

-- What the number of the copies that were delivered and of those that failed says of the state.
pub record Judged (max n s f : ℕ) (state : JobState) : Type 0 where
  pub completed : (state ≡ JobState.completed) ↔ (f ≡ 0)
  pub partly : (state ≡ JobState.completed_with_delivery_errors) ↔ ((ltb 0 s && ltb 0 f) ≡ true)
  pub put_back : state ≡ JobState.retry_pending → (s ≡ 0) × (ltb n max ≡ true)

module _ (max n : ℕ) where
  all_good : (s : ℕ) → Judged max n (suc s) 0 JobState.completed
  all_good s = record {
    completed = (λ e. refl, λ e. refl);
    partly = (λ e. cc, λ e. ground arith);
    put_back = λ e. cc;
  }

  some_bad : (s f : ℕ) → Judged max n (suc s) (suc f) JobState.completed_with_delivery_errors
  some_bad s f = record {
    completed = (λ e. cc, λ e. cc);
    partly = (λ e. ground arith, λ e. refl);
    put_back = λ e. cc;
  }

  none_good :
      (f : ℕ) (b : Bool)
      → (b ≡ true → ltb n max ≡ true)
      → Judged max n 0 (suc f) (if b then JobState.retry_pending else JobState.failed)
  none_good f true h = record {
    completed = (λ e. cc, λ e. cc);
    partly = (λ e. cc, λ e. ground arith);
    put_back = λ e. (refl, h refl);
  }
  none_good f false h = record {
    completed = (λ e. cc, λ e. cc);
    partly = (λ e. cc, λ e. ground arith);
    put_back = λ e. cc;
  }

  pub final_of-Judged :
      (d f : List DestinationOutcome) (final : Final)
      → final_of max n d f ≡ ok final
      → Judged max n (length d) (length f) final.state
  final_of-Judged (d ∷ ds) [] final h =
      subst (λ x. Judged max n (length (d ∷ ds)) 0 x.state) (ok-injective _ final h)
        (all_good (length ds))
  final_of-Judged (d ∷ ds) (f ∷ fs) final h =
      subst (λ x. Judged max n (length (d ∷ ds)) (length (f ∷ fs)) x.state) (ok-injective _ final h)
        (some_bad (length ds) (length fs))
  final_of-Judged [] (f ∷ fs) final h =
      subst (λ x. Judged max n 0 (length (f ∷ fs)) x.state) (ok-injective _ final h)
        (none_good (length fs) (all_retryable (f ∷ fs) && ltb n max)
          (second (all_retryable (f ∷ fs)) (ltb n max)))
    where
      second : (a b : Bool) → (a && b) ≡ true → b ≡ true
      second a b h = ground arith
  final_of-Judged [] [] final h = cc
