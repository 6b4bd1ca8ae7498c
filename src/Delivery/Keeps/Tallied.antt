-- ===== src/Delivery/Keeps/Tallied.antt =====
-- The counters of deliver_one in app/delivery/service.py, counted again from the copies alone.
use stream_lite.Base.{
  ℕ, suc, ◌+◌, ◌≡◌, refl, sym, ap, ◌∙◌, Bool, true, false, not, List, [], ◌∷◌, ◌++◌, keep, length,
  arith, if◌then◌else◌,
}
use stream_lite.Base.Exec.{Result, ok, err, Exec}
use stream_lite.Base.Exec.Off.{Off}
use stream_lite.Base.Exec.Yields.{Yields, Yields-if, Yields-pure, Yields-bind, Yields-lift-bind}
use stream_lite.Base.Text.{Text, text}
use stream_lite.Delivery.{CopyResult, Files}
use stream_lite.Delivery.Keeps.{record_transfer_health_failure-Off}
use stream_lite.Delivery.Outcome.{delivered_outcomes, failed_outcomes}
use stream_lite.Delivery.Targets.{
  Work, Tally, no_tally, text_or, delivered_outcome, failed_outcome, with_success, with_failure,
  finish_delivered, finish_failed, deliver_target, deliver_targets,
}
use stream_lite.Routing.Delivery.{Target}
use stream_lite.Store.Core.{
  core, enqueue_event-Off, create_delivery_attempt-Off, complete_delivery_attempt-Off,
  fail_delivery_attempt-Off,
}
use stream_lite.Store.Model.{Db}
use stream_lite.Store.Rows.{DestinationOutcome}
use stream_lite.Store.Told.{Anything}

length-keep_last :
    (p : DestinationOutcome → Bool) (os : List DestinationOutcome) (o : DestinationOutcome)
    → length (keep p (os ++ (o ∷ []))) ≡ length (keep p os) + (if p o then 1 else 0)
unfolding keep
length-keep_last p [] o = ground arith
length-keep_last p (x ∷ os) o = ground (arith, length-keep_last p os o)

-- How many of the copies arrive, read off the answers of the file plane alone. A copy that raises
-- does not arrive.
abbrev pub came : Result CopyResult → ℕ
came (ok copied) = if copied.is_delivered then 1 else 0
came (err e) = 0

abbrev pub arrived : Files → Work → Text → (ℕ → ℕ) → List Target → ℕ
arrived files w source started [] = 0
arrived files w source started (target ∷ targets) =
    came (files.copy_output_to_destination w.job_id w.job source target (started 0))
    + arrived files w source (λ i. started (suc i)) targets

-- The counters agree with the outcomes; `n` targets are done, and `g` copies arrived.
pub record Tallied (n g : ℕ) (t : Tally) : Type 0 where
  pub arrivals : t.successful_destination_count ≡ g
  pub good : t.successful_destination_count ≡ length (delivered_outcomes t.destination_outcomes)
  pub bad : t.failed_destination_count ≡ length (failed_outcomes t.destination_outcomes)
  pub total : t.successful_destination_count + t.failed_destination_count ≡ n

pub no_tally-Tallied : Tallied 0 0 no_tally
unfolding delivered_outcomes failed_outcomes keep
no_tally-Tallied = record { arrivals = refl; good = refl; bad = refl; total = refl }

pub Tallied-as : {n m g k : ℕ} (t : Tally) → n ≡ m → g ≡ k → Tallied n g t → Tallied m k t
Tallied-as t e d h = rw (← e, ← d) h

+_zero : (n : ℕ) → n + 0 ≡ n
+_zero n = omega arith

module _ {n g : ℕ} {t : Tally} (h : Tallied n g t) (target : Target) (copied : CopyResult) where
  with_success-Tallied :
      copied.is_delivered ≡ true
      → Tallied (suc n) (g + came (ok copied)) (with_success target copied t)
  unfolding delivered_outcomes failed_outcomes
  with_success-Tallied delivered = record {
    arrivals = rw delivered (ap (λ m. m + 1) h.arrivals);
    good =
        ap (λ m. m + 1) h.good
        ∙ sym (length-keep_last _ t.destination_outcomes (delivered_outcome target copied));
    bad =
        h.bad
        ∙ sym (
            length-keep_last (λ o. not o.is_delivered) t.destination_outcomes
              (delivered_outcome target copied)
            ∙ +_zero _);
    total = omega (arith, h.total);
  }

  with_failure-Tallied :
      (code : Text)
      → copied.is_delivered ≡ false
      → Tallied (suc n) (g + came (ok copied)) (with_failure target copied code t)
  unfolding delivered_outcomes failed_outcomes
  with_failure-Tallied code failed = record {
    arrivals = rw failed (h.arrivals ∙ sym (+_zero g));
    good =
        h.good
        ∙ sym (
            length-keep_last (λ o. o.is_delivered) t.destination_outcomes
              (failed_outcome target copied code)
            ∙ +_zero _);
    bad =
        ap (λ m. m + 1) h.bad
        ∙ sym (length-keep_last _ t.destination_outcomes (failed_outcome target copied code));
    total = omega (arith, h.total);
  }

module _ (files : Files) (w : Work) (source : Text) where
  -- An action on other tables than the core; the counters do not hang on the session.
  pub waved : {A : Type 0} (m : Exec Db A) → Off core m → Yields Anything (λ _. Anything) m
  waved m h = record { at = λ db p a e. tt }

  module _ (target : Target) (copied : CopyResult) (id started completed n g : ℕ) (t : Tally)
      (h : Tallied n g t) where
    finish_delivered-Tallied :
        copied.is_delivered ≡ true
        → Yields Anything
            (λ t' _. Tallied (suc n) (g + came (ok copied)) t')
            (finish_delivered files w source target copied id started completed t)
    unfolding finish_delivered
    finish_delivered-Tallied delivered =
        Yields-bind {R = λ _. Anything} _ _ (waved _ (complete_delivery_attempt-Off id _ _ _ _))
          (λ _.
            Yields-bind {R = λ _. Anything} _ _ (waved _ (enqueue_event-Off _))
              (λ _. Yields-pure _ (λ _ _. with_success-Tallied h target copied delivered)))

    finish_failed-Tallied :
        (code : Text)
        → copied.is_delivered ≡ false
        → Yields Anything
            (λ t' _. Tallied (suc n) (g + came (ok copied)) t')
            (finish_failed files w source target copied id completed code t)
    unfolding finish_failed
    finish_failed-Tallied code failed =
        Yields-bind {R = λ _. Anything} _ _
          (waved _ (record_transfer_health_failure-Off files w source target code))
          (λ _.
            Yields-bind {R = λ _. Anything} _ _ (waved _ (fail_delivery_attempt-Off id _ _ _)) (λ _.
              Yields-bind {R = λ _. Anything} _ _ (waved _ (enqueue_event-Off _))
                (λ _. Yields-pure _ (λ _ _. with_failure-Tallied h target copied code failed))))

  deliver_target-Tallied :
      (target : Target) (started completed n g : ℕ) (t : Tally)
      → Tallied n g t
      → Yields Anything
          (λ t' _.
            Tallied
              (suc n)
              (g + came (files.copy_output_to_destination w.job_id w.job source target started))
              t')
          (deliver_target files w source target started completed t)
  unfolding deliver_target
  deliver_target-Tallied target started completed n g t h =
      Yields-bind {R = λ _. Anything} _ _ (waved _ (create_delivery_attempt-Off _)) (λ id.
        Yields-bind {R = λ _. Anything} _ _ (waved _ (enqueue_event-Off _)) (λ _.
          Yields-lift-bind (files.copy_output_to_destination w.job_id w.job source target started) _
            (λ copied e. rw e (
              Yields-if copied.is_delivered _ _
                (finish_delivered-Tallied target copied id started completed n g t h)
                (finish_failed-Tallied target copied id started completed n g t h
                  (text_or copied.reason_code (text "FINALIZE_FAILED")))))))

  pub deliver_targets-Tallied :
      (started completed : ℕ → ℕ) (targets : List Target) (n g : ℕ) (t : Tally)
      → Tallied n g t
      → Yields Anything
          (λ t' _. Tallied (n + length targets) (g + arrived files w source started targets) t')
          (deliver_targets files w source started completed targets t)
  unfolding deliver_targets
  deliver_targets-Tallied started completed [] n g t h =
      Yields-pure t (λ _ _. rw (+_zero n, +_zero g) h)
  deliver_targets-Tallied started completed (target ∷ targets) n g t h =
      let one = came (files.copy_output_to_destination w.job_id w.job source target (started 0)) in
      Yields-bind {R = λ t' _. Tallied (suc n) (g + one) t'} _ _
        (deliver_target-Tallied target (started 0) (completed 0) n g t h)
        (λ next. record {
          at = λ db p a e.
              let rest =
                (deliver_targets-Tallied (λ i. started (suc i)) (λ i. completed (suc i)) targets
                    (suc n) (g + one) next p).at
                  db tt a e in
              Tallied-as a (omega arith) (omega arith) rest;
        })
