-- ===== src/Retry/Tests.antt =====
-- The theorems about the retry component at concrete inputs, with floats that are halves.
use stream_lite.Base.{
  Option, ℕ, zero, suc, ◌*◌, ◌≤◌, ◌≡◌, refl, true, false, none, some, ltb, arith,
}
use stream_lite.Base.Text.{text, text_eq, strip, lower, upper, ascii_casing}
use stream_lite.Base.Exec.{ok}
use stream_lite.Store.Model.{FailureClass, Stage}
use stream_lite.Retry.Catalog.{
  catalog, event_catalog, validation_catalog, processing_catalog, delivery_catalog, routing_catalog,
}
use stream_lite.Retry.Classifier.{
  Classification, terminal_for, classify, normalize_stage, normalize_error_code, catalog_get,
  entry_for, classified,
}
use stream_lite.Retry.Classifier.Coherence.{classify-coherent, may_retry}
use stream_lite.Retry.Backoff.{
  as_policy, Floats, BackoffPolicy, Policy, make_policy, base_delay_seconds, bounds_of,
  delay_bounds_seconds, sample, next_delay_seconds,
}
use stream_lite.Retry.Backoff.Bounds.{as_policy-delay, Le, next_delay_seconds-range}
use Prim.Native.Nat.{◌/◌}

-- " Processing " and "processor_timeout" in whatever letters
abbrev timeout : Classification
timeout = classified none Stage.processing (text "PROCESSOR_TIMEOUT")

timeout_classified :
    classify ascii_casing (text " Processing ") (text "processor_timeout") none ≡ ok timeout
unfolding classify normalize_stage normalize_error_code lower upper strip text text_eq
timeout_classified = refl

classify-coherent_example :
    (timeout.retryable ≡ true
      → (timeout.failure_class ≡ FailureClass.retryable)
        × (timeout.terminal_state_when_not_retryable ≡ none)
        × (may_retry timeout.stage ≡ true))
    × (timeout.retryable ≡ false
        → (timeout.failure_class ≡ FailureClass.non_retryable)
          × (timeout.terminal_state_when_not_retryable ≡ some (terminal_for timeout.stage)))
classify-coherent_example =
    classify-coherent ascii_casing (text " Processing ") (text "processor_timeout") none
      timeout_classified

timeout_retryable : timeout.retryable ≡ true
unfolding entry_for catalog_get catalog event_catalog validation_catalog processing_catalog
    delivery_catalog routing_catalog text text_eq
timeout_retryable = refl

-- A number of halves.
power : ℕ → ℕ → ℕ
power a zero = 2
power a (suc n) = power a n * a / 2

mono : (a b : ℕ) → ltb b a ≡ false → a * 500000 ≤ b * 500000
mono a b h = ground arith

halves_lt_asym : (a b : ℕ) → ltb a b ≡ true → ltb b a ≡ false
halves_lt_asym a b h = ground arith

halves_not_lt_trans : (a b c : ℕ) → ltb b a ≡ false → ltb c b ≡ false → ltb c a ≡ false
halves_not_lt_trans a b c h k = ground arith

halves_of_int_nonneg : (n : ℕ) → ltb (2 * n) (2 * 0) ≡ false
halves_of_int_nonneg n = ground arith

halves_times_nonneg :
    (a b : ℕ) → ltb a (2 * 0) ≡ false → ltb b (2 * 0) ≡ false → ltb (a * b / 2) (2 * 0) ≡ false
halves_times_nonneg a b h k = ground arith

halves_power_nonneg :
    (a n b : ℕ)
    → ltb a (2 * 1) ≡ false
    → ◌≡◌ {A = Option ℕ} (some (power a n)) (some b)
    → ltb b (2 * 0) ≡ false
halves_power_nonneg a n b h k = ground arith

halves_half_le : (a : ℕ) → ltb a (2 * 0) ≡ false → ltb a (a * 1 / 2) ≡ false
halves_half_le a h = ground arith

abbrev halves : Floats
halves = record {
  Float = ℕ;
  lt = ltb;
  of_int = λ n. 2 * n;
  times = λ a b. a * b / 2;
  power = λ a n. some (power a n);
  half = 1;
  three_halves = 3;
  micros = λ a. a * 500000;
  lt_asym = halves_lt_asym;
  not_lt_trans = halves_not_lt_trans;
  of_int_nonneg = halves_of_int_nonneg;
  times_nonneg = halves_times_nonneg;
  power_nonneg = halves_power_nonneg;
  half_le = halves_half_le;
  micros_mono = mono;
}

-- The defaults of the settings, and a sampler that always returns its greater bound.
abbrev defaults : BackoffPolicy halves
defaults = record {
  max_attempts = 3;
  initial_backoff_seconds = 1;
  multiplier = 4;
  max_backoff_seconds = 30;
  jitter_enabled = true;
  jitter_sampler = λ lower upper. upper;
}

second_delay : next_delay_seconds halves defaults 2 ≡ ok 6
unfolding next_delay_seconds delay_bounds_seconds base_delay_seconds bounds_of sample power
second_delay = refl

next_delay_seconds-range_example :
    (b : ℕ × ℕ) × (delay_bounds_seconds halves defaults 2 ≡ ok b)
    × Le halves b.0 6
    × Le halves 6 b.1
    × Le halves 0 6
    × Le halves 6 60
unfolding make_policy
next_delay_seconds-range_example = next_delay_seconds-range halves defaults 2 refl second_delay

second_power : halves.power 4 1 ≡ some 4
unfolding power
second_power = refl

as_policy-delay_example :
    (d : ℕ) × ((as_policy halves defaults).delay_micros 2 ≡ ok d)
    × (d ≤ halves.micros (halves.of_int 30))
unfolding make_policy
as_policy-delay_example = as_policy-delay halves defaults 2 4 refl refl second_power

abbrev policy : Policy
policy = record { max_attempts = 3; jitter_enabled = false; delay_micros = λ n. ok 1000000 }
