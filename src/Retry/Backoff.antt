-- ===== src/Retry/Backoff.antt =====
-- app/retry/backoff.py: which attempt may follow, and after what delay. Python's floats (the NaNs
-- aside, which no operation here produces) are a parameter with the laws that IEEE 754 gives them.
pub mod Bounds
use stream_lite.Base.{
  ℕ, ◌+◌, ◌-◌, ◌≤◌, ◌≡◌, Bool, true, false, not, ◌&&◌, Option, none, some, ltb, if◌then◌else◌,
}
use stream_lite.Base.Exec.{Result, ok, err, bad_argument, overflow}

pub record Floats : Type 1 where
  pub Float : Type 0
  pub lt : Float → Float → Bool
  -- float(n)
  pub of_int : ℕ → Float
  pub times : Float → Float → Float
  -- x ** n, which raises OverflowError where the result is too large
  pub power : Float → ℕ → Option Float
  pub half : Float
  pub three_halves : Float
  -- timedelta(seconds=x), in microseconds
  pub micros : Float → ℕ
  pub lt_asym : (a b : Float) → lt a b ≡ true → lt b a ≡ false
  pub not_lt_trans : (a b c : Float) → lt b a ≡ false → lt c b ≡ false → lt c a ≡ false
  pub of_int_nonneg : (n : ℕ) → lt (of_int n) (of_int 0) ≡ false
  pub times_nonneg :
      (a b : Float)
      → lt a (of_int 0) ≡ false
      → lt b (of_int 0) ≡ false
      → lt (times a b) (of_int 0) ≡ false
  pub power_nonneg :
      (a : Float) (n : ℕ) (b : Float)
      → lt a (of_int 1) ≡ false
      → power a n ≡ some b
      → lt b (of_int 0) ≡ false
  pub half_le : (a : Float) → lt a (of_int 0) ≡ false → lt a (times a half) ≡ false
  pub micros_mono : (a b : Float) → lt b a ≡ false → micros a ≤ micros b

-- What the scheduler asks of a backoff policy.
pub record Policy : Type 0 where
  pub max_attempts : ℕ
  pub jitter_enabled : Bool
  pub delay_micros : ℕ → Result ℕ

-- retry_allowed_after_attempt
unfoldable pub retry_allowed : ℕ → ℕ → Result Bool
retry_allowed max_attempts current_attempt_number =
    if ltb current_attempt_number 1
    then err bad_argument
    else ok (ltb current_attempt_number max_attempts)

abbrev pub following : ℕ → Result Bool → Result (Option ℕ)
following n (ok true) = ok (some (n + 1))
following n (ok false) = ok none
following n (err e) = err e

unfoldable pub next_attempt_number : ℕ → ℕ → Result (Option ℕ)
unfolding retry_allowed
next_attempt_number max_attempts n = following n (retry_allowed max_attempts n)

module _ (F : Floats) where
  open F use {Float, lt, of_int, times, power, half, three_halves, micros}

  -- max(a, b) and min(a, b) return the first of two equal arguments.
  abbrev pub py_max : Float → Float → Float
  py_max a b = if lt a b then b else a

  abbrev pub py_min : Float → Float → Float
  py_min a b = if lt b a then b else a

  pub record BackoffPolicy : Type 0 where
    pub max_attempts : ℕ
    pub initial_backoff_seconds : ℕ
    pub multiplier : Float
    pub max_backoff_seconds : ℕ
    pub jitter_enabled : Bool
    pub jitter_sampler : Float → Float → Float

  -- __post_init__; a negative max_attempts is no natural number.
  unfoldable pub make_policy : BackoffPolicy → Result BackoffPolicy
  make_policy p =
      if ltb p.initial_backoff_seconds 1
      then err bad_argument
      else if lt p.multiplier (of_int 1)
      then err bad_argument
      else if ltb p.max_backoff_seconds 1
      then err bad_argument
      else ok p

  abbrev pub capped : BackoffPolicy → Option Float → Result Float
  capped p none = err overflow
  capped p (some power') =
      ok (py_min (of_int p.max_backoff_seconds) (times (of_int p.initial_backoff_seconds) power'))

  unfoldable pub base_delay_seconds : BackoffPolicy → ℕ → Result Float
  base_delay_seconds p n =
      if ltb n 1 then err bad_argument else capped p (power p.multiplier (n - 1))

  -- The two bounds that a base delay gives.
  unfoldable pub bounds_of : BackoffPolicy → Float → Float × Float
  bounds_of p base_delay =
      if p.jitter_enabled
      then (let lower = py_max (of_int 0) (times base_delay half) in
          let upper = py_min (of_int p.max_backoff_seconds) (times base_delay three_halves) in
          (lower, py_max lower upper))
      else (base_delay, base_delay)

  abbrev pub bounds : BackoffPolicy → Result Float → Result (Float × Float)
  bounds p (ok base_delay) = ok (bounds_of p base_delay)
  bounds p (err e) = err e

  unfoldable pub delay_bounds_seconds : BackoffPolicy → ℕ → Result (Float × Float)
  delay_bounds_seconds p n = bounds p (base_delay_seconds p n)

  -- The sample, cut to the bounds.
  unfoldable pub sample : BackoffPolicy → Float × Float → Float
  sample p (lower, upper) =
      if not (lt lower upper) && not (lt upper lower)
      then lower
      else py_min upper (py_max lower (p.jitter_sampler lower upper))

  abbrev pub sampled : BackoffPolicy → Result (Float × Float) → Result Float
  sampled p (ok b) = ok (sample p b)
  sampled p (err e) = err e

  unfoldable pub next_delay_seconds : BackoffPolicy → ℕ → Result Float
  next_delay_seconds p n = sampled p (delay_bounds_seconds p n)

  abbrev pub in_micros : Result Float → Result ℕ
  in_micros (ok d) = ok (micros d)
  in_micros (err e) = err e

  -- The policy as the scheduler sees it.
  unfoldable pub as_policy : BackoffPolicy → Policy
  as_policy p = record {
    max_attempts = p.max_attempts;
    jitter_enabled = p.jitter_enabled;
    delay_micros = λ n. in_micros (next_delay_seconds p n);
  }
