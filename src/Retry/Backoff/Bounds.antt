-- ===== src/Retry/Backoff/Bounds.antt =====
-- The delays of app/retry/backoff.py stay between zero and the greatest backoff.
use stream_lite.Base.{
  ◌≤◌, refl, sym, ap, ◌∙◌, ℕ, ◌-◌, ◌≡◌, not, ◌&&◌, false, Option, none, some, arith, inl, inr,
  Bool-cases, ltb,
}
use stream_lite.Base.Exec.{ok, Result-cases, ok-injective}
use stream_lite.Retry.Backoff.{
  as_policy, in_micros, Floats, BackoffPolicy, make_policy, py_max, py_min, base_delay_seconds,
  bounds_of, delay_bounds_seconds, sample, next_delay_seconds, capped, bounds, sampled,
}

module _ (F : Floats) where
  open F use {
    Float, lt, of_int, times, power, half, three_halves, micros, lt_asym, not_lt_trans,
    of_int_nonneg, times_nonneg, power_nonneg, half_le, micros_mono,
  }

  lt_irrefl : (a : Float) → lt a a ≡ false
  lt_irrefl a = ground (arith, lt_asym a a)

  -- a ≤ b
  abbrev pub Le : Float → Float → Type 0
  Le a b = lt b a ≡ false

  le_max_left : (a b : Float) → Le a (py_max F a b)
  le_max_left a b = ground (arith, lt_irrefl a, lt_asym a b)

  max-le : (a b c : Float) → Le a c → Le b c → Le (py_max F a b) c
  max-le a b c h k = ground arith

  min_le_left : (a b : Float) → Le (py_min F a b) a
  min_le_left a b = ground (arith, lt_irrefl a, lt_asym b a)

  le-min : (a b c : Float) → Le c a → Le c b → Le c (py_min F a b)
  le-min a b c h k = ground arith

  module _ (p : BackoffPolicy F) where
    -- The bounds that a base delay between 0 and the greatest backoff gives.
    bounds_of_range :
        (base : Float)
        → Le (of_int 0) base
        → Le base (of_int p.max_backoff_seconds)
        → let (lower, upper) = bounds_of F p base in
          Le (of_int 0) lower × Le lower upper × Le upper (of_int p.max_backoff_seconds)
    unfolding bounds_of
    bounds_of_range base h k =
        let cap = of_int p.max_backoff_seconds in
        let lower = py_max F (of_int 0) (times base half) in
        let upper = py_min F cap (times base three_halves) in
        elim (Bool-cases p.jitter_enabled) [
          | inl on ↦ rw on (
            le_max_left (of_int 0) (times base half),
            le_max_left lower upper,
            max-le lower upper cap
                (max-le (of_int 0) (times base half) cap (of_int_nonneg p.max_backoff_seconds)
                  (not_lt_trans (times base half) base cap (half_le base h) k))
                (min_le_left cap (times base three_halves)),
          )
          | inr off ↦ rw off (h, lt_irrefl base, k)
        ]

    -- A sample is cut to the bounds, whatever the sampler returns.
    sample_range :
        (lower upper : Float)
        → Le lower upper
        → Le lower (sample F p (lower, upper)) × Le (sample F p (lower, upper)) upper
    unfolding sample
    sample_range lower upper h =
        let drawn = p.jitter_sampler lower upper in
        elim (Bool-cases (not (lt lower upper) && not (lt upper lower))) [
          | inl same ↦ rw same (lt_irrefl lower, h)
          | inr differ ↦ rw differ (
            le-min upper (py_max F lower drawn) lower h (le_max_left lower drawn),
            min_le_left upper (py_max F lower drawn),
          )
        ]

    base_delay_range :
        (n : ℕ) (base : Float)
        → Le (of_int 1) p.multiplier
        → base_delay_seconds F p n ≡ ok base
        → Le (of_int 0) base × Le base (of_int p.max_backoff_seconds)
    unfolding base_delay_seconds
    base_delay_range n base large h = elim (Bool-cases (ltb n 1)) [
      | inl low ↦ cc (rw low at h)
      | inr high ↦ from_power (power p.multiplier (n - 1)) refl (rw high at h)
    ]
      where
        from_power :
            (o : Option Float)
            → power p.multiplier (n - 1) ≡ o
            → capped F p o ≡ ok base
            → Le (of_int 0) base × Le base (of_int p.max_backoff_seconds)
        from_power none e h = cc
        from_power (some w) e h =
            let cap = of_int p.max_backoff_seconds in
            let raw = times (of_int p.initial_backoff_seconds) w in
            rw (← ok-injective (py_min F cap raw) base h) (
              le-min cap raw (of_int 0) (of_int_nonneg p.max_backoff_seconds) (
                  times_nonneg (of_int p.initial_backoff_seconds) w
                    (of_int_nonneg p.initial_backoff_seconds)
                    (power_nonneg p.multiplier (n - 1) w large e)),
              min_le_left cap raw,
            )

    delay_of_base :
        (n : ℕ) → next_delay_seconds F p n ≡ sampled F p (bounds F p (base_delay_seconds F p n))
    unfolding next_delay_seconds delay_bounds_seconds
    delay_of_base n = refl

    bounds_of_base : (n : ℕ) → delay_bounds_seconds F p n ≡ bounds F p (base_delay_seconds F p n)
    unfolding delay_bounds_seconds
    bounds_of_base n = refl

    valid_multiplier : make_policy F p ≡ ok p → Le (of_int 1) p.multiplier
    unfolding make_policy
    valid_multiplier valid = ground arith

    -- A delay lies between 0 and the greatest backoff, within the bounds of its attempt, whatever
    -- the jitter sampler returns.
    pub next_delay_seconds-range :
        (n : ℕ) {d : Float}
        → make_policy F p ≡ ok p
        → next_delay_seconds F p n ≡ ok d
        → (b : Float × Float) × (delay_bounds_seconds F p n ≡ ok b)
          × Le b.0 d
          × Le d b.1
          × Le (of_int 0) d
          × Le d (of_int p.max_backoff_seconds)
    next_delay_seconds-range n {d} valid h = elim (Result-cases (base_delay_seconds F p n)) [
      | inl (base, e) ↦ from_base base e
      | inr (x, e) ↦ cc (delay_of_base n, e, h)
    ]
      where
        from_base :
            (base : Float)
            → base_delay_seconds F p n ≡ ok base
            → (b : Float × Float) × (delay_bounds_seconds F p n ≡ ok b)
              × Le b.0 d
              × Le d b.1
              × Le (of_int 0) d
              × Le d (of_int p.max_backoff_seconds)
        from_base base e =
            let b = bounds_of F p base in
            let (low, high) = base_delay_range n base (valid_multiplier valid) e in
            let (low', in_order, high') = bounds_of_range base low high in
            let (above, below) = sample_range b.0 b.1 in_order in
            let drawn : sample F p b ≡ d =
              ok-injective (sample F p b) d
                (ap (λ r. sampled F p (bounds F p r)) (sym e) ∙ sym (delay_of_base n) ∙ h) in
            rw (← drawn) (
              b,
              bounds_of_base n ∙ ap (bounds F p) e,
              above,
              below,
              not_lt_trans (of_int 0) b.0 (sample F p b) low' above,
              not_lt_trans (sample F p b) b.1 (of_int p.max_backoff_seconds) below high',
            )

    returns :
        (n : ℕ) (w : Float)
        → ltb n 1 ≡ false
        → power p.multiplier (n - 1) ≡ some w
        → (d : Float) × (next_delay_seconds F p n ≡ ok d)
    unfolding next_delay_seconds delay_bounds_seconds base_delay_seconds
    returns n w late e = rw (late, e) (_, refl)

    -- The delay that the scheduler gets for an attempt from 1 on, where the power of the multiplier
    -- is not too large for a float: there is one, and it is at most the greatest backoff.
    pub as_policy-delay :
        (n : ℕ) (w : Float)
        → make_policy F p ≡ ok p
        → ltb n 1 ≡ false
        → power p.multiplier (n - 1) ≡ some w
        → (d : ℕ) × ((as_policy F p).delay_micros n ≡ ok d)
          × (d ≤ micros (of_int p.max_backoff_seconds))
    unfolding as_policy
    as_policy-delay n w valid late e =
        let (d, returned) = returns n w late e in
        let (b, same, above, below, positive, capped') =
          next_delay_seconds-range n valid returned in
        (micros d, ap (in_micros F) returned, micros_mono d (of_int p.max_backoff_seconds) capped')
