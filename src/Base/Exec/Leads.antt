-- ===== src/Base/Exec/Leads.antt =====
-- What holds of the session after an action, whether it returns or raises.
use mathlib.Core.Path.{◌≡◌, refl}
use mathlib.Core.Bool.{Bool, true, false}
use stream_lite.Base.Tests.{if◌then◌else◌}
use stream_lite.Base.Exec.{Result, ok, err, Exec, pure, lift, caught, ◌>>=◌, continue}

-- From a session with `P`, the action leads to one with `Q`.
pub record Leads {ℓ} {S A : Type ℓ} (P Q : S → Type ℓ) (m : Exec S A) : Type ℓ where
  pub at : (s : S) → P s → Q (m s).1

module _ {ℓ} {S A : Type ℓ} {P Q : S → Type ℓ} (weaken : (s : S) → P s → Q s) where
  pub Leads-pure : (a : A) → Leads P Q (pure a)
  Leads-pure a = record { at = weaken }

  pub Leads-lift : (r : Result A) → Leads P Q (lift r)
  Leads-lift r = record { at = weaken }

module _ {ℓ} {S A : Type ℓ} {P Q : S → Type ℓ} where
  pub Leads-if :
      (b : Bool) (m n : Exec S A)
      → (b ≡ true → Leads P Q m)
      → (b ≡ false → Leads P Q n)
      → Leads P Q (if b then m else n)
  Leads-if true m n h k = h refl
  Leads-if false m n h k = k refl

  pub Leads-caught : (m : Exec S A) → Leads P Q m → Leads P Q (caught m)
  Leads-caught m h = record { at = h.at }

module _ {ℓ} {S A B : Type ℓ} {R Q : S → Type ℓ} (weaken : (s : S) → R s → Q s) where
  Leads-continue :
      (r : Result A) (f : A → Exec S B)
      → ((a : A) → Leads R Q (f a))
      → (s : S) → R s
      → Q (continue r f s).1
  Leads-continue (ok a) f h s k = (h a).at s k
  Leads-continue (err e) f h s k = weaken s k

  -- Where the first action raises, the session is left as it leads to.
  pub Leads-bind :
      {P : S → Type ℓ} (m : Exec S A) (f : A → Exec S B)
      → Leads P R m
      → ((a : A) → Leads R Q (f a))
      → Leads P Q (m >>= f)
  Leads-bind m f h k = record { at = λ s p. Leads-continue (m s).0 f k (m s).1 (h.at s p) }

  -- Where the result of a `lift` is known, the rest knows it.
  pub Leads-lift-bind :
      (r : Result A) (f : A → Exec S B)
      → ((a : A) → r ≡ ok a → Leads R Q (f a))
      → Leads R Q (lift r >>= f)
  Leads-lift-bind (ok a) f h = record { at = (h a refl).at }
  Leads-lift-bind (err e) f h = record { at = weaken }
