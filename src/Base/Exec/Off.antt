-- ===== src/Base/Exec/Off.antt =====
-- What an action leaves as it was, whether it returns or raises.
use mathlib.Core.Path.{◌≡◌, refl, ap, ◌∙◌}
use mathlib.Core.Bool.{Bool, true, false}
use stream_lite.Base.Tests.{if◌then◌else◌}
use stream_lite.Base.Exec.{Result, ok, err, Exec, pure, lift, caught, ◌>>=◌, continue}

-- The part `f` of the session is the same behind the action.
pub record Off {ℓ} {S A X : Type ℓ} (f : S → X) (m : Exec S A) : Type ℓ where
  pub at : (s : S) → f (m s).1 ≡ f s

module _ {ℓ} {S A X : Type ℓ} {f : S → X} where
  pub Off-lift : (r : Result A) → Off f (lift {S = S} r)
  Off-lift r = record { at = λ s. refl }

  pub Off-pure : (a : A) → Off f (pure {S = S} a)
  Off-pure a = record { at = λ s. refl }

  pub Off-if : (b : Bool) (m n : Exec S A) → Off f m → Off f n → Off f (if b then m else n)
  Off-if true m n h k = h
  Off-if false m n h k = k

  pub Off-caught : (m : Exec S A) → Off f m → Off f (caught m)
  Off-caught m h = record { at = h.at }

module _ {ℓ} {S A B X : Type ℓ} {f : S → X} where
  Off-continue :
      (r : Result A) (g : A → Exec S B) (s : S)
      → ((a : A) → Off f (g a))
      → f (continue r g s).1 ≡ f s
  Off-continue (ok a) g s h = (h a).at s
  Off-continue (err e) g s h = refl

  pub Off-bind :
      (m : Exec S A) (g : A → Exec S B) → Off f m → ((a : A) → Off f (g a)) → Off f (m >>= g)
  Off-bind m g h k = record { at = λ s. Off-continue (m s).0 g (m s).1 k ∙ h.at s }

-- A smaller part.
pub Off-part {ℓ} :
    {S A X Y : Type ℓ} {f : S → X} (g : X → Y) (m : Exec S A) → Off f m → Off (λ s. g (f s)) m
Off-part g m h = record { at = λ s. ap g (h.at s) }
