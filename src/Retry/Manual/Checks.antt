-- ===== src/Retry/Manual/Checks.antt =====
-- Rules for the chains of checks of app/retry/manual.py: what holds where a chain passes, and what
-- holds of the refusal where it refuses.
use stream_lite.Base.{◌≡◌, refl, subst, Bool, true, false, Option, none, some}
use stream_lite.Base.Exec.{Result, ok, err}
use stream_lite.Retry.Manual.{
  ManualRetryError, Verdict, passed, refused, crashed, ◌>>=◌, ◌>>◌, require, or_refuse, of_result,
}

passed-injective : {A : Type 0} (a b : A) → ◌≡◌ {A = Verdict A} (passed a) (passed b) → a ≡ b
passed-injective a b e = cc

-- What holds of the value with which a chain of checks passes.
pub record Ensures {A : Type 0} (P : A → Type 0) (m : Verdict A) : Type 0 where
  pub at : (a : A) → m ≡ passed a → P a

pub Ensures-passed : {A : Type 0} {P : A → Type 0} (a : A) → P a → Ensures P (passed a)
Ensures-passed {P = P} a h = record { at = λ b e. subst P (passed-injective a b e) h }

pub Ensures-bind :
    {A B : Type 0} {P : B → Type 0} (m : Verdict A) (f : A → Verdict B)
    → ((a : A) → m ≡ passed a → Ensures P (f a))
    → Ensures P (m >>= f)
unfolding ◌>>=◌
Ensures-bind (passed a) f h = h a refl
Ensures-bind (refused e) f h = record { at = λ b k. cc }
Ensures-bind (crashed e) f h = record { at = λ b k. cc }

pub Ensures-require :
    {B : Type 0} {P : B → Type 0} (c : Bool) (e : ManualRetryError) (m : Verdict B)
    → (c ≡ true → Ensures P m)
    → Ensures P (require c e >> m)
unfolding ◌>>=◌ require
Ensures-require true e m h = h refl
Ensures-require false e m h = record { at = λ b k. cc }

pub or_refuse-passed :
    {A : Type 0} (o : Option A) (e : ManualRetryError) {a : A}
    → or_refuse o e ≡ passed a
    → o ≡ some a
unfolding or_refuse
or_refuse-passed none e h = cc
or_refuse-passed (some x) e h = cc

pub of_result-passed : {A : Type 0} (r : Result A) {a : A} → of_result r ≡ passed a → r ≡ ok a
unfolding of_result
of_result-passed (ok x) h = cc
of_result-passed (err x) h = cc

refused-injective :
    {A : Type 0} (a b : ManualRetryError) → ◌≡◌ {A = Verdict A} (refused a) (refused b) → a ≡ b
refused-injective a b e = cc

-- What holds of the error with which a chain of checks refuses.
pub record Refuses {A : Type 0} (R : ManualRetryError → Type 0) (m : Verdict A) : Type 0 where
  pub at : (e : ManualRetryError) → m ≡ refused e → R e

module _ {A : Type 0} {R : ManualRetryError → Type 0} where
  pub Refuses-passed : (a : A) → Refuses R (passed a)
  Refuses-passed a = record { at = λ e k. cc }

  pub Refuses-or_refuse :
      (o : Option A) (e : ManualRetryError) → (o ≡ none → R e) → Refuses R (or_refuse o e)
  unfolding or_refuse
  Refuses-or_refuse none e h = record {
    at = λ e' k. subst R (refused-injective {A = A} e e' k) (h refl);
  }
  Refuses-or_refuse (some a) e h = record { at = λ e' k. cc }

  pub Refuses-of_result : (r : Result A) → Refuses R (of_result r)
  unfolding of_result
  Refuses-of_result (ok a) = record { at = λ e k. cc }
  Refuses-of_result (err x) = record { at = λ e k. cc }

  pub Refuses-require :
      (c : Bool) (e : ManualRetryError) (m : Verdict A)
      → (c ≡ false → R e)
      → Refuses R m
      → Refuses R (require c e >> m)
  unfolding ◌>>=◌ require
  Refuses-require true e m h k = k
  Refuses-require false e m h k = record {
    at = λ e' q. subst R (refused-injective {A = A} e e' q) (h refl);
  }

module _ {A B : Type 0} {R : ManualRetryError → Type 0} where
  pub Refuses-bind :
      (m : Verdict A) (f : A → Verdict B)
      → Refuses R m
      → ((a : A) → m ≡ passed a → Refuses R (f a))
      → Refuses R (m >>= f)
  unfolding ◌>>=◌
  Refuses-bind (passed a) f h k = k a refl
  Refuses-bind (refused e) f h k = record {
    at = λ e' q. subst R (refused-injective {A = B} e e' q) (h.at e refl);
  }
  Refuses-bind (crashed e) f h k = record { at = λ e' q. cc }

pub Refuses-weaken :
    {A : Type 0} {R R' : ManualRetryError → Type 0} (m : Verdict A)
    → ((e : ManualRetryError) → R e → R' e)
    → Refuses R m
    → Refuses R' m
Refuses-weaken m weaken h = record { at = λ e k. weaken e (h.at e k) }
