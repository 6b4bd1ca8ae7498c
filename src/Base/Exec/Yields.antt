-- ===== src/Base/Exec/Yields.antt =====
-- What holds of the answer and the session where an action returns.
use mathlib.Core.Path.{◌≡◌, refl, sym, subst}
use mathlib.Core.Bool.{Bool, true, false}
use stream_lite.Base.Tests.{if◌then◌else◌}
use stream_lite.Base.Exec.{
  Result, ok, err, ok-injective, Exec, pure, lift, finally, ◌>>=◌, continue,
}
use stream_lite.Base.Exec.Leads.{Leads}

-- From a session with `P`, an answer of the action and the session beside it have `Q`.
pub record Yields {ℓ} {S A : Type ℓ} (P : S → Type ℓ) (Q : A → S → Type ℓ) (m : Exec S A)
    : Type ℓ where
  pub at : (s : S) → P s → (a : A) → (m s).0 ≡ ok a → Q a (m s).1

module _ {ℓ} {S A : Type ℓ} {P : S → Type ℓ} {Q : A → S → Type ℓ} where
  pub Yields-pure : (a : A) → ((s : S) → P s → Q a s) → Yields P Q (pure a)
  Yields-pure a h = record { at = λ s p b e. subst (λ x. Q x s) (ok-injective a b e) (h s p) }

  pub Yields-if :
      (b : Bool) (m n : Exec S A)
      → (b ≡ true → Yields P Q m)
      → (b ≡ false → Yields P Q n)
      → Yields P Q (if b then m else n)
  Yields-if true m n h k = h refl
  Yields-if false m n h k = k refl

module _ {ℓ} {S A B : Type ℓ} {R : A → S → Type ℓ} {Q : B → S → Type ℓ} where
  Yields-continue :
      (r : Result A) (f : A → Exec S B) (s : S)
      → ((a : A) → r ≡ ok a → R a s)
      → ((a : A) → Yields (R a) Q (f a))
      → (b : B) → (continue r f s).0 ≡ ok b
      → Q b (continue r f s).1
  Yields-continue (ok a) f s h k b e = (k a).at s (h a refl) b e
  Yields-continue (err x) f s h k b e = cc

  pub Yields-bind :
      {P : S → Type ℓ} (m : Exec S A) (f : A → Exec S B)
      → Yields P R m
      → ((a : A) → Yields (R a) Q (f a))
      → Yields P Q (m >>= f)
  Yields-bind m f h k = record {
    at = λ s p b e. Yields-continue (m s).0 f (m s).1 (h.at s p) k b e;
  }

module _ {ℓ} {S A B : Type ℓ} {P : S → Type ℓ} {Q : B → S → Type ℓ} where
  -- Where the result of a `lift` is known, the rest knows it.
  pub Yields-lift-bind :
      (r : Result A) (f : A → Exec S B)
      → ((a : A) → r ≡ ok a → Yields P Q (f a))
      → Yields P Q (lift r >>= f)
  Yields-lift-bind (ok a) f h = record { at = (h a refl).at }
  Yields-lift-bind (err x) f h = record { at = λ s p b e. cc }

-- What holds whether the action returns or raises holds where it returns.
pub Leads-Yields {ℓ} :
    {S A : Type ℓ} {P Q : S → Type ℓ} (m : Exec S A) → Leads P Q m → Yields P (λ _. Q) m
Leads-Yields m h = record { at = λ s p _ _. h.at s p }

module _ {ℓ} {S A B : Type ℓ} where
  -- A later action that never looks at the answer.
  behind :
      (r : Result B) (o : Result A) (s : S) (a : A)
      → (continue r (λ _. lift o) s).0 ≡ ok a
      → (o ≡ ok a) × ((continue r (λ _. lift o) s).1 ≡ s)
  behind (ok b) o s a e = (e, refl)
  behind (err x) o s a e = cc

  pub Yields-finally :
      {P : S → Type ℓ} {Q : A → S → Type ℓ} (m : Exec S A) (k : Exec S B)
      → Yields P Q m
      → ((a : A) → Leads (Q a) (Q a) k)
      → Yields P Q (finally m k)
  Yields-finally {Q = Q} m k h keep = record {
    at = λ s p a e.
        let (told, same) = behind (k (m s).1).0 (m s).0 (k (m s).1).1 a e in
        subst (Q a) (sym same) ((keep a).at (m s).1 (h.at s p a told));
  }
