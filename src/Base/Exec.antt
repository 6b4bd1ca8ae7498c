-- ===== src/Base/Exec.antt =====
-- Methods that write to the session and may raise. What was written before a raise stays written
-- until the caller rolls back, so the state comes back beside the error too.

pub mod Leads
pub mod Yields
pub mod Off
use mathlib.Core.Path.{◌≡◌, refl}
use mathlib.Core.Logic.{◌⊎◌, inl, inr}

-- The exceptions of the modelled code, `ValueError`s but for the last three.
pub data Error : Type 0 where
  -- "job not found", "stage claim not found", ...: no row under the given key
  not_found : Error
  -- "invalid state transition: ..."
  invalid_transition : Error
  -- "stage is already claimed"
  already_claimed : Error
  -- pydantic's ValidationError, raised by an event model
  invalid_event : Error
  -- an argument outside its documented range
  bad_argument : Error
  -- OverflowError of the float power
  overflow : Error
  -- IntegrityError, for a row whose unique columns are taken
  integrity : Error
  -- an exception of code that is a parameter of the model
  unexpected : Error

pub data Result {ℓ} (A : Type ℓ) : Type ℓ where
  ok : A → Result A
  err : Error → Result A

pub Result-cases {ℓ} :
    {A : Type ℓ} (r : Result A) → ((a : A) × (r ≡ ok a)) ⊎ ((e : Error) × (r ≡ err e))
Result-cases (ok a) = inl (a, refl)
Result-cases (err e) = inr (e, refl)

pub ok-injective {ℓ} : {A : Type ℓ} (a b : A) → ◌≡◌ {A = Result A} (ok a) (ok b) → a ≡ b
ok-injective a b e = cc

abbrev pub Exec {ℓ} : Type ℓ → Type ℓ → Type ℓ
Exec S A = S → Result A × S

module _ {ℓ} {S A : Type ℓ} where
  abbrev pub pure : A → Exec S A
  pure a s = (ok a, s)

  abbrev pub raise : Error → Exec S A
  raise e s = (err e, s)

  abbrev pub lift : Result A → Exec S A
  lift r s = (r, s)

  -- The outcome of a `try` as a value; what was written before a raise stays written.
  abbrev pub caught : Exec S A → Exec S (Result A)
  caught m s = let (r, s') = m s in (ok r, s')

  abbrev pub gets : (S → A) → Exec S A
  gets f s = (ok (f s), s)

module _ {ℓ} {S A B : Type ℓ} where
  abbrev pub continue : Result A → (A → Exec S B) → Exec S B
  continue (ok a) f s = f a s
  continue (err e) f s = (err e, s)

  pub continue_inv :
      (r : Result A) (f : A → Exec S B) (s : S) (b : B)
      → (continue r f s).0 ≡ ok b
      → (a : A) × (r ≡ ok a) × ((f a s).0 ≡ ok b)
  continue_inv (ok a) f s b e = (a, refl, e)
  continue_inv (err x) f s b e = cc

  infixl 10 ◌>>=◌ ◌>>◌
  abbrev pub ◌>>=◌ : Exec S A → (A → Exec S B) → Exec S B
  ◌>>=◌ m f s = let (r, s') = m s in continue r f s'

  abbrev pub ◌>>◌ : Exec S A → Exec S B → Exec S B
  m >> n = m >>= λ _. n

module _ {ℓ} {S A B : Type ℓ} where
  -- `try: m finally: k`. What `k` raises takes the place of the outcome of `m`.
  abbrev pub finally : Exec S A → Exec S B → Exec S A
  finally m k = do outcome ← caught m; k; lift outcome
