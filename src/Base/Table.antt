-- ===== src/Base/Table.antt =====
-- A database table with a primary key: its rows in the order of insertion.
use mathlib.Core.Path.{◌≡◌, refl}
use mathlib.Core.List.{List, [], ◌∷◌}
use mathlib.Core.Option.{Option, none, some}
use native.Mathlib.Omega.{arith}
use stream_lite.Base.Tests.{◌==◌, if◌then◌else◌, ==_refl}
use Prim.Native.Nat.{ℕ}

abbrev pub Table {ℓ} : Type ℓ → Type ℓ
Table A = List (ℕ × A)

module _ {ℓ} {A : Type ℓ} where
  -- session.get(Model, key)
  unfoldable pub get : ℕ → Table A → Option A
  get k [] = none
  get k ((j, a) ∷ t) = if j == k then some a else get k t

  -- A row written under its key: a new row is added, an old one is replaced in its place.
  unfoldable pub put : ℕ → A → Table A → Table A
  put k a [] = (k, a) ∷ []
  put k a ((j, b) ∷ t) = if j == k then (k, a) ∷ t else (j, b) ∷ put k a t

  pub get-put :
      (k j : ℕ) (a : A) (t : Table A) → get j (put k a t) ≡ (if k == j then some a else get j t)
  unfolding get put
  get-put k j a [] = refl
  get-put k j a ((i, b) ∷ t) = ground (arith, get-put k j a t)

  pub get-put_self : (k : ℕ) (a : A) (t : Table A) → get k (put k a t) ≡ some a
  get-put_self k a t = simp (get-put, ==_refl)
