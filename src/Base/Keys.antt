-- ===== src/Base/Keys.antt =====
-- Tables whose keys are all different, and what filtering, ordering and limiting their rows keeps.
use stream_lite.Base.Tests.{◌==◌, ==_refl, ==_iff, Bool-cases}
use stream_lite.Base.Lists.{
  All, take, keep, sort_by, insert_by, All-take, All-keep, All-sort_by, All-insert_by,
}
use stream_lite.Base.Table.{Table, get, put, get-put}
use Prim.Native.Nat.{ℕ, zero, suc}
use mathlib.Core.Path.{◌≡◌, refl, sym, ◌∙◌}
use mathlib.Core.Bool.{Bool}
use mathlib.Core.Logic.{◌≢◌, inl, inr}
use mathlib.Core.List.{[], ◌∷◌}
use mathlib.Core.Option.{none, some, some-injective}
use native.Mathlib.Omega.{arith}

module _ {ℓ} {A : Type ℓ} where
  -- No row stands under this key.
  abbrev pub Lacks : ℕ → Table A → Type 0
  Lacks k = All (λ row. row.0 ≢ k)

  abbrev pub Distinct : Table A → Type 0
  Distinct [] = Unit
  Distinct (row ∷ t) = Lacks row.0 t × Distinct t

  -- The rows are those that the table holds under their keys.
  abbrev pub HeldIn : Table A → Table A → Type ℓ
  HeldIn t = All (λ row. get row.0 t ≡ some row.1)

  Lacks-put : (j k : ℕ) (a : A) (t : Table A) → k ≢ j → Lacks j t → Lacks j (put k a t)
  unfolding put
  Lacks-put j k a [] ne h = (ne, tt)
  Lacks-put j k a ((i, b) ∷ t) ne h = elim (Bool-cases (i == k)) [
    | inl same ↦ rw same (ne, h.1)
    | inr other ↦ rw other (h.0, Lacks-put j k a t ne h.1)
  ]

  pub Distinct-put : (k : ℕ) (a : A) (t : Table A) → Distinct t → Distinct (put k a t)
  unfolding put
  Distinct-put k a [] h = (tt, tt)
  Distinct-put k a ((i, b) ∷ t) h = elim (Bool-cases (i == k)) [
    | inl same ↦ rw same ((rw (← (==_iff i k).0 same) h.0), h.1)
    | inr other ↦
        rw other (Lacks-put i k a t (λ e. cc (e, other, ==_refl i)) h.0, Distinct-put k a t h.1)
  ]

  -- One more row in front hides nothing of a row under another key.
  HeldIn-cons :
      (k : ℕ) (a : A) (t rows : Table A) → Lacks k rows → HeldIn t rows → HeldIn ((k, a) ∷ t) rows
  unfolding get
  HeldIn-cons k a t [] l h = tt
  HeldIn-cons k a t ((i, b) ∷ rows) l h = (ground (arith, l.0, h.0), HeldIn-cons k a t rows l.1 h.1)

  pub HeldIn-self : (t : Table A) → Distinct t → HeldIn t t
  unfolding get
  HeldIn-self [] d = tt
  HeldIn-self ((i, a) ∷ t) d = (rw ==_refl, HeldIn-cons i a t t d.0 (HeldIn-self t d.1))

  -- Writing under a key that the rows lack.
  pub HeldIn-put :
      (k : ℕ) (a : A) (t rows : Table A) → Lacks k rows → HeldIn t rows → HeldIn (put k a t) rows
  HeldIn-put k a t [] l h = tt
  HeldIn-put k a t ((i, b) ∷ rows) l h =
      (ground (arith, get-put k i a t, l.0, h.0), HeldIn-put k a t rows l.1 h.1)

  pub Distinct-take : (n : ℕ) (t : Table A) → Distinct t → Distinct (take n t)
  Distinct-take zero t d = tt
  Distinct-take (suc n) [] d = tt
  Distinct-take (suc n) (row ∷ t) d = (All-take (λ r. r.0 ≢ row.0) n t d.0, Distinct-take n t d.1)

  pub Distinct-keep : (p : ℕ × A → Bool) (t : Table A) → Distinct t → Distinct (keep p t)
  unfolding keep
  Distinct-keep p [] d = tt
  Distinct-keep p (row ∷ t) d = elim (Bool-cases (p row)) [
    | inl yes' ↦ rw yes' (All-keep (λ r. r.0 ≢ row.0) p t d.0, Distinct-keep p t d.1)
    | inr no' ↦ rw no' (Distinct-keep p t d.1)
  ]

module _ {ℓ} {A : Type ℓ} (before : ℕ × A → ℕ × A → Bool) where
  Distinct-insert_by :
      (row : ℕ × A) (t : Table A) → Lacks row.0 t → Distinct t → Distinct (insert_by before row t)
  Distinct-insert_by row [] l d = (tt, tt)
  Distinct-insert_by row (r ∷ t) l d = elim (Bool-cases (before r row)) [
    | inl first ↦ rw first (
      All-insert_by (λ q. q.0 ≢ r.0) before row t (λ e. l.0 (sym e)) d.0,
      Distinct-insert_by row t l.1 d.1,
    )
    | inr later ↦ rw later (l, d)
  ]

  pub Distinct-sort_by : (t : Table A) → Distinct t → Distinct (sort_by before t)
  unfolding sort_by
  Distinct-sort_by [] d = tt
  Distinct-sort_by (row ∷ t) d =
      Distinct-insert_by row (sort_by before t) (All-sort_by (λ q. q.0 ≢ row.0) before t d.0)
        (Distinct-sort_by t d.1)

module _ {ℓ} {A : Type ℓ} where
  pub get-HeldIn :
      (t rows : Table A) (j : ℕ) {a : A} → HeldIn t rows → get j rows ≡ some a → get j t ≡ some a
  unfolding get
  get-HeldIn t [] j h e = cc
  get-HeldIn t ((i, b) ∷ rows) j {a} h e = elim (Bool-cases (i == j)) [
    | inl same ↦ rw (← (==_iff i j).0 same) (h.0 ∙ (rw same at e))
    | inr other ↦ get-HeldIn t rows j h.1 (rw other at e)
  ]

  pub get-All {κ} :
      (P : ℕ × A → Type κ) (rows : Table A) (j : ℕ) (a : A)
      → All P rows
      → get j rows ≡ some a
      → P (j, a)
  unfolding get
  get-All P [] j a h e = cc
  get-All P ((i, b) ∷ rows) j a h e = elim (Bool-cases (i == j)) [
    | inl same ↦ rw (← (==_iff i j).0 same, ← some-injective b a (rw same at e)) h.0
    | inr other ↦ get-All P rows j a h.1 (rw other at e)
  ]

  pub get-Lacks : (k : ℕ) (rows : Table A) → Lacks k rows → get k rows ≡ none
  unfolding get
  get-Lacks k [] h = refl
  get-Lacks k ((i, b) ∷ rows) h = ground (arith, h.0, get-Lacks k rows h.1)
