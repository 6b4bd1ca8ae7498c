-- ===== src/Paths/Parts.antt =====
-- _normalize_candidate_path of app/config/path_policy.py: the parts of a normalised path.
use stream_lite.Base.{
  ℕ, ◌≡◌, refl, ap, ◌∙◌, subst, Bool, true, false, not, ◌&&◌, ◌||◌, Option, none, some,
  some-injective, List, [], ◌∷◌, ◌++◌, ◌==◌, keep, arith, Bool-cases, inl, inr, &&-true,
}
use stream_lite.Base.Text.{Text, is_empty, strip, split, onto}
use mathlib.Core.List.{reverse, reverse-cons, append-nil}
use stream_lite.Paths.{
  Normalized, normalized, has_char, is_dot, is_dot_dot, is_plain, Walk, pop, walk_part, go_on, walk,
  slashed, join_path, walked, is_absolute, normalize_candidate_path, path_parts,
}

-- A part that may stand in a normalised path: not empty, not "." or "..", with no "/".
unfoldable pub is_part : Text → Bool
is_part p = is_plain p && (not (is_dot_dot p) && not (has_char b'/' p))

unfoldable pub all_parts : List Text → Bool
all_parts [] = true
all_parts (p ∷ ps) = is_part p && all_parts ps

unfoldable pub no_slash : List Text → Bool
no_slash [] = true
no_slash (p ∷ ps) = not (has_char b'/' p) && no_slash ps

all_parts-append : (s t : List Text) → all_parts (s ++ t) ≡ (all_parts s && all_parts t)
unfolding all_parts
all_parts-append [] t = refl
all_parts-append (p ∷ s) t = ground (arith, all_parts-append s t)

all_parts-reverse : (s : List Text) → all_parts (reverse s) ≡ all_parts s
unfolding all_parts
all_parts-reverse [] = refl
all_parts-reverse (p ∷ s) =
    rw (reverse-cons p s, all_parts-append (reverse s) (p ∷ []), all_parts-reverse s) (ground arith)

-- What split yields has no separator in it.
no_slash-onto :
    (c : ℕ) (ps : List Text)
    → (c == b'/') ≡ false
    → no_slash ps ≡ true
    → no_slash (onto (c ∷ []) ps) ≡ true
unfolding no_slash has_char
no_slash-onto c [] h k = ground arith
no_slash-onto c (p ∷ ps) h k = ground arith

no_slash-split : (s : Text) → no_slash (split b'/' s) ≡ true
unfolding no_slash has_char split
no_slash-split [] = refl
no_slash-split (c ∷ s) = elim (Bool-cases (c == b'/')) [
  | inl yes' ↦ rw yes' (no_slash-split s)
  | inr no' ↦ rw no' (no_slash-onto c (split b'/' s) no' (no_slash-split s))
]

pop-all_parts :
    (st : List Text) (w : Walk) → all_parts st ≡ true → pop st ≡ some w → all_parts w.0 ≡ true
unfolding all_parts
pop-all_parts [] w fine e = cc
pop-all_parts (p ∷ st) w fine e =
    subst (λ (w : Walk). all_parts w.0 ≡ true) (some-injective (st, true) w e)
      (&&-true (is_part p) (all_parts st) fine).1

walk_part-all_parts :
    (p : Text) (st : List Text) (b : Bool) (w : Walk)
    → has_char b'/' p ≡ false
    → all_parts st ≡ true
    → walk_part p (st, b) ≡ some w
    → all_parts w.0 ≡ true
unfolding walk_part
walk_part-all_parts p st b w slash fine e = elim (Bool-cases (is_empty p || is_dot p)) [
  | inl skip ↦
      subst (λ (w : Walk). all_parts w.0 ≡ true) (some-injective (st, b) w (rw skip at e)) fine
  | inr plain ↦ elim (Bool-cases (is_dot_dot p)) [
    | inl up ↦ pop-all_parts st w fine (rw (plain, up) at e)
    | inr name ↦
        subst (λ (w : Walk). all_parts w.0 ≡ true)
          (some-injective (p ∷ st, b) w (rw (plain, name) at e))
          (unfold all_parts in unfold is_part in rw (plain, name, slash, fine) refl)
  ]
]

-- The loop keeps parts that may stand in a normalised path.
walk-all_parts :
    (ps : List Text) (w out : Walk)
    → no_slash ps ≡ true
    → all_parts w.0 ≡ true
    → walk ps w ≡ some out
    → all_parts out.0 ≡ true
unfolding walk no_slash
walk-all_parts [] w out slash fine e =
    subst (λ (w : Walk). all_parts w.0 ≡ true) (some-injective w out e) fine
walk-all_parts (p ∷ ps) w out slash fine e = from (walk_part p w) (walk-all_parts ps) refl e
  where
    both : (not (has_char b'/' p) ≡ true) × (no_slash ps ≡ true)
    both = &&-true (not (has_char b'/' p)) (no_slash ps) slash

    from :
        (o : Option Walk)
        → ((w' out : Walk)
            → no_slash ps ≡ true
            → all_parts w'.0 ≡ true
            → walk ps w' ≡ some out
            → all_parts out.0 ≡ true)
        → walk_part p w ≡ o
        → go_on o (walk ps) ≡ some out
        → all_parts out.0 ≡ true
    from none ih h k = cc
    from (some w') ih h k =
        ih w' out both.1 (walk_part-all_parts p w.0 w.1 w' (ground (arith, both.0)) fine h) k

split-part :
    (p t q : Text) (qs : List Text)
    → has_char b'/' p ≡ false
    → split b'/' t ≡ q ∷ qs
    → split b'/' (p ++ t) ≡ (p ++ q) ∷ qs
unfolding split has_char
split-part [] t q qs h e = e
split-part (c ∷ p) t q qs h e = rw (split-part p t q qs (ground arith) e) (ground arith)

split-slashed : (ps : List Text) → all_parts ps ≡ true → split b'/' (slashed ps) ≡ [] ∷ ps
unfolding split slashed all_parts
split-slashed [] h = refl
split-slashed (p ∷ ps) h =
    rw
      (
        split-part p (slashed ps) [] ps slash
            (split-slashed ps (&&-true (is_part p) (all_parts ps) h).1),
        append-nil p,
      )
      refl
  where
    slash : has_char b'/' p ≡ false
    slash = unfold is_part in ground arith

keep-all_parts : (ps : List Text) → all_parts ps ≡ true → keep is_plain ps ≡ ps
unfolding keep all_parts
keep-all_parts [] h = refl
keep-all_parts (p ∷ ps) h =
    rw (plain, keep-all_parts ps (&&-true (is_part p) (all_parts ps) h).1) refl
  where
    plain : is_plain p ≡ true
    plain = unfold is_part in ground arith

-- The parts of a joined path are the parts that were joined.
pub path_parts-join_path : (ps : List Text) → all_parts ps ≡ true → path_parts (join_path ps) ≡ ps
unfolding path_parts join_path split keep
path_parts-join_path [] h = refl
path_parts-join_path (p ∷ ps) h =
    ap (keep is_plain) (split-slashed (p ∷ ps) h) ∙ keep-all_parts (p ∷ ps) h

path_injective :
    (p q : Text) (a b : Bool) → ◌≡◌ {A = Normalized} (normalized p a) (normalized q b) → p ≡ q
path_injective p q a b e = cc

-- The path that the parts of a walk give.
walked-parts :
    (o : Option Walk) (path : Text) (had : Bool)
    → ((w : Walk) → o ≡ some w → all_parts w.0 ≡ true)
    → walked o ≡ normalized path had
    → (path ≡ join_path (path_parts path)) × (all_parts (path_parts path) ≡ true)
walked-parts none path had h e = cc
walked-parts (some w) path had h e =
    subst (λ q. (q ≡ join_path (path_parts q)) × (all_parts (path_parts q) ≡ true))
      (path_injective (join_path (reverse w.0)) path w.1 had e)
      (rw (path_parts-join_path (reverse w.0) fine) (refl, fine))
  where
    fine : all_parts (reverse w.0) ≡ true
    fine = all_parts-reverse w.0 ∙ h w refl

-- Whatever path is given, a path that comes out of normalising is the join of parts none of which
-- is empty, ".", ".." or holds a "/", and these are the parts that it is read as.
pub normalize_candidate_path-parts :
    (raw path : Text) (had : Bool)
    → normalize_candidate_path raw ≡ normalized path had
    → (path ≡ join_path (path_parts path)) × (all_parts (path_parts path) ≡ true)
unfolding normalize_candidate_path
normalize_candidate_path-parts raw path had e = elim (Bool-cases (is_absolute (strip raw))) [
  | inl fine ↦
      walked-parts (walk (split b'/' (strip raw)) ([], false)) path had
        (λ w.
          walk-all_parts (split b'/' (strip raw)) ([], false) w (no_slash-split (strip raw))
            (unfold all_parts in refl))
        (rw fine at e)
  | inr bad ↦ cc (rw bad at e)
]
