-- ===== src/Paths/Contained.antt =====
-- validate_path of app/config/path_policy.py: an accepted path stays under an allowed root.
use stream_lite.Base.{
  sym, ◌⊎◌, ℕ, ◌≡◌, refl, ap, subst, ◌∙◌, Bool, true, false, ◌||◌, Option, none, some,
  some-injective, List, [], ◌∷◌, ◌++◌, ltb, length, arith, Bool-cases, inl, inr, &&-true,
}
use stream_lite.Base.Text.{Text, text_eq, text_eq_iff, text_eq_refl}
use stream_lite.Paths.{
  Normalized, normalized, failure, normalize_candidate_path, path_parts, is_prefix, is_under,
  matching_root, longer, drop_parts, display_from_root,
}
use stream_lite.Paths.Parts.{
  is_part, all_parts, path_parts-join_path, normalize_candidate_path-parts,
}
use stream_lite.Paths.Policy.{
  Purpose, PathStatus, PathPolicy, PathValidationResult, allowed_roots_for, rejected, accepted_path,
  judge, escapes, validate_resolved, validate_path, judged, validate_candidate, validate_normalized,
}

-- root in roots
unfoldable pub is_listed : Text → List Text → Bool
is_listed root [] = false
is_listed root (r ∷ rs) = text_eq r root || is_listed root rs

longer_one :
    (root : Text) (o : Option Text) (best : Text)
    → longer root o ≡ some best
    → (root ≡ best) ⊎ (o ≡ some best)
longer_one root none best e = inl (some-injective root best e)
longer_one root (some r) best e = elim (Bool-cases (ltb (length root) (length r))) [
  | inl less ↦ inr (rw less at e)
  | inr more ↦ inl (some-injective root best (rw more at e))
]

-- The root that is found is a listed one, and the path is under it.
matching_root-is_under :
    (path : Text) (roots : List Text) (root : Text)
    → matching_root path roots ≡ some root
    → (is_listed root roots ≡ true) × (is_under path root ≡ true)
unfolding matching_root is_listed
matching_root-is_under path [] root e = cc
matching_root-is_under path (r ∷ rs) root e = elim (Bool-cases (is_under path r)) [
  | inl under ↦ elim (longer_one r (matching_root path rs) root (rw under at e)) [
    | inl same ↦ (
      subst (λ x. (text_eq r x || is_listed x rs) ≡ true) same (rw (text_eq_refl r) refl),
      subst (λ x. is_under path x ≡ true) same under,
    )
    | inr later ↦ let ih = matching_root-is_under path rs root later in (ground (arith, ih.0), ih.1)
  ]
  | inr out ↦
      let ih = matching_root-is_under path rs root (rw out at e) in (ground (arith, ih.0), ih.1)
]

is_prefix-drop_parts : (rs ps : List Text) → is_prefix rs ps ≡ true → rs ++ drop_parts rs ps ≡ ps
unfolding is_prefix drop_parts
is_prefix-drop_parts [] ps h = refl
is_prefix-drop_parts (r ∷ rs) [] h = cc
is_prefix-drop_parts (r ∷ rs) (p ∷ ps) h =
    let both = &&-true (text_eq r p) (is_prefix rs ps) h in
    cc ((text_eq_iff r p).0 both.0, is_prefix-drop_parts rs ps both.1)

all_parts-drop_parts :
    (rs ps : List Text) → all_parts ps ≡ true → all_parts (drop_parts rs ps) ≡ true
unfolding all_parts drop_parts
all_parts-drop_parts [] ps h = h
all_parts-drop_parts (r ∷ rs) [] h = refl
all_parts-drop_parts (r ∷ rs) (p ∷ ps) h =
    all_parts-drop_parts rs ps (&&-true (is_part p) (all_parts ps) h).1

-- What is shown of a path under a root is the rest of it.
display_from_root-parts :
    (path root : Text)
    → all_parts (path_parts path) ≡ true
    → is_under path root ≡ true
    → path_parts root ++ path_parts (display_from_root path root) ≡ path_parts path
unfolding display_from_root
display_from_root-parts path root fine under =
    ap (λ ps. path_parts root ++ ps)
      (path_parts-join_path (drop_parts (path_parts root) (path_parts path))
        (all_parts-drop_parts (path_parts root) (path_parts path) fine))
    ∙ is_prefix-drop_parts (path_parts root) (path_parts path) under

-- An accepted path.
pub record IsContained (roots : List Text) (r : PathValidationResult) : Type 0 where
  pub root : Text
  pub listed : is_listed root roots ≡ true
  pub under : is_under r.normalized_path root ≡ true
  pub plain : all_parts (path_parts r.normalized_path) ≡ true
  pub shown : path_parts root ++ path_parts r.display_path ≡ path_parts r.normalized_path
  pub given : r.path ≡ r.normalized_path

module _ (p : PathPolicy) (purpose : Purpose) (raw : Text) (c : ℕ) where
  abbrev roots : List Text
  roots = allowed_roots_for p purpose

  abbrev Judged : PathValidationResult → Type 0
  Judged r = r.status ≡ PathStatus.green → IsContained roots r

  rejected-Judged : (display code : Text) → Judged (rejected purpose c display code)
  unfolding rejected
  rejected-Judged display code h = cc

  judge-Judged :
      (path : Text) (had : Bool)
      → all_parts (path_parts path) ≡ true
      → Judged (judge p purpose c raw path had)
  unfolding judge accepted_path
  judge-Judged path had fine = from (matching_root path roots) refl
    where
      from :
          (o : Option Text)
          → matching_root path roots ≡ o
          → Judged (judged p purpose c raw path had o)
      from none e h = rejected-Judged _ _ h
      from (some root) e h =
          let found = matching_root-is_under path roots root e in
          record {
            root = root;
            listed = found.0;
            under = found.1;
            plain = fine;
            shown = display_from_root-parts path root fine found.1;
            given = refl;
          }

  resolved-Judged :
      (candidate : Text) (had : Bool) (n : Normalized)
      → ((path : Text) (b : Bool) → n ≡ normalized path b → all_parts (path_parts path) ≡ true)
      → Judged (validate_resolved p purpose c raw candidate had n)
  unfolding validate_resolved
  resolved-Judged candidate had (failure code) fine = rejected-Judged _ _
  resolved-Judged candidate had (normalized path b) fine =
      elim (Bool-cases (escapes candidate path roots)) [
        | inl out ↦ rw out (rejected-Judged _ _)
        | inr stays ↦ rw stays (judge-Judged path had (fine path b refl))
      ]

  candidate-Judged :
      (candidate : Text) (had : Bool) (o : Option (Text → Text))
      → all_parts (path_parts candidate) ≡ true
      → Judged (validate_candidate p purpose c raw candidate had o)
  candidate-Judged candidate had none fine = judge-Judged candidate had fine
  candidate-Judged candidate had (some resolver) fine =
      resolved-Judged candidate had (normalize_candidate_path (resolver candidate))
        (λ path b e. (normalize_candidate_path-parts (resolver candidate) path b e).1)

  normalized-Judged :
      (n : Normalized)
      → ((path : Text) (b : Bool) → n ≡ normalized path b → all_parts (path_parts path) ≡ true)
      → Judged (validate_normalized p purpose c raw n)
  normalized-Judged (failure code) fine = rejected-Judged _ _
  normalized-Judged (normalized candidate had) fine =
      candidate-Judged candidate had p.resolver (fine candidate had refl)

  -- An accepted path cannot leave the roots: whatever the operator types and wherever symbolic links
  -- lead, a path that validation accepts has no empty, "." or ".." part and lies under a root that
  -- the policy lists for the purpose, what is displayed
  -- of it is its rest below that root, and the whole of it is returned as its path.
  pub validate_path-IsContained :
      (validate_path p purpose raw c).status ≡ PathStatus.green
      → IsContained (allowed_roots_for p purpose) (validate_path p purpose raw c)
  unfolding validate_path
  validate_path-IsContained =
      normalized-Judged (normalize_candidate_path raw)
        (λ path b e. (normalize_candidate_path-parts raw path b e).1)

longer-some : (root : Text) (o : Option Text) → (best : Text) × (longer root o ≡ some best)
longer-some root none = (root, refl)
longer-some root (some r) = elim (Bool-cases (ltb (length root) (length r))) [
  | inl less ↦ (r, rw less refl)
  | inr more ↦ (root, rw more refl)
]

matching_root_found :
    (path root : Text) (roots : List Text)
    → is_listed root roots ≡ true
    → is_under path root ≡ true
    → (best : Text) × (matching_root path roots ≡ some best)
unfolding matching_root is_listed
matching_root_found path root [] listed under = cc
matching_root_found path root (r ∷ rs) listed under = elim (Bool-cases (is_under path r)) [
  | inl yes' ↦ rw yes' (longer-some r (matching_root path rs))
  | inr no' ↦ rw no' (matching_root_found path root rs (later no') under)
]
  where
    later : is_under path r ≡ false → is_listed root rs ≡ true
    later no' = elim (Bool-cases (text_eq r root)) [
      | inl same ↦
          cc (subst (λ x. is_under path x ≡ true) (sym ((text_eq_iff r root).0 same)) under, no')
      | inr other ↦ rw other at listed
    ]

judge-accepts :
    (p : PathPolicy) (purpose : Purpose) (raw : Text) (c : ℕ) (path : Text) (had : Bool)
    (best : Text)
    → matching_root path (allowed_roots_for p purpose) ≡ some best
    → ((judge p purpose c raw path had).status ≡ PathStatus.green)
      × ((judge p purpose c raw path had).normalized_path ≡ path)
unfolding judge accepted_path
judge-accepts p purpose raw c path had best e =
    subst
      (λ o.
        ((judged p purpose c raw path had o).status ≡ PathStatus.green)
        × ((judged p purpose c raw path had o).normalized_path ≡ path))
      (sym e) (refl, refl)

-- A path under a listed root is accepted, where the policy has no resolver.
pub validate_path-accepts :
    (p : PathPolicy) (purpose : Purpose) (raw : Text) (c : ℕ) (path root : Text) (had : Bool)
    → p.resolver ≡ none
    → normalize_candidate_path raw ≡ normalized path had
    → is_listed root (allowed_roots_for p purpose) ≡ true
    → is_under path root ≡ true
    → ((validate_path p purpose raw c).status ≡ PathStatus.green)
      × ((validate_path p purpose raw c).normalized_path ≡ path)
unfolding validate_path
validate_path-accepts p purpose raw c path root had no_links e listed under =
    let found = matching_root_found path root (allowed_roots_for p purpose) listed under in
    subst
      (λ n.
        ((validate_normalized p purpose c raw n).status ≡ PathStatus.green)
        × ((validate_normalized p purpose c raw n).normalized_path ≡ path))
      (sym e)
      (subst
        (λ o.
          ((validate_candidate p purpose c raw path had o).status ≡ PathStatus.green)
          × ((validate_candidate p purpose c raw path had o).normalized_path ≡ path))
        (sym no_links) (judge-accepts p purpose raw c path had found.0 found.1))
