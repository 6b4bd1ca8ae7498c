-- ===== src/Paths.antt =====
-- app/config/path_policy.py: which container paths an operator may name. The paths that reach
-- PurePosixPath are normalised, so it is here the list of the parts after its single root.
pub mod Policy
pub mod Parts
pub mod Contained
mod Tests
use stream_lite.Base.{
  ℕ, Bool, true, false, not, ◌&&◌, ◌||◌, Option, none, some, List, [], ◌∷◌, ◌++◌, ◌==◌, leb, ltb,
  if◌then◌else◌, length, keep,
}
use stream_lite.Base.Text.{Text, text, text_eq, is_empty, strip, split}
use mathlib.Core.List.{reverse}

abbrev pub path_invalid : Text
path_invalid = text "PATH_INVALID"

abbrev pub path_traversal_rejected : Text
path_traversal_rejected = text "PATH_TRAVERSAL_REJECTED"

abbrev pub path_symlink_escape : Text
path_symlink_escape = text "PATH_SYMLINK_ESCAPE"

abbrev pub path_not_allowlisted : Text
path_not_allowlisted = text "PATH_NOT_ALLOWLISTED"

-- A normalised path with the mark of a parent reference, or _PathValidationFailure with its code.
pub data Normalized : Type 0 where
  normalized : Text → Bool → Normalized
  failure : Text → Normalized

unfoldable pub has_char : ℕ → Text → Bool
has_char c [] = false
has_char c (d ∷ s) = d == c || has_char c s

abbrev is_letter : ℕ → Bool
is_letter c = (leb b'A' c && leb c b'Z') || (leb b'a' c && leb c b'z')

-- _WINDOWS_DRIVE_PATTERN.match
unfoldable pub has_drive : Text → Bool
has_drive (c ∷ (d ∷ (e ∷ s))) = is_letter c && (d == b':' && (e == 92 || e == b'/'))
has_drive _ = false

abbrev pub starts_with_slash : Text → Bool
starts_with_slash [] = false
starts_with_slash (c ∷ s) = c == b'/'

abbrev pub is_dot : Text → Bool
is_dot [] = false
is_dot (c ∷ []) = c == b'.'
is_dot (c ∷ (d ∷ s)) = false

abbrev pub is_dot_dot : Text → Bool
is_dot_dot [] = false
is_dot_dot (c ∷ []) = false
is_dot_dot (c ∷ (d ∷ [])) = c == b'.' && d == b'.'
is_dot_dot (c ∷ (d ∷ (e ∷ s))) = false

-- What the loop holds: the parts so far, the newest first, and whether a parent was referred to.
abbrev pub Walk : Type 0
Walk = List Text × Bool

abbrev pub pop : List Text → Option Walk
pop [] = none
pop (p ∷ ps) = some (ps, true)

unfoldable pub walk_part : Text → Walk → Option Walk
walk_part part (parts, had_parent_reference) =
    if is_empty part || is_dot part
    then some (parts, had_parent_reference)
    else if is_dot_dot part
    then pop parts
    else some (part ∷ parts, had_parent_reference)

abbrev pub go_on : Option Walk → (Walk → Option Walk) → Option Walk
go_on none f = none
go_on (some w) f = f w

unfoldable pub walk : List Text → Walk → Option Walk
unfolding walk_part
walk [] w = some w
walk (part ∷ parts) w = go_on (walk_part part w) (walk parts)

-- "/" and the parts, each after a "/"
unfoldable pub slashed : List Text → Text
slashed [] = []
slashed (p ∷ ps) = b'/' ∷ (p ++ slashed ps)

unfoldable pub join_path : List Text → Text
unfolding slashed
join_path [] = b'/' ∷ []
join_path (p ∷ ps) = slashed (p ∷ ps)

abbrev pub walked : Option Walk → Normalized
walked none = failure path_traversal_rejected
walked (some (parts, had_parent_reference)) =
    normalized (join_path (reverse parts)) had_parent_reference

-- The tests on the value, before the loop.
unfoldable pub is_absolute : Text → Bool
is_absolute value =
    not (is_empty value)
    && (not (has_char 0 value)
        && (not (has_char 92 value || has_drive value) && starts_with_slash value))

unfoldable pub normalize_candidate_path : Text → Normalized
unfolding is_absolute walk
normalize_candidate_path raw_path =
    let value = strip raw_path in
    if is_absolute value then walked (walk (split b'/' value) ([], false)) else failure path_invalid

-- The parts of PurePosixPath(path), its root left out.
abbrev pub is_plain : Text → Bool
is_plain part = not (is_empty part || is_dot part)

unfoldable pub path_parts : Text → List Text
path_parts path = keep is_plain (split b'/' path)

-- is_relative_to, which equality is a case of
unfoldable pub is_prefix : List Text → List Text → Bool
is_prefix [] ps = true
is_prefix (r ∷ rs) [] = false
is_prefix (r ∷ rs) (p ∷ ps) = text_eq r p && is_prefix rs ps

abbrev pub is_under : Text → Text → Bool
is_under path root = is_prefix (path_parts root) (path_parts path)

-- max(matches, key=len) returns the first of the longest.
abbrev pub longer : Text → Option Text → Option Text
longer root none = some root
longer root (some best) = some (if ltb (length root) (length best) then best else root)

unfoldable pub matching_root : Text → List Text → Option Text
matching_root candidate [] = none
matching_root candidate (root ∷ roots) =
    let rest = matching_root candidate roots in
    if is_under candidate root then longer root rest else rest

-- relative_to(root) of a path under the root
unfoldable pub drop_parts : List Text → List Text → List Text
drop_parts [] ps = ps
drop_parts (r ∷ rs) [] = []
drop_parts (r ∷ rs) (p ∷ ps) = drop_parts rs ps

abbrev last_part : List Text → Text
last_part [] = []
last_part (p ∷ []) = p
last_part (p ∷ (q ∷ ps)) = last_part (q ∷ ps)

abbrev pub slash_for : ℕ → ℕ
slash_for c = if c == 92 then b'/' else c

unfoldable pub forward : Text → Text
forward [] = []
forward (c ∷ s) = slash_for c ∷ forward s

unfoldable pub fallback_display_path : Text → Text
unfolding forward join_path
fallback_display_path raw_path =
    let parts =
      keep (λ p. is_plain p && not (is_dot_dot p)) (split b'/' (strip (forward raw_path))) in
    elim parts [ [] ↦ join_path [] | ◌∷◌ p ps ↦ join_path (last_part (p ∷ ps) ∷ []) ]

unfoldable pub display_from_root : Text → Text → Text
unfolding drop_parts path_parts join_path
display_from_root normalized_path root =
    join_path (drop_parts (path_parts root) (path_parts normalized_path))

unfoldable pub safe_display_path : Text → List Text → Text
unfolding matching_root
safe_display_path raw_path allowed_roots = elim (normalize_candidate_path raw_path) [
  | failure code ↦ fallback_display_path raw_path
  | normalized path had ↦ elim (matching_root path allowed_roots) [
    | none ↦ fallback_display_path path
    | some root ↦ display_from_root path root
  ]
]
