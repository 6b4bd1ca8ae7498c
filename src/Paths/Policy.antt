-- ===== src/Paths/Policy.antt =====
-- PathPolicy of app/config/path_policy.py.
use stream_lite.Base.{
  ℕ, Bool, true, false, not, ◌&&◌, Option, none, some, List, [], ◌∷◌, ◌++◌, if◌then◌else◌,
}
use stream_lite.Base.Text.{Text, text, text_eq}
use stream_lite.Paths.{
  Normalized, normalized, failure, normalize_candidate_path, matching_root, display_from_root,
  safe_display_path, path_symlink_escape, path_traversal_rejected, path_not_allowlisted,
}

pub data Purpose : Type 0 where
  source destination : Purpose

pub data PathStatus : Type 0 where
  green red : PathStatus

pub record PathPolicy : Type 0 where
  pub source_roots : List Text
  pub destination_roots : List Text
  pub debug : Bool
  -- where symbolic links lead
  pub resolver : Option (Text → Text)

pub record PathValidationResult : Type 0 where
  pub purpose : Purpose
  pub path : Text
  pub normalized_path : Text
  pub display_path : Text
  pub status : PathStatus
  pub reason_code : Option Text
  pub message : Text
  pub correlation_id : ℕ

-- _normalize_roots; `none` is a ValueError.
abbrev pub add_root : Normalized → Option (List Text) → Option (List Text)
add_root (normalized path false) (some roots) = some (path ∷ roots)
add_root (normalized path false) none = none
add_root (normalized path true) roots = none
add_root (failure code) roots = none

unfoldable pub normalize_roots : List Text → Option (List Text)
normalize_roots [] = some []
normalize_roots (root ∷ roots) = add_root (normalize_candidate_path root) (normalize_roots roots)

-- __post_init__
abbrev pub with_roots : PathPolicy → Option (List Text) → Option (List Text) → Option PathPolicy
with_roots p (some sources) (some destinations) =
    some (record p { source_roots = sources; destination_roots = destinations })
with_roots p (some sources) none = none
with_roots p none destinations = none

unfoldable pub make_path_policy : PathPolicy → Option PathPolicy
unfolding normalize_roots
make_path_policy p =
    with_roots p (normalize_roots p.source_roots) (normalize_roots p.destination_roots)

unfoldable pub allowed_roots_for : PathPolicy → Purpose → List Text
allowed_roots_for p Purpose.source = p.source_roots
allowed_roots_for p Purpose.destination = p.destination_roots

-- role.capitalize()
abbrev role : Purpose → Text
role Purpose.source = text "Source path"
role Purpose.destination = text "Destination path"

abbrev pub red_message : Purpose → Text → Text → Text
red_message purpose code display_path =
    role purpose
    ++ (if text_eq code path_not_allowlisted
        then text " " ++ (display_path ++ text " is outside the configured allowlist.")
        else if text_eq code path_traversal_rejected
        then text " " ++ (display_path ++ text " failed path-safety validation.")
        else if text_eq code path_symlink_escape
        then text " " ++ (display_path ++ text " resolves outside the configured allowlist.")
        else text " is not a supported absolute container path.")

unfoldable pub rejected : Purpose → ℕ → Text → Text → PathValidationResult
rejected purpose correlation display_path code = record {
  purpose = purpose;
  path = display_path;
  normalized_path = display_path;
  display_path = display_path;
  status = PathStatus.red;
  reason_code = some code;
  message = red_message purpose code display_path;
  correlation_id = correlation;
}

-- safe_path is the resolved path: `self.debug or matched_root` holds for every root, since a
-- normalised root is not empty.
unfoldable pub accepted_path : Purpose → ℕ → Text → Text → PathValidationResult
accepted_path purpose correlation resolved_path root = record {
  purpose = purpose;
  path = resolved_path;
  normalized_path = resolved_path;
  display_path = display_from_root resolved_path root;
  status = PathStatus.green;
  reason_code = none;
  message = role purpose ++ text " is allowlisted.";
  correlation_id = correlation;
}

-- The end of validate_path, once the path is resolved and its root looked for.
abbrev pub judged :
    PathPolicy → Purpose → ℕ → Text → Text → Bool → Option Text → PathValidationResult
judged p purpose correlation raw_path resolved_path had_parent_reference none =
    rejected purpose correlation (safe_display_path raw_path (allowed_roots_for p purpose))
      (if had_parent_reference then path_traversal_rejected else path_not_allowlisted)
judged p purpose correlation raw_path resolved_path had_parent_reference (some root) =
    accepted_path purpose correlation resolved_path root

unfoldable pub judge : PathPolicy → Purpose → ℕ → Text → Text → Bool → PathValidationResult
judge p purpose correlation raw_path resolved_path had_parent_reference =
    judged p purpose correlation raw_path resolved_path had_parent_reference
      (matching_root resolved_path (allowed_roots_for p purpose))

abbrev pub is_some : Option Text → Bool
is_some none = false
is_some (some root) = true

abbrev pub display_at : Text → Option Text → Text
display_at path none = path
display_at path (some root) = display_from_root path root

-- A path that leads out of the roots, though it is under one by its name.
abbrev pub escapes : Text → Text → List Text → Bool
escapes candidate resolved_candidate roots =
    not (is_some (matching_root resolved_candidate roots))
    && is_some (matching_root candidate roots)

unfoldable pub validate_resolved :
    PathPolicy → Purpose → ℕ → Text → Text → Bool → Normalized → PathValidationResult
validate_resolved p purpose correlation raw_path candidate had (failure code) =
    rejected purpose correlation (safe_display_path candidate (allowed_roots_for p purpose))
      path_symlink_escape
validate_resolved p purpose correlation raw_path candidate had
      (normalized resolved_candidate had') =
    if escapes candidate resolved_candidate (allowed_roots_for p purpose)
    then rejected purpose correlation
        (display_at candidate (matching_root candidate (allowed_roots_for p purpose)))
        path_symlink_escape
    else judge p purpose correlation raw_path resolved_candidate had

-- `if self.resolver is not None`
abbrev pub validate_candidate :
    PathPolicy → Purpose → ℕ → Text → Text → Bool → Option (Text → Text) → PathValidationResult
validate_candidate p purpose correlation raw_path candidate had none =
    judge p purpose correlation raw_path candidate had
validate_candidate p purpose correlation raw_path candidate had (some resolver) =
    validate_resolved p purpose correlation raw_path candidate had
      (normalize_candidate_path (resolver candidate))

abbrev pub validate_normalized : PathPolicy → Purpose → ℕ → Text → Normalized → PathValidationResult
validate_normalized p purpose correlation raw_path (failure code) =
    rejected purpose correlation (safe_display_path raw_path []) code
validate_normalized p purpose correlation raw_path (normalized candidate had) =
    validate_candidate p purpose correlation raw_path candidate had p.resolver

unfoldable pub validate_path : PathPolicy → Purpose → Text → ℕ → PathValidationResult
validate_path p purpose raw_path correlation =
    validate_normalized p purpose correlation raw_path (normalize_candidate_path raw_path)
