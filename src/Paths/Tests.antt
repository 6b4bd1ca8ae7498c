-- ===== src/Paths/Tests.antt =====
-- The theorems about the path policy at one path below one root.
use stream_lite.Base.{◌≡◌, refl, true, false, none, [], ◌∷◌, keep}
use stream_lite.Base.Text.{Text, text, text_eq, strip, split, lstrip, is_space}
use stream_lite.Paths.{
  normalized, normalize_candidate_path, is_absolute, walk, walk_part, has_char, has_drive, slashed,
  join_path, path_parts, is_prefix, is_under,
}
use stream_lite.Paths.Parts.{all_parts, normalize_candidate_path-parts}
use stream_lite.Paths.Policy.{Purpose, PathStatus, PathPolicy, allowed_roots_for, validate_path}
use stream_lite.Paths.Contained.{
  is_listed, IsContained, validate_path-IsContained, validate_path-accepts,
}

abbrev sources : Text
sources = text "/data/sources"

abbrev policy : PathPolicy
policy = record {
  source_roots = sources ∷ [];
  destination_roots = [];
  debug = false;
  resolver = none;
}

abbrev raw : Text
raw = text " /data//sources/tmp/../acme"

abbrev clean_path : Text
clean_path = text "/data/sources/acme"

cleaned : normalize_candidate_path raw ≡ normalized clean_path true
unfolding normalize_candidate_path is_absolute walk walk_part has_char has_drive slashed join_path
    text strip lstrip is_space split
cleaned = refl

normalize_candidate_path-parts_example :
    (clean_path ≡ join_path (path_parts clean_path)) × (all_parts (path_parts clean_path) ≡ true)
normalize_candidate_path-parts_example = normalize_candidate_path-parts raw clean_path true cleaned

listed : is_listed sources (allowed_roots_for policy Purpose.source) ≡ true
unfolding is_listed allowed_roots_for text text_eq
listed = refl

under : is_under clean_path sources ≡ true
unfolding path_parts is_prefix keep split text text_eq
under = refl

validate_path-accepts_example :
    ((validate_path policy Purpose.source raw 5).status ≡ PathStatus.green)
    × ((validate_path policy Purpose.source raw 5).normalized_path ≡ clean_path)
validate_path-accepts_example =
    validate_path-accepts policy Purpose.source raw 5 clean_path sources true refl cleaned listed
      under

validate_path-IsContained_example :
    IsContained
      (allowed_roots_for policy Purpose.source)
      (validate_path policy Purpose.source raw 5)
validate_path-IsContained_example =
    validate_path-IsContained policy Purpose.source raw 5
      (validate_path-accepts policy Purpose.source raw 5 clean_path sources true refl cleaned listed
        under).0
