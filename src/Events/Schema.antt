-- ===== src/Events/Schema.antt =====
-- The annotated types of app/_schema_types.py that the event models of app/events/models.py name.
use stream_lite.Base.{ℕ, Bool, true, false, not, ◌&&◌, ◌||◌, List, [], ◌∷◌, ◌==◌, leb, length}
use stream_lite.Base.Text.{Text, text, text_eq, split, lower_ascii}

-- [A-Z0-9_]
abbrev is_code_char : ℕ → Bool
is_code_char c = (leb b'A' c && leb c b'Z') || ((leb b'0' c && leb c b'9') || c == b'_')

abbrev all_code_chars : Text → Bool
all_code_chars [] = true
all_code_chars (c ∷ s) = is_code_char c && all_code_chars s

-- ERROR_CODE_PATTERN
unfoldable pub is_error_code : Text → Bool
is_error_code s = all_code_chars s && (leb 2 (length s) && leb (length s) 64)

abbrev pub has_length : ℕ → ℕ → Text → Bool
has_length least most s = leb least (length s) && leb (length s) most

-- `c in value`, for one character
unfoldable pub has_char : ℕ → Text → Bool
has_char c [] = false
has_char c (d ∷ s) = d == c || has_char c s

unfoldable pub starts_with : Text → Text → Bool
starts_with [] s = true
starts_with (a ∷ p) [] = false
starts_with (a ∷ p) (b ∷ s) = a == b && starts_with p s

-- WINDOWS_DRIVE_PATTERN
unfoldable pub has_drive : Text → Bool
has_drive (a ∷ b ∷ c ∷ s) =
    ((leb b'A' a && leb a b'Z') || (leb b'a' a && leb a b'z'))
    && (b == b':' && (c == b'\\' || c == b'/'))
has_drive _ = false

unfoldable pub has_parent_segment : List Text → Bool
has_parent_segment [] = false
has_parent_segment (segment ∷ rest) = text_eq segment (text "..") || has_parent_segment rest

-- _validate_safe_reference
unfoldable pub is_safe_reference : Text → Bool
unfolding has_char has_drive has_parent_segment
is_safe_reference value =
    not (has_char 0 value)
    && (not (has_char b'\\' value || has_drive value)
        && not (has_parent_segment (split b'/' value)))

-- SafeLocator: no letter outside ASCII is one of "file" in lower case.
unfoldable pub is_safe_locator : Text → Bool
unfolding is_safe_reference starts_with
is_safe_locator value =
    not (starts_with (text "file://") (lower_ascii value)) && is_safe_reference value

-- A locator, or a display path, of 1 to 1024 characters.
unfoldable pub is_locator : Text → Bool
unfolding is_safe_locator
is_locator value = is_safe_locator value && has_length 1 1024 value

unfoldable pub is_display_path : Text → Bool
unfolding is_safe_reference
is_display_path value = is_safe_reference value && has_length 1 1024 value

-- ProcessingEngine
unfoldable pub is_engine : Text → Bool
is_engine value = text_eq value (text "spark") || text_eq value (text "flink")
