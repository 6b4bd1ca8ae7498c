-- ===== src/Retry/Manual/Locator.antt =====
-- The locator of a command's result, `retry_schedule:<id>` with an optional query
-- (_command_result_locator and the two parsers of app/retry/manual.py).
use stream_lite.Base.{
  ℕ, ◌≡◌, refl, ap, ◌∙◌, Bool, true, false, ◌||◌, Option, none, some, [], ◌∷◌, ◌++◌, ◌==◌,
  if◌then◌else◌, arith, &&-true,
}
use mathlib.Core.List.{append_assoc}
use stream_lite.Base.Text.{Text, text, is_empty}
use stream_lite.Base.Uuids.{Uuids, is_uuid_char, all_uuid_chars}
use stream_lite.Events.Schema.{starts_with, has_char}

abbrev schedule_prefix : Text
schedule_prefix = text "retry_schedule:"

abbrev override_mark : Text
override_mark = text "manual_override=true"

unfoldable pub command_result_locator : Uuids → ℕ → Bool → Text
command_result_locator u retry_schedule_id manual_override =
    let locator = schedule_prefix ++ u.print retry_schedule_id in
    if manual_override then locator ++ text "?manual_override=true" else locator

-- `part in s`
unfoldable pub contains : Text → Text → Bool
contains part [] = is_empty part
contains part (c ∷ s) = starts_with part (c ∷ s) || contains part s

-- s.removeprefix(p), where s starts with p
unfoldable pub drop_prefix : Text → Text → Text
drop_prefix [] s = s
drop_prefix (a ∷ p) [] = []
drop_prefix (a ∷ p) (b ∷ s) = drop_prefix p s

-- s.split(sep, 1)[0]
unfoldable pub before_char : ℕ → Text → Text
before_char sep [] = []
before_char sep (c ∷ s) = if c == sep then [] else c ∷ before_char sep s

abbrev override_in : Text → Option Bool
override_in [] = none
override_in (c ∷ s) = some (contains override_mark (c ∷ s))

-- _parse_manual_override_from_locator
unfoldable pub parse_manual_override : Option Text → Option Bool
unfolding contains
parse_manual_override none = none
parse_manual_override (some locator) = override_in locator

-- _parse_retry_schedule_id_from_locator: the empty text starts with no prefix.
unfoldable pub parse_retry_schedule_id : Uuids → Option Text → Option ℕ
unfolding drop_prefix before_char
parse_retry_schedule_id u none = none
parse_retry_schedule_id u (some locator) =
    if starts_with schedule_prefix locator
    then u.parse (before_char b'?' (drop_prefix schedule_prefix locator))
    else none

starts_with-append : (p s : Text) → starts_with p (p ++ s) ≡ true
unfolding starts_with
starts_with-append [] s = refl
starts_with-append (a ∷ p) s = ground (arith, starts_with-append p s)

drop_prefix-append : (p s : Text) → drop_prefix p (p ++ s) ≡ s
unfolding drop_prefix
drop_prefix-append [] s = refl
drop_prefix-append (a ∷ p) s = drop_prefix-append p s

before_char-uuid :
    (s rest : Text) → all_uuid_chars s ≡ true → before_char b'?' (s ++ b'?' ∷ rest) ≡ s
unfolding before_char
before_char-uuid [] rest h = refl
before_char-uuid (c ∷ s) rest h =
    let both = &&-true (is_uuid_char c) (all_uuid_chars s) h in
    ground (arith, both, before_char-uuid s rest both.1)

before_char-uuid_end : (s : Text) → all_uuid_chars s ≡ true → before_char b'?' s ≡ s
unfolding before_char
before_char-uuid_end [] h = refl
before_char-uuid_end (c ∷ s) h =
    let both = &&-true (is_uuid_char c) (all_uuid_chars s) h in
    ground (arith, both, before_char-uuid_end s both.1)

has_char-append : (c : ℕ) (s t : Text) → has_char c (s ++ t) ≡ (has_char c s || has_char c t)
unfolding has_char
has_char-append c [] t = refl
has_char-append c (d ∷ s) t = ground (arith, has_char-append c s t)

has_char-uuid : (s : Text) → all_uuid_chars s ≡ true → has_char b'=' s ≡ false
unfolding has_char
has_char-uuid [] h = refl
has_char-uuid (c ∷ s) h =
    let both = &&-true (is_uuid_char c) (all_uuid_chars s) h in
    ground (arith, both, has_char-uuid s both.1)

-- A part with a character that the text lacks is not in it.
starts_with-lacks :
    (c : ℕ) (part s : Text)
    → has_char c part ≡ true
    → has_char c s ≡ false
    → starts_with part s ≡ false
unfolding has_char starts_with
starts_with-lacks c [] s h k = cc
starts_with-lacks c (a ∷ p) [] h k = refl
starts_with-lacks c (a ∷ p) (b ∷ s) h k = ground (arith, starts_with-lacks c p s)

contains-lacks :
    (c : ℕ) (part s : Text)
    → has_char c part ≡ true
    → has_char c s ≡ false
    → contains part s ≡ false
unfolding has_char contains
contains-lacks c [] s h k = cc
contains-lacks c (a ∷ p) [] h k = refl
contains-lacks c (a ∷ p) (b ∷ s) h k =
    ground (arith, starts_with-lacks c (a ∷ p) (b ∷ s) h k, contains-lacks c (a ∷ p) s h)

starts_with_refl : (p : Text) → starts_with p p ≡ true
unfolding starts_with
starts_with_refl [] = refl
starts_with_refl (a ∷ p) = ground (arith, starts_with_refl p)

contains_refl : (c : ℕ) (part : Text) → contains (c ∷ part) (c ∷ part) ≡ true
unfolding contains
contains_refl c part = ground (arith, starts_with_refl (c ∷ part))

contains-append : (part s t : Text) → contains part t ≡ true → contains part (s ++ t) ≡ true
unfolding contains
contains-append part [] t h = h
contains-append part (c ∷ s) t h = ground (arith, contains-append part s t h)

-- The locator starts with the prefix, so it is not empty.
override_in-prefix :
    (s : Text)
    → override_in (schedule_prefix ++ s) ≡ some (contains override_mark (schedule_prefix ++ s))
unfolding text
override_in-prefix s = refl

query : text "?manual_override=true" ≡ b'?' ∷ override_mark
unfolding text
query = refl

contains-mark : (s : Text) → contains override_mark (s ++ b'?' ∷ override_mark) ≡ true
unfolding text
contains-mark s =
    contains-append override_mark s (b'?' ∷ override_mark)
      (contains-append override_mark (b'?' ∷ []) override_mark (contains_refl b'm' _))

mark_equals : has_char b'=' override_mark ≡ true
unfolding text has_char
mark_equals = refl

prefix_equals : has_char b'=' schedule_prefix ≡ false
unfolding text has_char
prefix_equals = refl

module _ (u : Uuids) (id : ℕ) where
  -- Behind the prefix stands the text of the UUID.
  parse-prefix :
      (rest : Text)
      → before_char b'?' rest ≡ u.print id
      → parse_retry_schedule_id u (some (schedule_prefix ++ rest)) ≡ some id
  unfolding parse_retry_schedule_id
  parse-prefix rest h =
      rw (starts_with-append schedule_prefix rest, drop_prefix-append schedule_prefix rest, h)
        (u.parse-print id)

  -- What the parsers read back from the locator of a command's result: the schedule and whether
  -- the retry overrode the classification.
  pub locator_round_trip :
      (manual_override : Bool)
      → (parse_retry_schedule_id u (some (command_result_locator u id manual_override)) ≡ some id)
        × (parse_manual_override (some (command_result_locator u id manual_override))
            ≡ some manual_override)
  unfolding parse_manual_override command_result_locator
  locator_round_trip false = (
    parse-prefix (u.print id) (before_char-uuid_end (u.print id) (u.canonical id)),
    rw
        (
          override_in-prefix (u.print id),
          contains-lacks b'=' override_mark (schedule_prefix ++ u.print id) mark_equals (
              rw (has_char-append b'=' schedule_prefix (u.print id), prefix_equals)
                (has_char-uuid (u.print id) (u.canonical id))),
        )
        refl,
  )
  locator_round_trip true =
      rw (query, append_assoc schedule_prefix (u.print id) (b'?' ∷ override_mark))
        (
          parse-prefix (u.print id ++ b'?' ∷ override_mark)
              (before_char-uuid (u.print id) override_mark (u.canonical id)),
          override_in-prefix _
              ∙ ap some
                  (contains-append override_mark schedule_prefix _ (contains-mark (u.print id))),
        )
