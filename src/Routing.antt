-- ===== src/Routing.antt =====
-- app/watcher/routing.py: the tags by which a source finds its destinations.
pub mod Tags
pub mod Delivery
pub mod Preview
pub mod Agree
pub mod Status
mod Tests
use stream_lite.Base.{
  ◌≡◌, ℕ, Bool, true, false, not, ◌&&◌, ◌||◌, List, [], ◌∷◌, ◌++◌, ◌==◌, leb, if◌then◌else◌, length,
  keep,
}
use stream_lite.Base.Text.{Text, text_eq, is_empty, strip, split, upper, Casing}

-- A value, or a RouteTagError with its tag.
pub data Tagged {ℓ} (A : Type ℓ) : Type ℓ where
  tags : A → Tagged A
  tag_invalid : Text → Tagged A

pub tags-injective {ℓ} : {A : Type ℓ} (a b : A) → ◌≡◌ {A = Tagged A} (tags a) (tags b) → a ≡ b
tags-injective a b e = cc

module _ {ℓ} {A B : Type ℓ} where
  infixl 10 ◌>>=◌
  abbrev pub ◌>>=◌ : Tagged A → (A → Tagged B) → Tagged B
  tags a >>= f = f a
  tag_invalid tag >>= f = tag_invalid tag

abbrev pub is_tag_char : ℕ → Bool
is_tag_char c = (leb b'A' c && leb c b'Z') || (leb b'0' c && leb c b'9') || c == b'_' || c == b'-'

unfoldable pub all_tag_chars : Text → Bool
all_tag_chars [] = true
all_tag_chars (c ∷ s) = is_tag_char c && all_tag_chars s

-- ROUTE_TAG_PATTERN
unfoldable pub is_tag : Text → Bool
is_tag s = all_tag_chars s && (leb 1 (length s) && leb (length s) 32)

-- tag in seen
unfoldable pub has_text : Text → List Text → Bool
has_text tag [] = false
has_text tag (t ∷ ts) = text_eq t tag || has_text tag ts

-- The tags seen are those of the list, so a tag is added unless it stands there.
abbrev pub add_tag : Text → List Text → List Text
add_tag tag normalized = if has_text tag normalized then normalized else normalized ++ (tag ∷ [])

unfoldable pub clean : Casing → Text → Text
clean k raw_tag = upper k (strip raw_tag)

unfoldable pub normalize_each : Casing → List Text → List Text → Tagged (List Text)
unfolding clean
normalize_each k [] normalized = tags normalized
normalize_each k (raw_tag ∷ raw_tags) normalized =
    let tag = clean k raw_tag in
    if is_empty tag || not (is_tag tag)
    then tag_invalid tag
    else normalize_each k raw_tags (add_tag tag normalized)

abbrev pub at_least_one : List Text → Tagged (List Text)
at_least_one [] = tag_invalid []
at_least_one (tag ∷ normalized) = tags (tag ∷ normalized)

-- normalize_route_tags of a sequence, and of a text
unfoldable pub normalize_route_tags : Casing → List Text → Tagged (List Text)
unfolding normalize_each
normalize_route_tags k raw_tags = normalize_each k raw_tags [] >>= at_least_one

unfoldable pub normalize_tag_text : Casing → Text → Tagged (List Text)
unfolding normalize_route_tags
normalize_tag_text k s = normalize_route_tags k (split b';' s)

pub record Source : Type 0 where
  pub source_folder_id : ℕ
  pub enabled : Bool
  pub route_tags : List Text

pub record Destination : Type 0 where
  pub destination_folder_id : ℕ
  pub enabled : Bool
  pub route_tags : List Text
  pub locator : Text
  pub display_path : Text

-- source_tags & destination_tags, in the order of the source
unfoldable pub common : List Text → List Text → List Text
common source_tags destination_tags = keep (λ tag. has_text tag destination_tags) source_tags

abbrev pub is_nil {ℓ} : {A : Type ℓ} → List A → Bool
is_nil [] = true
is_nil (x ∷ xs) = false

abbrev pub add_if {ℓ} : {A : Type ℓ} → Bool → A → List A → List A
add_if b x xs = if b then x ∷ xs else xs

unfoldable pub match_each : Casing → List Text → List Destination → Tagged (List Destination)
match_each k source_tags [] = tags []
match_each k source_tags (d ∷ ds) =
    let rest = match_each k source_tags ds in
    if d.enabled
    then (do
      destination_tags ← normalize_route_tags k d.route_tags
      matches ← rest
      tags (add_if (not (is_nil (common source_tags destination_tags))) d matches))
    else rest

unfoldable pub match_source_to_destinations :
    Casing → Source → List Destination → Tagged (List Destination)
unfolding match_each
match_source_to_destinations k source destinations = do
  source_tags ← normalize_route_tags k source.route_tags
  match_each k source_tags destinations
