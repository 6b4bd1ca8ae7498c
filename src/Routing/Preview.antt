-- ===== src/Routing/Preview.antt =====
-- build_route_preview of app/watcher/routing.py. The str of a UUID has its 32 digits in one case, so
-- sorting by it is sorting by the number.
use stream_lite.Base.{
  ℕ, Bool, true, false, not, ◌&&◌, ◌||◌, Option, none, some, List, [], ◌∷◌, ◌++◌, ◌==◌, ltb,
  if◌then◌else◌, keep, map, sort_by,
}
use stream_lite.Base.Text.{Text, text, Casing}
use stream_lite.Routing.{
  Tagged, tags, ◌>>=◌, Source, Destination, common, is_nil, normalize_route_tags, add_if,
}
use stream_lite.Routing.Delivery.{no_matching_destination}

pub record Pair : Type 0 where
  pub source_folder_id : ℕ
  pub destination_folder_id : Option ℕ
  pub matched_route_tags : List Text
  pub unmatched_reason_code : Option Text

pub data Light : Type 0 where
  red yellow green : Light

abbrev pub route_policy_tag_match_all_destinations : Text
route_policy_tag_match_all_destinations = text "tag_match_all_destinations"

abbrev pub no_matching_source : Text
no_matching_source = text "NO_MATCHING_SOURCE"

pub record Preview : Type 0 where
  pub route_policy : Text
  pub matches : List Pair
  pub unmatched_sources : List ℕ
  pub unmatched_destinations : List ℕ
  pub unmatched_destination_reason_codes : List (ℕ × Text)
  pub status : Light

-- The order of str.
unfoldable pub text_before : Text → Text → Bool
text_before [] [] = false
text_before [] (b ∷ t) = true
text_before (a ∷ s) [] = false
text_before (a ∷ s) (b ∷ t) = ltb a b || (a == b && text_before s t)

abbrev pub source_before : Source → Source → Bool
source_before a b = ltb a.source_folder_id b.source_folder_id

abbrev pub destination_before : Destination → Destination → Bool
destination_before a b = ltb a.destination_folder_id b.destination_folder_id

abbrev pub id_before : ℕ → ℕ → Bool
id_before a b = ltb a b

abbrev pub matched_pair : ℕ → Destination → List Text → Pair
matched_pair source_id d matched_tags = record {
  source_folder_id = source_id;
  destination_folder_id = some d.destination_folder_id;
  matched_route_tags = sort_by text_before matched_tags;
  unmatched_reason_code = none;
}

-- The inner loop: the pairs of one source.
unfoldable pub pairs_of : Casing → ℕ → List Text → List Destination → Tagged (List Pair)
pairs_of k source_id source_tags [] = tags []
pairs_of k source_id source_tags (d ∷ ds) = do
  destination_tags ← normalize_route_tags k d.route_tags
  pairs ← pairs_of k source_id source_tags ds
  let matched_tags = common source_tags destination_tags in
      tags (add_if (not (is_nil matched_tags)) (matched_pair source_id d matched_tags) pairs)

-- `if not matched_any`
abbrev pub or_unmatched : ℕ → List Pair → List Pair
or_unmatched source_id [] =
    record {
      source_folder_id = source_id;
      destination_folder_id = none;
      matched_route_tags = [];
      unmatched_reason_code = some no_matching_destination;
    }
    ∷ []
or_unmatched source_id (p ∷ ps) = p ∷ ps

unfoldable pub source_pairs : Casing → Source → List Destination → Tagged (List Pair)
unfolding pairs_of
source_pairs k source destinations = do
  source_tags ← normalize_route_tags k source.route_tags
  pairs ← pairs_of k source.source_folder_id source_tags destinations
  tags (or_unmatched source.source_folder_id pairs)

-- The outer loop.
unfoldable pub all_pairs : Casing → List Source → List Destination → Tagged (List Pair)
unfolding source_pairs
all_pairs k [] destinations = tags []
all_pairs k (source ∷ sources) destinations = do
  first ← source_pairs k source destinations
  rest ← all_pairs k sources destinations
  tags (first ++ rest)

-- matched_source_ids and matched_destination_ids hold the ids of the pairs with a destination.
abbrev pub matches_source : ℕ → Pair → Bool
matches_source id p = elim p.destination_folder_id [
  | none ↦ false
  | some d ↦ p.source_folder_id == id
]

abbrev pub matches_destination : ℕ → Pair → Bool
matches_destination id p = elim p.destination_folder_id [ none ↦ false | some d ↦ d == id ]

unfoldable pub any_pair : (Pair → Bool) → List Pair → Bool
any_pair f [] = false
any_pair f (p ∷ ps) = f p || any_pair f ps

unfoldable pub unmatched : (ℕ → Pair → Bool) → List Pair → List ℕ → List ℕ
unmatched f pairs ids = sort_by id_before (keep (λ id. not (any_pair (f id) pairs)) ids)

abbrev pub has_destination : Pair → Bool
has_destination p = elim p.destination_folder_id [ none ↦ false | some d ↦ true ]

unfoldable pub light : List Pair → List ℕ → List ℕ → Light
light pairs sources destinations =
    if not (any_pair has_destination pairs)
    then Light.red
    else if not (is_nil sources) || not (is_nil destinations)
    then Light.yellow
    else Light.green

abbrev pub preview_of : List Source → List Destination → List Pair → Preview
preview_of sources destinations pairs =
    let no_destination = unmatched matches_source pairs (map (λ s. s.source_folder_id) sources) in
    let no_source =
      unmatched matches_destination pairs (map (λ d. d.destination_folder_id) destinations) in
    record {
      route_policy = route_policy_tag_match_all_destinations;
      matches = pairs;
      unmatched_sources = no_destination;
      unmatched_destinations = no_source;
      unmatched_destination_reason_codes = map (λ id. (id, no_matching_source)) no_source;
      status = light pairs no_destination no_source;
    }

unfoldable pub build_route_preview : Casing → List Source → List Destination → Tagged Preview
build_route_preview k sources destinations =
    let enabled_sources = keep (λ s. s.enabled) sources in
    let enabled_destinations = keep (λ d. d.enabled) destinations in
    (do
      pairs ←
          all_pairs k (sort_by source_before enabled_sources)
            (sort_by destination_before enabled_destinations)
      tags (preview_of enabled_sources enabled_destinations pairs))
