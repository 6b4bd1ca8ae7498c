-- ===== src/Routing/Delivery.antt =====
-- app/delivery/routing.py: the destinations of a delivery.
use stream_lite.Base.{ℕ, not, Option, none, some, List, [], ◌∷◌, keep}
use stream_lite.Base.Text.{Text, text, Casing}
use stream_lite.Routing.{
  Tagged, tags, ◌>>=◌, Destination, common, is_nil, normalize_route_tags, add_if,
}

abbrev pub no_matching_destination : Text
no_matching_destination = text "NO_MATCHING_DESTINATION"

pub record Target : Type 0 where
  pub destination_folder_id : ℕ
  pub destination_container_locator : Text
  pub destination_display_path : Text
  pub destination_route_tags : List Text
  pub matched_route_tags : List Text

pub record Resolution : Type 0 where
  pub targets : List Target
  pub unmatched_reason : Option Text

abbrev pub target_of : Destination → List Text → List Text → Target
target_of d destination_tags matched_tags = record {
  destination_folder_id = d.destination_folder_id;
  destination_container_locator = d.locator;
  destination_display_path = d.display_path;
  destination_route_tags = destination_tags;
  matched_route_tags = matched_tags;
}

unfoldable pub resolve_each : Casing → List Text → List Destination → Tagged (List Target)
resolve_each k source_tags [] = tags []
resolve_each k source_tags (d ∷ ds) = do
  destination_tags ← normalize_route_tags k d.route_tags
  targets ← resolve_each k source_tags ds
  let matched_tags = common source_tags destination_tags in
      tags (add_if (not (is_nil matched_tags)) (target_of d destination_tags matched_tags) targets)

abbrev pub resolved : List Target → Resolution
resolved [] = record { targets = []; unmatched_reason = some no_matching_destination }
resolved (t ∷ ts) = record { targets = t ∷ ts; unmatched_reason = none }

unfoldable pub resolve_delivery_targets : Casing → List Text → List Destination → Tagged Resolution
unfolding resolve_each
resolve_delivery_targets k source_route_tags destinations = do
  source_tags ← normalize_route_tags k source_route_tags
  targets ← resolve_each k source_tags destinations
  tags (resolved targets)

-- The destinations that _resolve_targets of app/delivery/service.py passes on.
unfoldable pub enabled_destinations : List Destination → List Destination
enabled_destinations destinations = keep (λ d. d.enabled) destinations
