-- ===== src/Routing/Tests.antt =====
-- The theorems about routing at two sources and two destinations.
use stream_lite.Base.{◌≡◌, refl, true, false, none, some, List, [], ◌∷◌, map}
use stream_lite.Base.Text.{
  Text, text, text_eq, strip, lstrip, is_space, upper, upper_char, ascii_casing,
}
use stream_lite.Routing.{
  tags, Source, Destination, normalize_route_tags, normalize_each, has_text, clean, is_tag,
  all_tag_chars,
}
use stream_lite.Routing.Tags.{
  IsNormal, normalize_route_tags-IsNormal, normalize_route_tags-idempotent,
}
use stream_lite.Routing.Preview.{
  route_policy_tag_match_all_destinations, Light, Preview, source_pairs,
}
use stream_lite.Routing.Agree.{
  source_pairs-resolve, pairs_from, match_source_to_destinations-resolve, destination_ids,
  resolution_ids,
}
use stream_lite.Routing.Delivery.{resolve_delivery_targets, enabled_destinations}
use stream_lite.Routing.{match_source_to_destinations, ◌>>=◌}

abbrev raw_tags : List Text
raw_tags = text " sales" ∷ text "hr " ∷ text "SALES" ∷ []

abbrev two_tags : List Text
two_tags = text "SALES" ∷ text "HR" ∷ []

two_normal : normalize_route_tags ascii_casing raw_tags ≡ tags two_tags
unfolding normalize_route_tags normalize_each has_text clean is_tag all_tag_chars text text_eq strip
    lstrip is_space upper upper_char
two_normal = refl

normalize_route_tags-IsNormal_example :
    IsNormal two_tags
    × ((x : Text) → has_text x two_tags ≡ has_text x (map (clean ascii_casing) raw_tags))
normalize_route_tags-IsNormal_example =
    normalize_route_tags-IsNormal ascii_casing raw_tags two_tags two_normal

normalize_route_tags-idempotent_example : normalize_route_tags ascii_casing two_tags ≡ tags two_tags
normalize_route_tags-idempotent_example =
    normalize_route_tags-idempotent ascii_casing raw_tags two_tags two_normal

abbrev inbox : Source
inbox = record { source_folder_id = 1; enabled = true; route_tags = raw_tags }

abbrev archive : Destination
archive = record {
  destination_folder_id = 8;
  enabled = true;
  route_tags = text "hr" ∷ [];
  locator = text "/out/hr";
  display_path = text "/hr";
}

abbrev unused : Destination
unused = record {
  destination_folder_id = 9;
  enabled = false;
  route_tags = text "SALES" ∷ [];
  locator = text "/out/sales";
  display_path = text "/sales";
}

source_pairs-resolve_example : source_pairs ascii_casing inbox (archive ∷ unused ∷ []) ≡ (
    resolve_delivery_targets ascii_casing raw_tags (archive ∷ unused ∷ []) >>= λ r.
    tags (pairs_from 1 r))
source_pairs-resolve_example = source_pairs-resolve ascii_casing inbox (archive ∷ unused ∷ [])

match_source_to_destinations-resolve_example :
    destination_ids (match_source_to_destinations ascii_casing inbox (archive ∷ unused ∷ []))
    ≡ resolution_ids (
        resolve_delivery_targets ascii_casing raw_tags
          (enabled_destinations (archive ∷ unused ∷ [])))
match_source_to_destinations-resolve_example =
    match_source_to_destinations-resolve ascii_casing inbox (archive ∷ unused ∷ [])

abbrev green_preview : Preview
green_preview = record {
  route_policy = route_policy_tag_match_all_destinations;
  matches =
      record {
        source_folder_id = 1;
        destination_folder_id = some 8;
        matched_route_tags = text "HR" ∷ [];
        unmatched_reason_code = none;
      }
      ∷ [];
  unmatched_sources = [];
  unmatched_destinations = [];
  unmatched_destination_reason_codes = [];
  status = Light.green;
}
