-- ===== src/Routing/Agree.antt =====
-- The three places that match tags, in app/watcher/routing.py and app/delivery/routing.py, choose
-- the same destinations.
use stream_lite.Base.{
  ℕ, ◌≡◌, refl, Bool, true, false, not, some, none, List, [], ◌∷◌, keep, map, sort_by,
  if◌then◌else◌,
}
use stream_lite.Base.Text.{Text, Casing}
use stream_lite.Routing.{
  Tagged, tags, tag_invalid, ◌>>=◌, Source, Destination, common, is_nil, normalize_route_tags,
  add_if, match_each, match_source_to_destinations,
}
use stream_lite.Routing.Delivery.{
  Target, Resolution, target_of, resolve_each, resolved, resolve_delivery_targets,
  enabled_destinations,
}
use stream_lite.Routing.Preview.{
  Pair, text_before, matched_pair, pairs_of, or_unmatched, source_pairs,
}

-- The pair of the preview for a target of the delivery.
abbrev pub pair_of : ℕ → Target → Pair
pair_of source_id t = record {
  source_folder_id = source_id;
  destination_folder_id = some t.destination_folder_id;
  matched_route_tags = sort_by text_before t.matched_route_tags;
  unmatched_reason_code = none;
}

abbrev pub pairs_from : ℕ → Resolution → List Pair
pairs_from source_id r = or_unmatched source_id (map (pair_of source_id) r.targets)

resolved-targets : (ts : List Target) → (resolved ts).targets ≡ ts
resolved-targets [] = refl
resolved-targets (t ∷ ts) = refl

module _ (k : Casing) (source_id : ℕ) (source_tags : List Text) where
  add_pair :
      (d : Destination) (dt : List Text) (ts : List Target) (b : Bool)
      → add_if b (matched_pair source_id d (common source_tags dt)) (map (pair_of source_id) ts)
        ≡ map (pair_of source_id) (add_if b (target_of d dt (common source_tags dt)) ts)
  add_pair d dt ts true = refl
  add_pair d dt ts false = refl

  one_pair :
      (d : Destination) (dt : List Text) (r : Tagged (List Target))
      → ((r >>= λ ts. tags (map (pair_of source_id) ts)) >>= λ pairs. tags (
          add_if
            (not (is_nil (common source_tags dt)))
            (matched_pair source_id d (common source_tags dt))
            pairs))
        ≡ ((r >>= λ ts. tags (
              add_if
                (not (is_nil (common source_tags dt)))
                (target_of d dt (common source_tags dt))
                ts))
            >>= λ ts. tags (map (pair_of source_id) ts))
  one_pair d dt (tags ts) = rw (add_pair d dt ts (not (is_nil (common source_tags dt)))) refl
  one_pair d dt (tag_invalid t) = refl

  pairs_of-resolve_each :
      (ds : List Destination)
      → pairs_of k source_id source_tags ds
        ≡ (resolve_each k source_tags ds >>= λ ts. tags (map (pair_of source_id) ts))
  unfolding pairs_of resolve_each
  pairs_of-resolve_each [] = refl
  pairs_of-resolve_each (d ∷ ds) =
      rw (pairs_of-resolve_each ds) (from (normalize_route_tags k d.route_tags))
    where
      from :
          (n : Tagged (List Text))
          → (n >>= λ dt.
              (resolve_each k source_tags ds >>= λ ts. tags (map (pair_of source_id) ts))
              >>= λ pairs. tags (
                  add_if
                    (not (is_nil (common source_tags dt)))
                    (matched_pair source_id d (common source_tags dt))
                    pairs))
            ≡ ((n >>= λ dt. resolve_each k source_tags ds >>= λ ts. tags (
                  add_if
                    (not (is_nil (common source_tags dt)))
                    (target_of d dt (common source_tags dt))
                    ts))
                >>= λ ts. tags (map (pair_of source_id) ts))
      from (tags dt) = one_pair d dt (resolve_each k source_tags ds)
      from (tag_invalid t) = refl

-- What the preview shows of a source is what the delivery resolves, over the same destinations: the
-- same destinations in the same order with the same tags, the same missing match, the same error.
pub source_pairs-resolve :
    (k : Casing) (source : Source) (ds : List Destination)
    → source_pairs k source ds ≡ (
        resolve_delivery_targets k source.route_tags ds >>= λ r.
        tags (pairs_from source.source_folder_id r))
unfolding source_pairs resolve_delivery_targets
source_pairs-resolve k source ds = from (normalize_route_tags k source.route_tags)
  where
    targets :
        (r : Tagged (List Target))
        → ((r >>= λ ts. tags (map (pair_of source.source_folder_id) ts)) >>= λ pairs.
            tags (or_unmatched source.source_folder_id pairs))
          ≡ ((r >>= λ ts. tags (resolved ts)) >>= λ r. tags (pairs_from source.source_folder_id r))
    targets (tags ts) = rw (resolved-targets ts) refl
    targets (tag_invalid t) = refl

    from :
        (n : Tagged (List Text))
        → (n >>= λ st. pairs_of k source.source_folder_id st ds >>= λ pairs.
            tags (or_unmatched source.source_folder_id pairs))
          ≡ ((n >>= λ st. resolve_each k st ds >>= λ ts. tags (resolved ts)) >>= λ r.
              tags (pairs_from source.source_folder_id r))
    from (tags st) =
        rw (pairs_of-resolve_each k source.source_folder_id st ds) (targets (resolve_each k st ds))
    from (tag_invalid t) = refl

-- The ids of a list.
abbrev pub destination_ids : Tagged (List Destination) → Tagged (List ℕ)
destination_ids r = r >>= λ ds. tags (map (λ (d : Destination). d.destination_folder_id) ds)

abbrev target_ids : Tagged (List Target) → Tagged (List ℕ)
target_ids r = r >>= λ ts. tags (map (λ (t : Target). t.destination_folder_id) ts)

abbrev pub resolution_ids : Tagged Resolution → Tagged (List ℕ)
resolution_ids r = r >>= λ r. tags (map (λ (t : Target). t.destination_folder_id) r.targets)

module _ (k : Casing) (source_tags : List Text) where
  add_same :
      (d : Destination) (dt : List Text) (b : Bool) (ms : List Destination) (ts : List Target)
      → destination_ids (tags ms) ≡ target_ids (tags ts)
      → destination_ids (tags (add_if b d ms))
        ≡ target_ids (tags (add_if b (target_of d dt (common source_tags dt)) ts))
  add_same d dt true ms ts e = cc
  add_same d dt false ms ts e = e

  one_more :
      (d : Destination) (dt : List Text) (m : Tagged (List Destination)) (r : Tagged (List Target))
      → destination_ids m ≡ target_ids r
      → destination_ids (m >>= λ ms. tags (add_if (not (is_nil (common source_tags dt))) d ms))
        ≡ target_ids (
            r >>= λ ts. tags (
              add_if
                (not (is_nil (common source_tags dt)))
                (target_of d dt (common source_tags dt))
                ts))
  one_more d dt (tags ms) (tags ts) e = add_same d dt (not (is_nil (common source_tags dt))) ms ts e
  one_more d dt (tags ms) (tag_invalid t) e = cc
  one_more d dt (tag_invalid t) (tags ts) e = cc
  one_more d dt (tag_invalid t) (tag_invalid u) e = e

  one_destination :
      (d : Destination) (n : Tagged (List Text)) (m : Tagged (List Destination))
      (r : Tagged (List Target))
      → destination_ids m ≡ target_ids r
      → destination_ids
          (n >>= λ dt. m >>= λ ms. tags (add_if (not (is_nil (common source_tags dt))) d ms))
        ≡ target_ids (
            n >>= λ dt. r >>= λ ts. tags (
              add_if
                (not (is_nil (common source_tags dt)))
                (target_of d dt (common source_tags dt))
                ts))
  one_destination d (tags dt) m r e = one_more d dt m r e
  one_destination d (tag_invalid t) m r e = refl

  by_enabled :
      (d : Destination) (ds : List Destination) (b : Bool)
      → destination_ids (match_each k source_tags ds)
        ≡ target_ids (resolve_each k source_tags (enabled_destinations ds))
      → destination_ids (
          if b
          then (normalize_route_tags k d.route_tags >>= λ dt. match_each k source_tags ds >>= λ ms.
              tags (add_if (not (is_nil (common source_tags dt))) d ms))
          else match_each k source_tags ds)
        ≡ target_ids (
            resolve_each k source_tags
              (if b then d ∷ enabled_destinations ds else enabled_destinations ds))
  unfolding resolve_each
  by_enabled d ds true ih =
      one_destination d (normalize_route_tags k d.route_tags) (match_each k source_tags ds)
        (resolve_each k source_tags (enabled_destinations ds)) ih
  by_enabled d ds false ih = ih

  match_each-resolve_each :
      (ds : List Destination)
      → destination_ids (match_each k source_tags ds)
        ≡ target_ids (resolve_each k source_tags (enabled_destinations ds))
  unfolding match_each resolve_each enabled_destinations keep
  match_each-resolve_each [] = refl
  match_each-resolve_each (d ∷ ds) = by_enabled d ds d.enabled (match_each-resolve_each ds)

-- The destinations that a source matches are those that a delivery from it resolves when it is
-- given the enabled destinations, in the same order; where one raises RouteTagError, so does the
-- other, for the same tag.
pub match_source_to_destinations-resolve :
    (k : Casing) (source : Source) (ds : List Destination)
    → destination_ids (match_source_to_destinations k source ds)
      ≡ resolution_ids (resolve_delivery_targets k source.route_tags (enabled_destinations ds))
unfolding match_source_to_destinations resolve_delivery_targets
match_source_to_destinations-resolve k source ds = from (normalize_route_tags k source.route_tags)
  where
    targets :
        (r : Tagged (List Target)) → target_ids r ≡ resolution_ids (r >>= λ ts. tags (resolved ts))
    targets (tags ts) = rw (resolved-targets ts) refl
    targets (tag_invalid t) = refl

    from :
        (n : Tagged (List Text))
        → destination_ids (n >>= λ st. match_each k st ds)
          ≡ resolution_ids
              (n >>= λ st. resolve_each k st (enabled_destinations ds) >>= λ ts. tags (resolved ts))
    from (tags st) =
        rw (match_each-resolve_each k st ds) (targets (resolve_each k st (enabled_destinations ds)))
    from (tag_invalid t) = refl
