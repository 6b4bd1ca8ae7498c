-- ===== src/Routing/Tags.antt =====
-- normalize_route_tags of app/watcher/routing.py: what a normalised list of tags is.
use stream_lite.Base.{
  ℕ, ◌≡◌, refl, subst, Bool, true, false, not, ◌&&◌, ◌||◌, List, [], ◌∷◌, ◌++◌, map, arith,
  Bool-cases, inl, inr, &&-true,
}
use stream_lite.Base.Text.{
  Text, text_eq, text_eq_iff, is_empty, is_space, strip, lstrip, upper, upper_char, Casing,
}
use mathlib.Core.List.{reverse, reverse-cons, reverse-reverse, append_assoc, append-nil}
use stream_lite.Routing.{
  tags-injective, Tagged, tags, tag_invalid, ◌>>=◌, is_tag_char, all_tag_chars, is_tag, has_text,
  add_tag, clean, normalize_each, at_least_one, normalize_route_tags,
}

tag_char-is_space : (c : ℕ) → is_tag_char c ≡ true → is_space c ≡ false
unfolding is_space
tag_char-is_space c h = ground arith

upper_char-tag : (k : Casing) (c : ℕ) → is_tag_char c ≡ true → upper_char k c ≡ c ∷ []
unfolding upper_char
upper_char-tag k c h = ground arith

lstrip-tag : (s : Text) → all_tag_chars s ≡ true → lstrip s ≡ s
unfolding lstrip all_tag_chars
lstrip-tag [] h = refl
lstrip-tag (c ∷ s) h = rw (tag_char-is_space c (&&-true _ _ h).0) refl

all_tag_chars-append : (s t : Text) → all_tag_chars (s ++ t) ≡ (all_tag_chars s && all_tag_chars t)
unfolding all_tag_chars
all_tag_chars-append [] t = refl
all_tag_chars-append (c ∷ s) t = ground (arith, all_tag_chars-append s t)

all_tag_chars-reverse : (s : Text) → all_tag_chars s ≡ true → all_tag_chars (reverse s) ≡ true
unfolding all_tag_chars
all_tag_chars-reverse [] h = refl
all_tag_chars-reverse (c ∷ s) h =
    rw (reverse-cons c s, all_tag_chars-append (reverse s) (c ∷ []))
      (ground (
        arith,
        all_tag_chars-reverse s (&&-true (is_tag_char c) (all_tag_chars s) h).1,
        &&-true (is_tag_char c) (all_tag_chars s) h,
      ))

strip-tag : (s : Text) → all_tag_chars s ≡ true → strip s ≡ s
unfolding strip
strip-tag s h =
    rw (lstrip-tag s h, lstrip-tag (reverse s) (all_tag_chars-reverse s h)) (reverse-reverse s)

upper-tag : (k : Casing) (s : Text) → all_tag_chars s ≡ true → upper k s ≡ s
unfolding upper all_tag_chars
upper-tag k [] h = refl
upper-tag k (c ∷ s) h =
    let both = &&-true _ _ h in rw (upper_char-tag k c both.0, upper-tag k s both.1) refl

-- A valid tag is clean already.
clean-tag : (k : Casing) (tag : Text) → is_tag tag ≡ true → clean k tag ≡ tag
unfolding clean is_tag
clean-tag k tag h =
    let chars = (&&-true _ _ h).0 in rw (strip-tag tag chars) (upper-tag k tag chars)

is_tag-is_empty : (tag : Text) → is_tag tag ≡ true → is_empty tag ≡ false
unfolding is_tag all_tag_chars
is_tag-is_empty [] h = ground arith
is_tag-is_empty (c ∷ s) h = refl

text_eq_sym : (s t : Text) → text_eq s t ≡ text_eq t s
unfolding text_eq
text_eq_sym [] [] = refl
text_eq_sym [] (b ∷ t) = refl
text_eq_sym (a ∷ s) [] = refl
text_eq_sym (a ∷ s) (b ∷ t) = ground (arith, text_eq_sym s t)

has_text-append :
    (x : Text) (s t : List Text) → has_text x (s ++ t) ≡ (has_text x s || has_text x t)
unfolding has_text
has_text-append x [] t = refl
has_text-append x (y ∷ s) t = ground (arith, has_text-append x s t)

-- Every element is a valid tag.
unfoldable pub all_tags : List Text → Bool
all_tags [] = true
all_tags (t ∷ ts) = is_tag t && all_tags ts

-- No element stands twice.
unfoldable pub no_repeat : List Text → Bool
no_repeat [] = true
no_repeat (t ∷ ts) = not (has_text t ts) && no_repeat ts

all_tags-append : (s t : List Text) → all_tags (s ++ t) ≡ (all_tags s && all_tags t)
unfolding all_tags
all_tags-append [] t = refl
all_tags-append (x ∷ s) t = ground (arith, all_tags-append s t)

no_repeat-add :
    (tag : Text) (s : List Text)
    → no_repeat s ≡ true
    → has_text tag s ≡ false
    → no_repeat (s ++ (tag ∷ [])) ≡ true
unfolding no_repeat has_text
no_repeat-add tag [] h new = refl
no_repeat-add tag (x ∷ s) h new =
    rw (has_text-append x s (tag ∷ []), text_eq_sym tag x) (ground (arith, no_repeat-add tag s))

no_repeat-middle :
    (s : List Text) (tag : Text) (t : List Text)
    → no_repeat (s ++ (tag ∷ t)) ≡ true
    → has_text tag s ≡ false
unfolding no_repeat has_text
no_repeat-middle [] tag t h = refl
no_repeat-middle (x ∷ s) tag t h =
    ground (arith, no_repeat-middle s tag t, has_text-append x s (tag ∷ t), text_eq_sym tag x)

-- A list of normalised tags.
pub record IsNormal (ts : List Text) : Type 0 where
  pub valid : all_tags ts ≡ true
  pub distinct : no_repeat ts ≡ true

add_tag-IsNormal :
    (tag : Text) (acc : List Text) → is_tag tag ≡ true → IsNormal acc → IsNormal (add_tag tag acc)
add_tag-IsNormal tag acc fine n = elim (Bool-cases (has_text tag acc)) [
  | inl old ↦ rw old n
  | inr new ↦ rw new (record {
    valid = rw (all_tags-append acc (tag ∷ []), n.valid) (unfold all_tags in rw fine refl);
    distinct = no_repeat-add tag acc n.distinct new;
  })
]

has_text-add_tag :
    (x tag : Text) (acc : List Text)
    → has_text x (add_tag tag acc) ≡ (has_text x acc || text_eq tag x)
has_text-add_tag x tag acc = elim (Bool-cases (has_text tag acc)) [
  | inl old ↦ elim (Bool-cases (text_eq tag x)) [
    | inl same ↦ rw (old, same, ← (text_eq_iff tag x).0 same, old) refl
    | inr other ↦ rw (old, other) (ground arith)
  ]
  | inr new ↦ rw (new, has_text-append x acc (tag ∷ [])) (unfold has_text in ground arith)
]

normalize_each-IsNormal :
    (k : Casing) (raws acc out : List Text)
    → IsNormal acc
    → normalize_each k raws acc ≡ tags out
    → IsNormal out
      × ((x : Text) → has_text x out ≡ (has_text x acc || has_text x (map (clean k) raws)))
unfolding normalize_each has_text
normalize_each-IsNormal k [] acc out n e =
    subst (λ ts. IsNormal ts × ((x : Text) → has_text x ts ≡ (has_text x acc || false)))
      (tags-injective acc out e) (n, λ x. ground arith)
normalize_each-IsNormal k (raw ∷ raws) acc out n e =
    elim (Bool-cases (is_empty (clean k raw) || not (is_tag (clean k raw)))) [
      | inl refused ↦ cc (rw refused at e)
      | inr fine ↦
          let ih =
            normalize_each-IsNormal k raws (add_tag (clean k raw) acc) out
              (add_tag-IsNormal (clean k raw) acc (ground arith) n) (rw fine at e) in
          (ih.0, λ x. ground (arith, ih.1 x, has_text-add_tag x (clean k raw) acc))
    ]

normalize_each-again :
    (k : Casing) (ts acc : List Text)
    → all_tags ts ≡ true
    → no_repeat (acc ++ ts) ≡ true
    → normalize_each k ts acc ≡ tags (acc ++ ts)
unfolding normalize_each
normalize_each-again k [] acc valid distinct = rw (append-nil acc) refl
normalize_each-again k (t ∷ ts) acc valid distinct =
    rw (clean-tag k t both.0, is_tag-is_empty t both.0, both.0, no_repeat-middle acc t ts distinct)
      (subst (λ out. normalize_each k ts (acc ++ (t ∷ [])) ≡ tags out)
        (append_assoc acc (t ∷ []) ts)
        (normalize_each-again k ts (acc ++ (t ∷ [])) both.1
          (rw (append_assoc acc (t ∷ []) ts) distinct)))
  where
    both : (is_tag t ≡ true) × (all_tags ts ≡ true)
    both = unfold all_tags in &&-true (is_tag t) (all_tags ts) valid

at_least_one_inv :
    (r : Tagged (List Text)) (out : List Text)
    → (r >>= at_least_one) ≡ tags out
    → (r ≡ tags out) × (at_least_one out ≡ tags out)
at_least_one_inv (tags []) out e = cc
at_least_one_inv (tags (t ∷ ts)) out e =
    (e, subst (λ ts'. at_least_one ts' ≡ tags ts') (tags-injective (t ∷ ts) out e) refl)
at_least_one_inv (tag_invalid t) out e = cc

no_tags : IsNormal []
no_tags = record { valid = unfold all_tags in refl; distinct = unfold no_repeat in refl }

-- A normalised list holds valid tags only, none of them twice, and just those that the given tags
-- become by trimming and upper-casing.
pub normalize_route_tags-IsNormal :
    (k : Casing) (raws out : List Text)
    → normalize_route_tags k raws ≡ tags out
    → IsNormal out × ((x : Text) → has_text x out ≡ has_text x (map (clean k) raws))
unfolding normalize_route_tags has_text
normalize_route_tags-IsNormal k raws out e =
    normalize_each-IsNormal k raws [] out no_tags
      (at_least_one_inv (normalize_each k raws []) out e).0

-- Normalising once more changes nothing.
pub normalize_route_tags-idempotent :
    (k : Casing) (raws out : List Text)
    → normalize_route_tags k raws ≡ tags out
    → normalize_route_tags k out ≡ tags out
unfolding normalize_route_tags
normalize_route_tags-idempotent k raws out e =
    let inv = at_least_one_inv (normalize_each k raws []) out e in
    let normal = (normalize_each-IsNormal k raws [] out no_tags inv.0).0 in
    rw (normalize_each-again k out [] normal.valid normal.distinct) inv.1
