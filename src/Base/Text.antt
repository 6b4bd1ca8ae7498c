-- ===== src/Base/Text.antt =====
-- Python's `str` as a list of code points, with the methods that the program calls on one.
use Prim.Native.Char.{code}
use Prim.Native.Nat.{ℕ, ◌+◌, ◌-◌}
use Prim.Native.String.{String}
use mathlib.Core.Path.{◌≡◌, refl}
use mathlib.Core.Logic.{◌↔◌}
use mathlib.Core.Bool.{Bool, true, false, ◌&&◌, ◌||◌}
use mathlib.Core.List.{List, [], ◌∷◌, ◌++◌, reverse}
use native.Mathlib.Omega.{arith}
use stream_lite.Base.Tests.{leb, ltb, ◌==◌, if◌then◌else◌}

abbrev pub Text : Type 0
Text = List ℕ

-- A literal of the source. It stays folded, so that the proofs carry no list of numbers.
unfoldable pub text : String → Text
text String.[] = []
text (String.◌∷◌ c s) = code c ∷ text s

-- s == t
unfoldable pub text_eq : Text → Text → Bool
text_eq [] [] = true
text_eq (a ∷ s) (b ∷ t) = a == b && text_eq s t
text_eq _ _ = false

pub text_eq_iff : (s t : Text) → (text_eq s t ≡ true) ↔ (s ≡ t)
unfolding text_eq
text_eq_iff [] [] = (λ h. refl, λ h. refl)
text_eq_iff [] (b ∷ t) = (λ h. cc, λ h. cc)
text_eq_iff (a ∷ s) [] = (λ h. cc, λ h. cc)
text_eq_iff (a ∷ s) (b ∷ t) =
    (λ h. ground (arith, (text_eq_iff s t).0), λ h. ground (arith, (text_eq_iff s t).1))

pub text_eq_refl : (s : Text) → text_eq s s ≡ true
text_eq_refl s = (text_eq_iff s s).1 refl

-- `not s`
abbrev pub is_empty : Text → Bool
is_empty [] = true
is_empty (c ∷ s) = false

-- str.isspace of one code point, the set that `strip` removes
unfoldable pub is_space : ℕ → Bool
is_space c =
    (leb 9 c && leb c 13)
    || (leb 28 c && leb c 32)
    || c == 133
    || c == 160
    || c == 5760
    || (leb 8192 c && leb c 8202)
    || c == 8232
    || c == 8233
    || c == 8239
    || c == 8287
    || c == 12288

unfoldable pub lstrip : Text → Text
unfolding is_space
lstrip [] = []
lstrip (c ∷ s) = let rest = lstrip s in if is_space c then rest else c ∷ s

unfoldable pub strip : Text → Text
unfolding lstrip
strip s = reverse (lstrip (reverse (lstrip s)))

-- s.split(sep) for a separator of one character: one part more than there are separators.
abbrev pub onto : Text → List Text → List Text
onto part [] = part ∷ []
onto part (p ∷ ps) = (part ++ p) ∷ ps

unfoldable pub split : ℕ → Text → List Text
split sep [] = [] ∷ []
split sep (c ∷ s) = let rest = split sep s in if c == sep then [] ∷ rest else onto (c ∷ []) rest

-- Unicode's case mappings outside ASCII, which the interpreter's tables give.
pub record Casing : Type 0 where
  pub upper_of : ℕ → Text
  pub lower_of : Text → Text

-- The mapping that changes nothing outside ASCII.
abbrev pub ascii_casing : Casing
ascii_casing = record { upper_of = λ c. c ∷ []; lower_of = λ s. s }

unfoldable pub upper_char : Casing → ℕ → Text
upper_char k c =
    if ltb c 128 then (if leb b'a' c && leb c b'z' then (c - 32) ∷ [] else c ∷ []) else k.upper_of c

-- str.upper maps each code point by itself, one to several.
unfoldable pub upper : Casing → Text → Text
unfolding upper_char
upper k [] = []
upper k (c ∷ s) = upper_char k c ++ upper k s

unfoldable pub is_ascii : Text → Bool
is_ascii [] = true
is_ascii (c ∷ s) = ltb c 128 && is_ascii s

unfoldable pub lower_ascii : Text → Text
lower_ascii [] = []
lower_ascii (c ∷ s) = (if leb b'A' c && leb c b'Z' then c + 32 else c) ∷ lower_ascii s

-- str.lower of a text with other letters may look at the neighbours of a letter.
unfoldable pub lower : Casing → Text → Text
unfolding is_ascii lower_ascii
lower k s = if is_ascii s then lower_ascii s else k.lower_of s
