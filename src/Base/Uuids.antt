-- ===== src/Base/Uuids.antt =====
-- The text of a UUID, which Python's uuid module prints and reads.
use Prim.Native.Nat.{ℕ}
use mathlib.Core.Path.{◌≡◌}
use mathlib.Core.Bool.{Bool, true, ◌&&◌, ◌||◌}
use mathlib.Core.Option.{Option, some}
use mathlib.Core.List.{[], ◌∷◌}
use stream_lite.Base.Tests.{leb, ◌==◌}
use stream_lite.Base.Text.{Text}

-- A character of the canonical form: a hexadecimal digit in lower case, or a dash.
abbrev pub is_uuid_char : ℕ → Bool
is_uuid_char c = (leb b'0' c && leb c b'9') || ((leb b'a' c && leb c b'f') || c == b'-')

abbrev pub all_uuid_chars : Text → Bool
all_uuid_chars [] = true
all_uuid_chars (c ∷ s) = is_uuid_char c && all_uuid_chars s

-- str(u), and UUID(s), which raises ValueError where `parse` gives `none`. The canonical form of
-- a UUID is read back as that UUID.
pub record Uuids : Type 0 where
  pub print : ℕ → Text
  pub parse : Text → Option ℕ
  pub parse-print : (u : ℕ) → parse (print u) ≡ some u
  pub canonical : (u : ℕ) → all_uuid_chars (print u) ≡ true
