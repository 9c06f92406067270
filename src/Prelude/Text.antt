-- ===== src/Prelude/Text.antt =====
-- Texts are the lists of their UTF-8 bytes, as Rust's `str` compares and measures them.
use Prim.Native.Nat.{ℕ}
use Prim.Native.Char.{code}
use Prim.Native.String.{String}
use mathlib.Core.Bool.{Bool, ◌&&◌, ◌||◌, true, false}
use mathlib.Core.List.{[], ◌∷◌}
use jefferies.Prelude.Bools.{leb, nat_beq}
use jefferies.Prelude.Keys.{Str}

-- The bytes of an ASCII literal.
abbrev pub bytes : String → Str
bytes String.[] = []
bytes (String.◌∷◌ c s) = code c ∷ bytes s

abbrev pub is_ascii_lowercase : ℕ → Bool
is_ascii_lowercase c = leb b'a' c && leb c b'z'

abbrev pub is_ascii_uppercase : ℕ → Bool
is_ascii_uppercase c = leb b'A' c && leb c b'Z'

abbrev pub is_ascii_digit : ℕ → Bool
is_ascii_digit c = leb b'0' c && leb c b'9'

abbrev pub is_ascii_alphabetic : ℕ → Bool
is_ascii_alphabetic c = is_ascii_lowercase c || is_ascii_uppercase c

abbrev pub is_ascii_alphanumeric : ℕ → Bool
is_ascii_alphanumeric c = is_ascii_alphabetic c || is_ascii_digit c

-- `s.starts_with(prefix)`
abbrev pub starts_with : Str → Str → Bool
starts_with s [] = true
starts_with [] (x ∷ xs) = false
starts_with (c ∷ s) (x ∷ xs) = nat_beq c x && starts_with s xs

-- `s.contains(sub)` for a text.
abbrev pub contains_text : Str → Str → Bool
contains_text [] sub = starts_with [] sub
contains_text (c ∷ s) sub = starts_with (c ∷ s) sub || contains_text s sub
