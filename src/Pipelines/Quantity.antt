-- ===== src/Pipelines/Quantity.antt =====
-- Kubernetes quantities (`is_valid_quantity` of pipelines/src/pipeline.rs). The index into the bytes
-- is the text that is left.
use jefferies.Prelude.{
  ℕ, Str, Bool, true, false, not, ◌&&◌, ◌||◌, [], ◌∷◌, all, nat_beq, is_ascii_digit, if◌then◌else◌,
  is_empty,
}

abbrev is_sign : ℕ → Bool
is_sign b = nat_beq b b'+' || nat_beq b b'-'

abbrev pub is_dot : ℕ → Bool
is_dot b = nat_beq b b'.'

abbrev skip_sign : Str → Str
skip_sign [] = []
skip_sign (b ∷ bs) = if is_sign b then bs else b ∷ bs

-- The first loop: `saw_digit`, and what follows the digits and at most one dot.
unfoldable pub scan_number : Bool → Bool → Str → Bool × Str
scan_number saw_digit saw_dot [] = (saw_digit, [])
scan_number saw_digit saw_dot (b ∷ bs) = elim (is_ascii_digit b) [
  | true ↦ scan_number true saw_dot bs
  | false ↦ elim (is_dot b && not saw_dot) [
    | true ↦ scan_number saw_digit true bs
    | false ↦ (saw_digit, b ∷ bs)
  ]
]

-- The digits of the exponent, up to the end of the text.
abbrev pub is_digits : Str → Bool
is_digits [] = false
is_digits (b ∷ bs) = all is_ascii_digit (b ∷ bs)

abbrev is_small_unit : ℕ → Bool
is_small_unit b = nat_beq b b'n' || nat_beq b b'u' || nat_beq b b'm' || nat_beq b b'k'

abbrev is_large_unit : ℕ → Bool
is_large_unit b =
    nat_beq b b'K'
    || nat_beq b b'M'
    || nat_beq b b'G'
    || nat_beq b b'T'
    || nat_beq b b'P'
    || nat_beq b b'E'

-- `if i < bytes.len() && bytes[i] == b'i' { i += 1; }`
abbrev skip_i : Str → Str
skip_i [] = []
skip_i (b ∷ bs) = if nat_beq b b'i' then bs else b ∷ bs

-- The last `match`
abbrev is_unit : ℕ → Str → Bool
is_unit b bs =
    if is_small_unit b then is_empty bs else if is_large_unit b then is_empty (skip_i bs) else false

-- The test `is_exponent` at the byte `b`, with `bs` behind it
abbrev is_exponent : ℕ → Str → Bool
is_exponent b [] = false
is_exponent b (c ∷ bs) = (nat_beq b b'e' || nat_beq b b'E') && (is_ascii_digit c || is_sign c)

abbrev is_suffix : Str → Bool
is_suffix [] = true
is_suffix (b ∷ bs) = if is_exponent b bs then is_digits (skip_sign bs) else is_unit b bs

abbrev rest_valid : Bool × Str → Bool
rest_valid (saw_digit, rest) = if not saw_digit then false else is_suffix rest

unfoldable pub is_valid_quantity : Str → Bool
unfolding scan_number
is_valid_quantity s =
    if is_empty s then false else rest_valid (scan_number false false (skip_sign s))
