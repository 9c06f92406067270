-- ===== src/Pipelines/Names.antt =====
-- Names and paths that a pipeline may use (pipelines/src/pipeline.rs).
use jefferies.Prelude.{
  ℕ, Str, bytes, Bool, true, false, not, ◌||◌, Option, none, some, List, [], ◌∷◌, ◌++◌, all, any,
  length, ltb, nat_beq, str_eq, is_ascii_lowercase, is_ascii_digit, is_ascii_alphabetic,
  is_ascii_alphanumeric, starts_with, contains_text, if◌then◌else◌, is_empty,
}

-- The reasons that `secret_name_violation` and `file_secret_path_violation` give, one constructor
-- for each text.
pub data SecretReason : Type 0 where
  name_empty name_too_long name_pattern : SecretReason
  path_relative path_trailing_slash path_double_slash path_dot_dot : SecretReason

abbrev pub max_secret_name_len : ℕ
max_secret_name_len = 30

abbrev is_first : ℕ → Bool
is_first b = is_ascii_alphabetic b || nat_beq b b'_'

abbrev is_rest : ℕ → Bool
is_rest b = is_ascii_alphanumeric b || nat_beq b b'_'

unfoldable pub is_valid_env_var_name : Str → Bool
is_valid_env_var_name [] = false
is_valid_env_var_name (b ∷ bs) = if not (is_first b) then false else all is_rest bs

abbrev pub is_alnum : ℕ → Bool
is_alnum b = is_ascii_lowercase b || is_ascii_digit b

-- `bytes[bytes.len() - 1]` of a text that begins with `b`
abbrev pub last : ℕ → Str → ℕ
last b [] = b
last b (c ∷ bs) = last c bs

unfoldable pub is_valid_dns1123_label : Str → Bool
is_valid_dns1123_label [] = false
is_valid_dns1123_label (b ∷ bs) =
    if ltb 63 (length (b ∷ bs))
    then false
    else if not (is_alnum b) || not (is_alnum (last b bs))
    then false
    else all (λ c. is_alnum c || nat_beq c b'-') (b ∷ bs)

unfoldable pub secret_name_violation : Str → Option SecretReason
unfolding is_valid_env_var_name
secret_name_violation name =
    if is_empty name
    then some name_empty
    else if ltb max_secret_name_len (length name)
    then some name_too_long
    else if not (is_valid_env_var_name name)
    then some name_pattern
    else none

-- `path.ends_with('/')`
abbrev ends_with_slash : Str → Bool
ends_with_slash [] = false
ends_with_slash (b ∷ bs) = nat_beq (last b bs) b'/'

-- `path.split('/')`, with the segment that is read so far
unfoldable pub split_slash : Str → Str → List Str
split_slash segment [] = segment ∷ []
split_slash segment (b ∷ bs) = elim (nat_beq b b'/') [
  | true ↦ segment ∷ split_slash [] bs
  | false ↦ split_slash (segment ++ b ∷ []) bs
]

unfoldable pub file_secret_path_violation : Str → Option SecretReason
unfolding split_slash str_eq
file_secret_path_violation path =
    if not (starts_with path (bytes "/"))
    then some path_relative
    else if ends_with_slash path
    then some path_trailing_slash
    else if contains_text path (bytes "//")
    then some path_double_slash
    else if any (λ segment. str_eq segment (bytes "..")) (split_slash [] path)
    then some path_dot_dot
    else none

unfoldable pub is_reserved_path : Str → Str → Bool
unfolding str_eq
is_reserved_path candidate reserved =
    str_eq candidate reserved
    || starts_with candidate (reserved ++ bytes "/")
    || starts_with reserved (candidate ++ bytes "/")
