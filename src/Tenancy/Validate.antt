-- ===== src/Tenancy/Validate.antt =====
-- The checks of one app and of one tenant (`validate_*` of tenancy/src/lib.rs). A text is its UTF-8
-- bytes: a character outside ASCII starts with a byte above 127, which no class of ASCII holds.
use jefferies.Prelude.{
  ℕ, ◌+◌, ◌-◌, ◌*◌, ◌^◌, Str, bytes, show_nat, Bool, true, false, not, ◌&&◌, ◌||◌, Option, none,
  some, List, [], ◌∷◌, ◌++◌, length, is_empty, is_some, ltb, leb, nat_beq, is_ascii_lowercase,
  is_ascii_digit, is_ascii_alphanumeric, if◌then◌else◌, Result, ok, err, ◌>>◌,
}
use jefferies.Tenancy.{
  GithubAppConfig, GithubTenantBinding, TenantProvider, github, TenantConfig, GithubAppRegistry,
  by_id,
}

pub data TenancyError : Type 0 where
  not_found parse validation : Str → TenancyError
  io : Str → Str → TenancyError

abbrev pub Check : Type 0
Check = Result TenancyError (Unit {0})

abbrev pub slug_max_len : ℕ
slug_max_len = 63

abbrev pub app_id_max_len : ℕ
app_id_max_len = 63

abbrev pub org_name_max_len : ℕ
org_name_max_len = 39

abbrev pub is_slug_alnum : ℕ → Bool
is_slug_alnum c = is_ascii_lowercase c || is_ascii_digit c

abbrev pub is_org_alnum : ℕ → Bool
is_org_alnum c = is_ascii_alphanumeric c

-- The other bytes of a character.
abbrev pub continuation : Str → Str
continuation [] = []
continuation (c ∷ s) = let rest = continuation s in if leb 128 c && ltb c 192 then c ∷ rest else []

-- The loop of both checks over the characters after the first.
unfoldable pub check_chars : (ℕ → Bool) → (Str → Str) → Str → Check
check_chars alnum message [] = ok tt
check_chars alnum message (c ∷ s) =
    let rest = check_chars alnum message s in
    if not (alnum c) && not (nat_beq c b'-')
    then err (validation (message (c ∷ continuation s)))
    else rest

-- The messages, in front of what is wrong.
abbrev pub quoted : Str → Str → Str
quoted label value = label ++ bytes " '" ++ value ++ bytes "' "

abbrev pub invalid_char : Str → Str → Str → Str
invalid_char front allowed char =
    front
    ++ bytes "contains invalid character '"
    ++ char
    ++ bytes "' (allowed: "
    ++ allowed
    ++ bytes ")"

abbrev pub too_long : Str → ℕ → Str
too_long front max_len = front ++ bytes "exceeds " ++ show_nat max_len ++ bytes " characters"

unfoldable pub validate_dns_label : Str → ℕ → Str → Check
unfolding check_chars
validate_dns_label [] max_len label = err (validation (label ++ bytes " must not be empty"))
validate_dns_label (c ∷ s) max_len label =
    let front = quoted label (c ∷ s) in
    if ltb max_len (length (c ∷ s))
    then err (validation (too_long front max_len))
    else if not (is_slug_alnum c)
    then err (validation (front ++ bytes "must start with a lowercase letter or digit"))
    else check_chars is_slug_alnum (invalid_char front (bytes "a-z, 0-9, '-'")) s

unfoldable pub validate_org_name : Str → Str → Check
unfolding check_chars
validate_org_name slug [] =
    err (validation (bytes "Tenant '" ++ slug ++ bytes "' has empty org_name"))
validate_org_name slug (c ∷ s) =
    let front = quoted (bytes "Tenant '" ++ slug ++ bytes "' org_name") (c ∷ s) in
    if ltb org_name_max_len (length (c ∷ s))
    then err (validation (too_long front org_name_max_len))
    else if not (is_org_alnum c)
    then err (validation (front ++ bytes "must start with an alphanumeric character"))
    else check_chars is_org_alnum (invalid_char front (bytes "a-z, A-Z, 0-9, '-'")) s

unfoldable pub validate_slug : Str → Check
unfolding validate_dns_label
validate_slug slug = validate_dns_label slug slug_max_len (bytes "Tenant slug")

unfoldable pub validate_app_id_field : Str → Check
unfolding validate_dns_label
validate_app_id_field id = validate_dns_label id app_id_max_len (bytes "github_apps id")

-- `str::parse::<u64>`, after the sign: every step is checked for overflow.
abbrev pub parse_digits : ℕ → Str → Option ℕ
parse_digits n [] = some n
parse_digits n (c ∷ s) =
    let m = 10 * n + (c - b'0') in
    let rest = parse_digits m s in if is_ascii_digit c && ltb m (2 ^ 64) then rest else none

-- One `+` may stand in front of the digits.
unfoldable pub parse_u64 : Str → Option ℕ
parse_u64 [] = none
parse_u64 (c ∷ s) =
    if nat_beq c b'+'
    then (if is_empty s then none else parse_digits 0 s)
    else parse_digits 0 (c ∷ s)

-- The characters of Unicode's White_Space, by the length of their encoding.
abbrev white_1 : ℕ → Bool
white_1 c = (leb 9 c && leb c 13) || nat_beq c 32

abbrev white_2 : ℕ → ℕ → Bool
white_2 c d = nat_beq c 194 && (nat_beq d 133 || nat_beq d 160)

abbrev white_3 : ℕ → ℕ → ℕ → Bool
white_3 c d e =
    (nat_beq c 225 && nat_beq d 154 && nat_beq e 128)
    || (nat_beq c 226
        && nat_beq d 128
        && ((leb 128 e && leb e 138) || nat_beq e 168 || nat_beq e 169 || nat_beq e 175))
    || (nat_beq c 226 && nat_beq d 129 && nat_beq e 159)
    || (nat_beq c 227 && nat_beq d 128 && nat_beq e 128)

-- `s.trim().is_empty()`
unfoldable pub is_blank : Str → Bool
is_blank [] = true
is_blank (c ∷ []) = white_1 c
is_blank (c ∷ d ∷ []) = (white_1 c && is_blank (d ∷ [])) || white_2 c d
is_blank (c ∷ d ∷ e ∷ s) =
    (white_1 c && is_blank (d ∷ e ∷ s))
    || (white_2 c d && is_blank (e ∷ s))
    || (white_3 c d e && is_blank s)

abbrev pub refuse_if : Bool → Str → Check
refuse_if true message = err (validation message)
refuse_if false message = ok tt

unfoldable pub validate_app_entry : GithubAppConfig → Check
unfolding validate_app_id_field parse_u64 is_blank
validate_app_entry app = do
  validate_app_id_field app.id
  refuse_if (not (is_some (parse_u64 app.app_id))) (
      bytes "github_apps["
      ++ app.id
      ++ bytes "] has invalid app_id '"
      ++ app.app_id
      ++ bytes "'; expected unsigned integer")
  refuse_if (is_empty app.webhook_secret)
      (bytes "github_apps[" ++ app.id ++ bytes "] has empty webhook_secret")
  refuse_if (is_blank app.private_key)
      (bytes "github_apps[" ++ app.id ++ bytes "] has empty private_key")

abbrev pub check_ids : Str → List Str → Check
check_ids slug [] = ok tt
check_ids slug (id ∷ ids) =
    let rest = check_ids slug ids in
    refuse_if (is_blank id) (bytes "Tenant '" ++ slug ++ bytes "' has empty entry in connector_ids")
    >> rest

unfoldable pub validate_connector_ids : Str → List Str → Check
unfolding is_blank
validate_connector_ids slug ids =
    refuse_if (is_empty ids) (bytes "Tenant '" ++ slug ++ bytes "' has empty connector_ids")
    >> check_ids slug ids

unfoldable pub validate_tenant_binding : Str → GithubTenantBinding → GithubAppRegistry → Check
unfolding validate_org_name by_id
validate_tenant_binding slug binding apps = do
  validate_org_name slug binding.org_name
  refuse_if (not (is_some (by_id apps binding.app_ref))) (
      bytes "Tenant '"
      ++ slug
      ++ bytes "' references unknown github_app '"
      ++ binding.app_ref
      ++ bytes "'")

abbrev pub validate_provider : Str → TenantProvider → GithubAppRegistry → Check
validate_provider slug (github binding) apps = validate_tenant_binding slug binding apps

unfoldable pub validate_tenant : TenantConfig → GithubAppRegistry → Check
unfolding validate_slug validate_connector_ids validate_tenant_binding
validate_tenant tenant apps = do
  validate_slug tenant.slug
  validate_connector_ids tenant.slug tenant.connector_ids
  validate_provider tenant.slug tenant.provider apps
