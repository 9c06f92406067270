-- ===== src/Tenancy/Names.antt =====
-- What the checks of one app and one tenant accept (tenancy/src/lib.rs), in terms of the texts.
use jefferies.Prelude.{
  ℕ, ◌≤◌, Str, bytes, ◌≡◌, ◌↔◌, refl, Bool, true, false, not, ◌&&◌, ◌||◌, List, [], ◌∷◌, ◌++◌,
  length, all, any, is_empty, is_some, ltb, nat_beq, arith, if◌then◌else◌, Result, ok, err, ◌>>◌,
}
use jefferies.Tenancy.{
  GithubAppConfig, TenantProvider, github, TenantConfig, binding_of, GithubAppRegistry, by_id,
}
use jefferies.Tenancy.Validate.{
  TenancyError, validation, Check, slug_max_len, app_id_max_len, org_name_max_len, is_slug_alnum,
  is_org_alnum, check_chars, validate_dns_label, validate_org_name, validate_slug,
  validate_app_id_field, parse_u64, is_blank, refuse_if, continuation, quoted, invalid_char,
  validate_app_entry, check_ids, validate_connector_ids, validate_provider, validate_tenant_binding,
  validate_tenant,
}

abbrev starts_in : (ℕ → Bool) → Str → Bool
starts_in class [] = false
starts_in class (c ∷ s) = class c

-- A text of at most `max_len` bytes that starts in the class and goes on in it or with dashes.
abbrev pub IsName : (ℕ → Bool) → ℕ → Str → Type 0
IsName class max_len s =
    (starts_in class s ≡ true)
    × (length s ≤ max_len)
    × (all (λ c. class c || nat_beq c b'-') s ≡ true)

-- An app entry: a label as its id, an unsigned 64-bit number, and the two secrets.
abbrev pub ValidApp : GithubAppConfig → Type 0
ValidApp app =
    IsName is_slug_alnum app_id_max_len app.id
    × ((is_some (parse_u64 app.app_id) ≡ true)
        × ((is_empty app.webhook_secret ≡ false) × (is_blank app.private_key ≡ false)))

-- A tenant: a label as its slug, connectors, the name of an organisation and a known app.
abbrev pub ValidTenant : GithubAppRegistry → TenantConfig → Type 0
ValidTenant apps tenant =
    IsName is_slug_alnum slug_max_len tenant.slug
    × (((is_empty tenant.connector_ids ≡ false) × (any is_blank tenant.connector_ids ≡ false))
        × (IsName is_org_alnum org_name_max_len (binding_of tenant.provider).org_name
            × (is_some (by_id apps (binding_of tenant.provider).app_ref) ≡ true)))

pub refuse_if_iff : (b : Bool) (message : Str) → (refuse_if b message ≡ ok tt) ↔ (b ≡ false)
refuse_if_iff true message = (λ h. cc, λ h. cc)
refuse_if_iff false message = (λ h. refl, λ h. refl)

pub then_iff {α ℓ κ} :
    {A : Type α} {P : Type ℓ} {Q : Type κ} (first : Check) (next : Result TenancyError A) (x : A)
    → (first ≡ ok tt) ↔ P
    → (next ≡ ok x) ↔ Q
    → ((first >> next) ≡ ok x) ↔ (P × Q)
then_iff (err e) next x f g = (λ h. cc, λ (p, q). let clash = f.1 p in cc)
then_iff (ok tt) next x f g = (λ h. (f.0 refl, g.0 h), λ (p, q). g.1 q)

unless_iff {α κ} :
    {A : Type α} {Q : Type κ} (b : Bool) (e : TenancyError) (next : Result TenancyError A) (x : A)
    → (next ≡ ok x) ↔ Q
    → ((if b then err e else next) ≡ ok x) ↔ ((b ≡ false) × Q)
unless_iff true e next x g = (λ h. cc, λ (p, q). cc)
unless_iff false e next x g = (λ h. (refl, g.0 h), λ (p, q). g.1 q)

check_chars_iff :
    (class : ℕ → Bool) (message : Str → Str) (s : Str)
    → (check_chars class message s ≡ ok tt) ↔ (all (λ c. class c || nat_beq c b'-') s ≡ true)
unfolding check_chars
check_chars_iff class message [] = (λ h. refl, λ h. refl)
check_chars_iff class message (c ∷ s) =
    let step =
      unless_iff (not (class c) && not (nat_beq c b'-')) (validation (message (c ∷ continuation s)))
        (check_chars class message s) tt (check_chars_iff class message s) in
    (λ h. let seen = step.0 h in ground arith, λ h. step.1 (ground arith, ground arith))

-- The three tests of a text that is not empty.
IsName-iff :
    (class : ℕ → Bool) (max_len : ℕ) (c : ℕ) (s : Str) (long first : TenancyError)
    (message : Str → Str)
    → ((if ltb max_len (length (c ∷ s))
          then err long
          else if not (class c)
          then err first
          else check_chars class message s)
        ≡ ok tt)
      ↔ IsName class max_len (c ∷ s)
IsName-iff class max_len c s long first message =
    let step =
      unless_iff (ltb max_len (length (c ∷ s))) long _ tt
        (unless_iff (not (class c)) first _ tt (check_chars_iff class message s)) in
    (
      λ h. let seen = step.0 h in (ground arith, ground arith, ground arith),
      λ h. step.1 (ground arith, (ground arith, ground arith)),
    )

label_iff :
    (s : Str) (max_len : ℕ) (label : Str)
    → (validate_dns_label s max_len label ≡ ok tt) ↔ IsName is_slug_alnum max_len s
unfolding validate_dns_label
label_iff [] max_len label = (λ h. cc, λ h. cc)
label_iff (c ∷ s) max_len label =
    IsName-iff is_slug_alnum max_len c s _ _
      (invalid_char (quoted label (c ∷ s)) (bytes "a-z, 0-9, '-'"))

org_iff :
    (slug s : Str) → (validate_org_name slug s ≡ ok tt) ↔ IsName is_org_alnum org_name_max_len s
unfolding validate_org_name
org_iff slug [] = (λ h. cc, λ h. cc)
org_iff slug (c ∷ s) = IsName-iff is_org_alnum org_name_max_len c s _ _ (
    invalid_char (quoted (bytes "Tenant '" ++ slug ++ bytes "' org_name") (c ∷ s))
      (bytes "a-z, A-Z, 0-9, '-'"))

check_ids_iff :
    (slug : Str) (ids : List Str) → (check_ids slug ids ≡ ok tt) ↔ (any is_blank ids ≡ false)
check_ids_iff slug [] = (λ h. refl, λ h. refl)
check_ids_iff slug (id ∷ ids) =
    let step =
      then_iff (refuse_if (is_blank id) _) (check_ids slug ids) tt (refuse_if_iff (is_blank id) _)
        (check_ids_iff slug ids) in
    (λ h. let seen = step.0 h in ground arith, λ h. step.1 (ground arith, ground arith))

not_iff : (b : Bool) (message : Str) → (refuse_if (not b) message ≡ ok tt) ↔ (b ≡ true)
not_iff true message = (λ h. refl, λ h. refl)
not_iff false message = (λ h. cc, λ h. cc)

-- An entry for an app passes exactly when its id is a label, its number is unsigned and of 64 bits,
-- its secret is not empty and its key is not blank.
pub validate_app_entry_iff :
    (app : GithubAppConfig) → (validate_app_entry app ≡ ok tt) ↔ ValidApp app
unfolding validate_app_entry validate_app_id_field
validate_app_entry_iff app =
    then_iff (validate_app_id_field app.id) _ tt (label_iff app.id app_id_max_len _) (
      then_iff _ _ tt (not_iff (is_some (parse_u64 app.app_id)) _) (
        then_iff _ _ tt (refuse_if_iff (is_empty app.webhook_secret) _)
          (refuse_if_iff (is_blank app.private_key) _)))

binding_iff :
    (slug : Str) (provider : TenantProvider) (apps : GithubAppRegistry)
    → (validate_provider slug provider apps ≡ ok tt) ↔ (
        IsName is_org_alnum org_name_max_len (binding_of provider).org_name
        × (is_some (by_id apps (binding_of provider).app_ref) ≡ true))
unfolding validate_tenant_binding
binding_iff slug (github binding) apps =
    then_iff (validate_org_name slug binding.org_name) _ tt (org_iff slug binding.org_name)
      (not_iff (is_some (by_id apps binding.app_ref)) _)

-- A tenant passes exactly when its slug is a label, it has connectors of which none is blank, the
-- organisation has a name of GitHub's form, and its app is registered.
pub validate_tenant_iff :
    (tenant : TenantConfig) (apps : GithubAppRegistry)
    → (validate_tenant tenant apps ≡ ok tt) ↔ ValidTenant apps tenant
unfolding validate_tenant validate_slug validate_connector_ids
validate_tenant_iff tenant apps =
    then_iff (validate_slug tenant.slug) _ tt (label_iff tenant.slug slug_max_len _) (
      then_iff (validate_connector_ids tenant.slug tenant.connector_ids) _ tt
        (then_iff _ _ tt (refuse_if_iff (is_empty tenant.connector_ids) _)
          (check_ids_iff tenant.slug tenant.connector_ids))
        (binding_iff tenant.slug tenant.provider apps))
