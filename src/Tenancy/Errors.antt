-- ===== src/Tenancy/Errors.antt =====
-- The errors of `from_document` and of the loaders (tenancy/src/lib.rs).
use jefferies.Prelude.{
  ℕ, Str, bytes, ◌++◌, str_inst, pair_inst, ◌≡◌, refl, Bool, true, false, not, ◌&&◌, List, [], ◌∷◌,
  length, contains_key, is_empty, is_some, ltb, nat_beq, Result, ok, err, ◌>>=◌, if◌then◌else◌,
  subst, insert,
}
use jefferies.Tenancy.{
  GithubAppConfig, TenantProvider, github, TenantConfig, TenancyDocument, GithubAppRegistry,
  TenantRegistry,
}
use jefferies.Tenancy.Validate.{
  TenancyError, validation, Check, is_slug_alnum, is_org_alnum, org_name_max_len, check_chars,
  validate_dns_label, validate_org_name, validate_slug, validate_app_id_field, parse_u64, is_blank,
  refuse_if, quoted, invalid_char, validate_app_entry, check_ids, validate_connector_ids,
  validate_provider, validate_tenant_binding, validate_tenant,
}
use jefferies.Tenancy.Build.{
  connector_key, app_org_key, added, build_apps, add_connectors, add_tenant, build_tenants,
  from_document,
}
use jefferies.Tenancy.Lookup.{ValidDocument, registry_of, from_document_iff}

abbrev pub is_validation : TenancyError → Bool
is_validation (validation _) = true
is_validation _ = false

abbrev Refuses {ℓ} : {A : Type ℓ} → Result TenancyError A → Type 0
Refuses (ok x) = Unit
Refuses (err e) = is_validation e ≡ true

then-Refuses {ℓ κ} :
    {A : Type ℓ} {B : Type κ} (first : Result TenancyError A) (next : A → Result TenancyError B)
    → Refuses first
    → ((x : A) → Refuses (next x))
    → Refuses (first >>= next)
then-Refuses (ok x) next p q = q x
then-Refuses (err e) next p q = p

refuse_if-Refuses : (b : Bool) (message : Str) → Refuses (refuse_if b message)
refuse_if-Refuses true message = refl
refuse_if-Refuses false message = tt

if-Refuses : (b : Bool) (x y : Check) → Refuses x → Refuses y → Refuses (if b then x else y)
if-Refuses true x y p q = p
if-Refuses false x y p q = q

chars-Refuses :
    (class : ℕ → Bool) (message : Str → Str) (s : Str) → Refuses (check_chars class message s)
unfolding check_chars
chars-Refuses class message [] = tt
chars-Refuses class message (c ∷ s) =
    if-Refuses (not (class c) && not (nat_beq c b'-')) (err (validation _))
      (check_chars class message s) refl (chars-Refuses class message s)

label-Refuses : (s : Str) (max_len : ℕ) (label : Str) → Refuses (validate_dns_label s max_len label)
unfolding validate_dns_label
label-Refuses [] max_len label = refl
label-Refuses (c ∷ s) max_len label =
    if-Refuses (ltb max_len (length (c ∷ s))) (err (validation _)) _ refl (
      if-Refuses (not (is_slug_alnum c)) (err (validation _)) _ refl (
        chars-Refuses is_slug_alnum (invalid_char (quoted label (c ∷ s)) (bytes "a-z, 0-9, '-'"))
          s))

org-Refuses : (slug s : Str) → Refuses (validate_org_name slug s)
unfolding validate_org_name
org-Refuses slug [] = refl
org-Refuses slug (c ∷ s) =
    if-Refuses (ltb org_name_max_len (length (c ∷ s))) (err (validation _)) _ refl (
      if-Refuses (not (is_org_alnum c)) (err (validation _)) _ refl (
        chars-Refuses is_org_alnum
          (invalid_char (quoted (bytes "Tenant '" ++ slug ++ bytes "' org_name") (c ∷ s))
            (bytes "a-z, A-Z, 0-9, '-'"))
          s))

ids-Refuses : (slug : Str) (ids : List Str) → Refuses (check_ids slug ids)
ids-Refuses slug [] = tt
ids-Refuses slug (id ∷ ids) =
    then-Refuses (refuse_if (is_blank id) _) _ (refuse_if-Refuses (is_blank id) _)
      (λ x. ids-Refuses slug ids)

app-Refuses : (app : GithubAppConfig) → Refuses (validate_app_entry app)
unfolding validate_app_entry validate_app_id_field
app-Refuses app = then-Refuses (validate_app_id_field app.id) _ (label-Refuses app.id _ _) (λ x.
    then-Refuses (refuse_if (not (is_some (parse_u64 app.app_id))) _) _ (refuse_if-Refuses _ _)
      (λ y.
        then-Refuses (refuse_if (is_empty app.webhook_secret) _) _ (refuse_if-Refuses _ _)
          (λ z. refuse_if-Refuses _ _)))

provider-Refuses :
    (slug : Str) (provider : TenantProvider) (apps : GithubAppRegistry)
    → Refuses (validate_provider slug provider apps)
unfolding validate_tenant_binding
provider-Refuses slug (github binding) apps =
    then-Refuses (validate_org_name slug binding.org_name) _ (org-Refuses slug binding.org_name)
      (λ x. refuse_if-Refuses _ _)

tenant-Refuses :
    (tenant : TenantConfig) (apps : GithubAppRegistry) → Refuses (validate_tenant tenant apps)
unfolding validate_tenant validate_slug validate_connector_ids
tenant-Refuses tenant apps =
    then-Refuses (validate_slug tenant.slug) _ (label-Refuses tenant.slug _ _) (λ x.
      then-Refuses (validate_connector_ids tenant.slug tenant.connector_ids) _
        (then-Refuses (refuse_if (is_empty tenant.connector_ids) _) _ (refuse_if-Refuses _ _)
          (λ y. ids-Refuses tenant.slug tenant.connector_ids))
        (λ y. provider-Refuses tenant.slug tenant.provider apps))

apps-Refuses :
    (m : List (Str × GithubAppConfig)) (apps : List GithubAppConfig) → Refuses (build_apps m apps)
unfolding build_apps
apps-Refuses m [] = tt
apps-Refuses m (app ∷ apps) = then-Refuses (validate_app_entry app) _ (app-Refuses app) (λ x.
    then-Refuses (refuse_if (contains_key app.id m) _) _ (refuse_if-Refuses _ _)
      (λ y. apps-Refuses (insert app.id app m) apps))

connectors-Refuses :
    (t : TenantConfig) (ids : List Str) (m : List ((Str × Str) × TenantConfig))
    → Refuses (add_connectors t ids m)
unfolding add_connectors
connectors-Refuses t [] m = tt
connectors-Refuses t (id ∷ ids) m =
    then-Refuses (refuse_if (contains_key (connector_key t id) m) _) _ (refuse_if-Refuses _ _)
      (λ x. connectors-Refuses t ids (insert (connector_key t id) t m))

add_tenant-Refuses :
    (apps : GithubAppRegistry) (r : TenantRegistry) (t : TenantConfig)
    → Refuses (add_tenant apps r t)
unfolding add_tenant
add_tenant-Refuses apps r t = then-Refuses (validate_tenant t apps) _ (tenant-Refuses t apps) (λ x.
    then-Refuses (refuse_if (contains_key t.slug r.slugs) _) _ (refuse_if-Refuses _ _) (λ y.
      then-Refuses (refuse_if (contains_key (app_org_key t) r.apps_and_orgs) _) _
        (refuse_if-Refuses _ _)
        (λ z.
          then-Refuses (add_connectors t t.connector_ids r.connectors_and_orgs)
            (λ m. ok (added r t m)) (connectors-Refuses t t.connector_ids r.connectors_and_orgs)
            (λ m. tt))))

tenants-Refuses :
    (apps : GithubAppRegistry) (r : TenantRegistry) (ts : List TenantConfig)
    → Refuses (build_tenants apps r ts)
unfolding build_tenants
tenants-Refuses apps r [] = tt
tenants-Refuses apps r (t ∷ ts) =
    then-Refuses (add_tenant apps r t) _ (add_tenant-Refuses apps r t)
      (λ r'. tenants-Refuses apps r' ts)

document-Refuses : (d : TenancyDocument) → Refuses (from_document d)
unfolding from_document
document-Refuses d =
    then-Refuses (build_apps [] d.github_apps) _ (apps-Refuses [] d.github_apps) (λ apps.
      then-Refuses (build_tenants apps _ d.tenants) _ (tenants-Refuses apps _ d.tenants) (λ ts. tt))

-- An error of `from_document` is a validation error, and the document is not valid.
pub from_document-err :
    (d : TenancyDocument) (e : TenancyError)
    → from_document d ≡ err e
    → (is_validation e ≡ true) × (¬ ValidDocument d)
from_document-err d e h = (
  subst Refuses h (document-Refuses d),
  λ v. let good = (from_document_iff d (registry_of d)).1 (v, refl) in cc,
)
