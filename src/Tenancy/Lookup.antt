-- ===== src/Tenancy/Lookup.antt =====
-- The registries of a document and what their lookups find (`from_document`, `by_id`, `by_slug`,
-- `by_app_and_org` and `find_for_connector_and_org` of tenancy/src/lib.rs).
use jefferies.Prelude.{
  Str, str_eq, str_inst, pair_inst, ◌≡◌, ◌↔◌, refl, subst, Bool, ◌&&◌, none, some, List, [], ◌∷◌,
  map, All, find, contains, get, contains_key, IsMap, get-map_entry, get-append, ok, >>=-ok,
  if◌then◌else◌, arith,
}
use jefferies.Tenancy.{
  TenantConfig, binding_of, TenancyDocument, TenantRegistry, TenancyRegistry, by_id, by_slug,
  by_app_and_org, find_for_connector_and_org,
}
use jefferies.Tenancy.Names.{ValidApp, ValidTenant}
use jefferies.Tenancy.Build.{app_org_key, build_apps, build_tenants, from_document}
use jefferies.Tenancy.Registry.{
  with_apps, app_entry, connector_entry, connector_entries, build_apps-BuiltApps,
  built_apps-BuiltApps,
}
use jefferies.Tenancy.Tenants.{IsDistinct, extended_by, tenants_built, built_tenants}

abbrev no_tenants : TenantRegistry
no_tenants = record { slugs = []; connectors_and_orgs = []; apps_and_orgs = [] }

-- The registries that a document describes.
abbrev pub registry_of : TenancyDocument → TenancyRegistry
registry_of d = record {
  apps = with_apps (map app_entry d.github_apps);
  tenants = extended_by no_tenants d.tenants;
}

-- Every entry is valid by itself, and no id, slug, pair of app and organisation, or pair of
-- connector and organisation stands twice.
pub record ValidDocument (d : TenancyDocument) : Type 0 where
  pub apps_valid : All ValidApp d.github_apps
  pub app_ids_distinct : IsMap (map app_entry d.github_apps)
  pub tenants_valid : All (ValidTenant (registry_of d).apps) d.tenants
  pub keys_distinct : IsDistinct (registry_of d).tenants

-- A document is accepted exactly when each app and each tenant is valid by itself and no app id, no
-- slug, no pair of app and organisation and no pair of connector and organisation stands twice; the
-- registries then hold exactly the entries of its lists.
pub from_document_iff :
    (d : TenancyDocument) (r : TenancyRegistry)
    → (from_document d ≡ ok r) ↔ (ValidDocument d × (r ≡ registry_of d))
unfolding from_document
from_document_iff d r = (
  λ h.
      let (apps, built, rest) = >>=-ok (build_apps [] d.github_apps) _ h in
      let (tenants, built', done) = >>=-ok (build_tenants apps no_tenants d.tenants) _ rest in
      let first = build_apps-BuiltApps [] d.github_apps apps tt built in
      let ((valid, distinct), same) =
        tenants_built apps no_tenants d.tenants tenants (tt, tt, tt) built' in
      let apps_same : apps ≡ (registry_of d).apps = first.result in
      (
        record {
          apps_valid = first.valid;
          app_ids_distinct = first.distinct;
          tenants_valid = subst (λ x. All (ValidTenant x) d.tenants) apps_same valid;
          keys_distinct = distinct;
        },
        cc,
      ),
  λ (v, same).
      rw
        (
          built_apps-BuiltApps [] d.github_apps v.apps_valid v.app_ids_distinct,
          built_tenants (registry_of d).apps no_tenants d.tenants v.tenants_valid v.keys_distinct,
          same,
        )
        refl,
)

-- The tenant is reached by a connector and an organisation.
abbrev pub serves : Str → Str → TenantConfig → Bool
serves connector_id org_name tenant =
    contains tenant.connector_ids connector_id
    && str_eq (binding_of tenant.provider).org_name org_name

connectors_of :
    (t : TenantConfig) (c o : Str) (ids : List Str)
    → contains_key (c, o) (map (connector_entry t) ids)
      ≡ (contains ids c && str_eq (binding_of t.provider).org_name o)
unfolding contains_key contains
connectors_of t c o [] = refl
connectors_of t c o (id ∷ ids) = ground (arith, connectors_of t c o ids)

connector_is :
    (t : TenantConfig) (k : Str × Str) (ids : List Str)
    → get k (map (connector_entry t) ids)
      ≡ (if contains_key k (map (connector_entry t) ids) then some t else none)
unfolding contains_key get
connector_is t k [] = refl
connector_is t k (id ∷ ids) = ground (arith, connector_is t k ids)

get-connector_entries :
    (c o : Str) (tenants : List TenantConfig)
    → get (c, o) (connector_entries tenants) ≡ find (serves c o) tenants
unfolding get
get-connector_entries c o [] = refl
get-connector_entries c o (t ∷ tenants) =
    rw
      (
        get-append (c, o) (map (connector_entry t) t.connector_ids) (connector_entries tenants),
        connector_is t (c, o) t.connector_ids,
        connectors_of t c o t.connector_ids,
        get-connector_entries c o tenants,
      )
      (ground arith)

-- What each lookup finds in the registries of an accepted document, as a search of its lists.
pub record Lookups (d : TenancyDocument) (r : TenancyRegistry) : Type 0 where
  pub finds_app : (id : Str) → by_id r.apps id ≡ find (λ app. str_eq app.id id) d.github_apps
  pub finds_slug : (slug : Str) → by_slug r.tenants slug ≡ find (λ t. str_eq t.slug slug) d.tenants
  pub finds_app_and_org :
      (app_ref org_name : Str)
      → by_app_and_org r.tenants app_ref org_name
        ≡ find
            (λ t.
              str_eq (binding_of t.provider).app_ref app_ref
              && str_eq (binding_of t.provider).org_name org_name)
            d.tenants
  pub finds_connector :
      (connector_id org_name : Str)
      → find_for_connector_and_org r.tenants connector_id org_name
        ≡ find (serves connector_id org_name) d.tenants

pub lookups : (d : TenancyDocument) → Lookups d (registry_of d)
unfolding by_id by_slug by_app_and_org find_for_connector_and_org
lookups d = record {
  finds_app = λ id. get-map_entry (λ app. app.id) id d.github_apps;
  finds_slug = λ slug. get-map_entry (λ t. t.slug) slug d.tenants;
  finds_app_and_org = λ app_ref org_name. get-map_entry app_org_key (app_ref, org_name) d.tenants;
  finds_connector = λ c o. get-connector_entries c o d.tenants;
}

-- The lookups of an accepted document find what a search of its lists finds: the app with the id, the
-- tenant with the slug, the one with the app and organisation, and the one of the organisation that
-- lists the connector.
pub from_document-Lookups :
    (d : TenancyDocument) (r : TenancyRegistry) → from_document d ≡ ok r → Lookups d r
from_document-Lookups d r h = rw (((from_document_iff d r).0 h).1) (lookups d)
