-- ===== src/Tenancy/Registry.antt =====
-- The registries of a document as maps of its lists, and when a document has them
-- (`build` and `from_document` of tenancy/src/lib.rs).
use jefferies.Prelude.{
  Str, str_inst, pair_inst, ◌≡◌, ◌↔◌, refl, sym, subst, false, List, [], ◌∷◌, ◌++◌, map, All,
  contains_key, insert, IsMap, insert-absent, snoc_append, append_nil, append-IsMap_absent,
  snoc-IsMap, ok,
}
use jefferies.Tenancy.{GithubAppConfig, TenantConfig, GithubAppRegistry}
use jefferies.Tenancy.Validate.{validate_app_entry}
use jefferies.Tenancy.Names.{ValidApp, refuse_if_iff, then_iff, validate_app_entry_iff}
use jefferies.Tenancy.Build.{twice_app, connector_key, app_org_key, build_apps}

abbrev pub app_entry : GithubAppConfig → Str × GithubAppConfig
app_entry app = (app.id, app)

abbrev pub tenant_entry : TenantConfig → Str × TenantConfig
tenant_entry tenant = (tenant.slug, tenant)

abbrev pub app_org_entry : TenantConfig → (Str × Str) × TenantConfig
app_org_entry tenant = (app_org_key tenant, tenant)

abbrev pub connector_entry : TenantConfig → Str → (Str × Str) × TenantConfig
connector_entry tenant connector_id = (connector_key tenant connector_id, tenant)

abbrev pub connector_entries : List TenantConfig → List ((Str × Str) × TenantConfig)
connector_entries [] = []
connector_entries (tenant ∷ tenants) =
    map (connector_entry tenant) tenant.connector_ids ++ connector_entries tenants

abbrev pub with_apps : List (Str × GithubAppConfig) → GithubAppRegistry
with_apps m = record { apps_by_id = m }

-- The registry of the apps, from one that has the entries `m`.
pub record BuiltApps (m : List (Str × GithubAppConfig)) (apps : List GithubAppConfig)
    (r : GithubAppRegistry) : Type 0 where
  pub valid : All ValidApp apps
  pub distinct : IsMap (m ++ map app_entry apps)
  pub result : r ≡ with_apps (m ++ map app_entry apps)

add_app_iff :
    (m : List (Str × GithubAppConfig)) (app : GithubAppConfig) (apps : List GithubAppConfig)
    (r : GithubAppRegistry)
    → (build_apps m (app ∷ apps) ≡ ok r) ↔ (
        ValidApp app
        × ((contains_key app.id m ≡ false) × (build_apps (insert app.id app m) apps ≡ ok r)))
unfolding build_apps
add_app_iff m app apps r = then_iff (validate_app_entry app) _ r (validate_app_entry_iff app) (
    then_iff _ (build_apps (insert app.id app m) apps) r
      (refuse_if_iff (contains_key app.id m) (twice_app app)) (λ h. h, λ h. h))

pub build_apps-BuiltApps :
    (m : List (Str × GithubAppConfig)) (apps : List GithubAppConfig) (r : GithubAppRegistry)
    → IsMap m
    → build_apps m apps ≡ ok r
    → BuiltApps m apps r
unfolding build_apps
build_apps-BuiltApps m [] r h eq = record {
  valid = tt;
  distinct = rw append_nil h;
  result = rw append_nil cc;
}
build_apps-BuiltApps m (app ∷ apps) r h eq =
    let (valid, (absent, rest)) = (add_app_iff m app apps r).0 eq in
    let more =
      build_apps-BuiltApps (m ++ app_entry app ∷ []) apps r (snoc-IsMap app.id app m h absent)
        (subst (λ x. build_apps x apps ≡ ok r) (insert-absent app.id app m absent) rest) in
    record {
      valid = (valid, more.valid);
      distinct = subst IsMap (snoc_append m (app_entry app) (map app_entry apps)) more.distinct;
      result =
          subst (λ x. r ≡ with_apps x) (snoc_append m (app_entry app) (map app_entry apps))
            more.result;
    }

pub built_apps-BuiltApps :
    (m : List (Str × GithubAppConfig)) (apps : List GithubAppConfig)
    → All ValidApp apps
    → IsMap (m ++ map app_entry apps)
    → build_apps m apps ≡ ok (with_apps (m ++ map app_entry apps))
unfolding build_apps
built_apps-BuiltApps m [] v d = rw append_nil refl
built_apps-BuiltApps m (app ∷ apps) (v, vs) d =
    let absent = append-IsMap_absent app.id app m (map app_entry apps) d in
    let more =
      built_apps-BuiltApps (m ++ app_entry app ∷ []) apps vs
        (subst IsMap (sym (snoc_append m (app_entry app) (map app_entry apps))) d) in
    (add_app_iff m app apps _).1 (
      v,
      (
        absent,
        subst (λ x. build_apps x apps ≡ ok (with_apps (m ++ app_entry app ∷ map app_entry apps)))
            (sym (insert-absent app.id app m absent))
            (subst (λ x. build_apps (m ++ app_entry app ∷ []) apps ≡ ok (with_apps x))
              (snoc_append m (app_entry app) (map app_entry apps)) more),
      ),
    )
