-- ===== src/Tenancy/Tenants.antt =====
-- The registry of the tenants as maps of their list (`TenantRegistry::build` of tenancy/src/lib.rs).
use jefferies.Prelude.{
  Str, str_inst, pair_inst, ◌≡◌, ◌↔◌, refl, sym, subst, false, List, [], ◌∷◌, ◌++◌, map, All,
  contains_key, insert, IsMap, insert-absent, snoc_append, append_nil, append_append,
  append-IsMap_absent, append-IsMap_front, snoc-IsMap, ok, ◌>>=◌, >>=-ok,
}
use jefferies.Tenancy.{TenantConfig, binding_of, GithubAppRegistry, TenantRegistry}
use jefferies.Tenancy.Validate.{validate_tenant}
use jefferies.Tenancy.Names.{ValidTenant, refuse_if_iff, then_iff, validate_tenant_iff}
use jefferies.Tenancy.Build.{
  twice_slug, twice_app_org, twice_connector, connector_key, app_org_key, added, add_connectors,
  add_tenant, build_tenants,
}
use jefferies.Tenancy.Registry.{tenant_entry, app_org_entry, connector_entry, connector_entries}

-- No key stands twice in any of the three maps.
abbrev pub IsDistinct : TenantRegistry → Type 0
IsDistinct r = IsMap r.slugs × IsMap r.apps_and_orgs × IsMap r.connectors_and_orgs

-- A registry with the entries of one more tenant, and of more of them.
abbrev extended : TenantRegistry → TenantConfig → TenantRegistry
extended r tenant = record {
  slugs = r.slugs ++ tenant_entry tenant ∷ [];
  connectors_and_orgs = r.connectors_and_orgs ++ map (connector_entry tenant) tenant.connector_ids;
  apps_and_orgs = r.apps_and_orgs ++ app_org_entry tenant ∷ [];
}

abbrev pub extended_by : TenantRegistry → List TenantConfig → TenantRegistry
extended_by r tenants = record {
  slugs = r.slugs ++ map tenant_entry tenants;
  connectors_and_orgs = r.connectors_and_orgs ++ connector_entries tenants;
  apps_and_orgs = r.apps_and_orgs ++ map app_org_entry tenants;
}

extended_twice :
    (r : TenantRegistry) (tenant : TenantConfig) (tenants : List TenantConfig)
    → extended_by (extended r tenant) tenants ≡ extended_by r (tenant ∷ tenants)
extended_twice r tenant tenants =
    rw
      (
        snoc_append r.slugs (tenant_entry tenant) (map tenant_entry tenants),
        snoc_append r.apps_and_orgs (app_org_entry tenant) (map app_org_entry tenants),
        append_append r.connectors_and_orgs (map (connector_entry tenant) tenant.connector_ids)
            (connector_entries tenants),
      )
      refl

extended_none : (r : TenantRegistry) → extended_by r [] ≡ r
extended_none r =
    rw (append_nil r.slugs, append_nil r.apps_and_orgs, append_nil r.connectors_and_orgs) refl

module _ (tenant : TenantConfig) where
  connectors_iff :
      (id : Str) (ids : List Str) (m r : List ((Str × Str) × TenantConfig))
      → (add_connectors tenant (id ∷ ids) m ≡ ok r) ↔ (
          (contains_key (connector_key tenant id) m ≡ false)
          × (add_connectors tenant ids (insert (connector_key tenant id) tenant m) ≡ ok r))
  unfolding add_connectors
  connectors_iff id ids m r =
      then_iff _ (add_connectors tenant ids (insert (connector_key tenant id) tenant m)) r
        (refuse_if_iff (contains_key (connector_key tenant id) m)
          (twice_connector id (binding_of tenant.provider).org_name))
        (λ h. h, λ h. h)

  connectors_built :
      (ids : List Str) (m r : List ((Str × Str) × TenantConfig))
      → IsMap m
      → add_connectors tenant ids m ≡ ok r
      → IsMap (m ++ map (connector_entry tenant) ids) × (r ≡ m ++ map (connector_entry tenant) ids)
  unfolding add_connectors
  connectors_built [] m r h eq = rw append_nil (h, cc)
  connectors_built (id ∷ ids) m r h eq =
      let (absent, rest) = (connectors_iff id ids m r).0 eq in
      let more =
        connectors_built ids (m ++ connector_entry tenant id ∷ []) r
          (snoc-IsMap (connector_key tenant id) tenant m h absent)
          (subst (λ x. add_connectors tenant ids x ≡ ok r)
            (insert-absent (connector_key tenant id) tenant m absent) rest) in
      subst (λ x. IsMap x × (r ≡ x))
        (snoc_append m (connector_entry tenant id) (map (connector_entry tenant) ids)) more

  built_connectors :
      (ids : List Str) (m : List ((Str × Str) × TenantConfig))
      → IsMap (m ++ map (connector_entry tenant) ids)
      → add_connectors tenant ids m ≡ ok (m ++ map (connector_entry tenant) ids)
  unfolding add_connectors
  built_connectors [] m d = rw append_nil refl
  built_connectors (id ∷ ids) m d =
      let absent =
        append-IsMap_absent (connector_key tenant id) tenant m (map (connector_entry tenant) ids)
          d in
      let same = snoc_append m (connector_entry tenant id) (map (connector_entry tenant) ids) in
      let more =
        built_connectors ids (m ++ connector_entry tenant id ∷ []) (subst IsMap (sym same) d) in
      (connectors_iff id ids m _).1
        (absent, rw (insert-absent (connector_key tenant id) tenant m absent, more, same) refl)

module _ (apps : GithubAppRegistry) (tenant : TenantConfig) (r : TenantRegistry) where
  add_tenant_iff :
      (r' : TenantRegistry)
      → (add_tenant apps r tenant ≡ ok r') ↔ (
          ValidTenant apps tenant
          × ((contains_key tenant.slug r.slugs ≡ false)
              × ((contains_key (app_org_key tenant) r.apps_and_orgs ≡ false)
                  × ((add_connectors tenant tenant.connector_ids r.connectors_and_orgs >>= λ m.
                        ok (added r tenant m))
                      ≡ ok r'))))
  unfolding add_tenant
  add_tenant_iff r' =
      then_iff (validate_tenant tenant apps) _ r' (validate_tenant_iff tenant apps) (
        then_iff _ _ r' (refuse_if_iff (contains_key tenant.slug r.slugs) (twice_slug tenant)) (
          then_iff _
            (add_connectors tenant tenant.connector_ids r.connectors_and_orgs >>= λ m.
              ok (added r tenant m))
            r'
            (refuse_if_iff (contains_key (app_org_key tenant) r.apps_and_orgs)
              (twice_app_org tenant))
            (λ h. h, λ h. h)))

  -- The entries that are inserted stand behind the others.
  added_extends :
      contains_key tenant.slug r.slugs ≡ false
      → contains_key (app_org_key tenant) r.apps_and_orgs ≡ false
      → added r tenant (r.connectors_and_orgs ++ map (connector_entry tenant) tenant.connector_ids)
        ≡ extended r tenant
  added_extends s a =
      rw
        (
          insert-absent tenant.slug tenant r.slugs s,
          insert-absent (app_org_key tenant) tenant r.apps_and_orgs a,
        )
        refl

  tenant_built :
      (r' : TenantRegistry)
      → IsDistinct r
      → add_tenant apps r tenant ≡ ok r'
      → (ValidTenant apps tenant × IsDistinct (extended r tenant)) × (r' ≡ extended r tenant)
  tenant_built r' (ds, da, dc) eq =
      let (valid, (s, (a, rest))) = (add_tenant_iff r').0 eq in
      let (m, built, done) =
        >>=-ok (add_connectors tenant tenant.connector_ids r.connectors_and_orgs)
          (λ m. ok (added r tenant m)) rest in
      let (distinct, same) =
        connectors_built tenant tenant.connector_ids r.connectors_and_orgs m dc built in
      let all_same = added_extends s a in
      (
        (
          valid,
          (
            snoc-IsMap tenant.slug tenant r.slugs ds s,
            snoc-IsMap (app_org_key tenant) tenant r.apps_and_orgs da a,
            distinct,
          ),
        ),
        cc,
      )

  built_tenant :
      ValidTenant apps tenant
      → IsDistinct (extended r tenant)
      → add_tenant apps r tenant ≡ ok (extended r tenant)
  built_tenant v (ds, da, dc) =
      let s = append-IsMap_absent tenant.slug tenant r.slugs [] ds in
      let a = append-IsMap_absent (app_org_key tenant) tenant r.apps_and_orgs [] da in
      (add_tenant_iff (extended r tenant)).1 (
        v,
        (
          s,
          (
            a,
            rw
                (
                  built_connectors tenant tenant.connector_ids r.connectors_and_orgs dc,
                  added_extends s a,
                )
                refl,
          ),
        ),
      )

module _ (apps : GithubAppRegistry) where
  pub tenants_built :
      (r : TenantRegistry) (tenants : List TenantConfig) (r' : TenantRegistry)
      → IsDistinct r
      → build_tenants apps r tenants ≡ ok r'
      → (All (ValidTenant apps) tenants × IsDistinct (extended_by r tenants))
        × (r' ≡ extended_by r tenants)
  unfolding build_tenants
  tenants_built r [] r' d eq =
      ((tt, subst IsDistinct (sym (extended_none r)) d), rw (extended_none r) cc)
  tenants_built r (tenant ∷ tenants) r' d eq =
      let (r1, first, rest) =
        >>=-ok (add_tenant apps r tenant) (λ x. build_tenants apps x tenants) eq in
      let ((valid, distinct), same) = tenant_built apps tenant r r1 d first in
      let ((valids, all_distinct), all_same) =
        tenants_built (extended r tenant) tenants r' distinct
          (subst (λ x. build_tenants apps x tenants ≡ ok r') same rest) in
      (
        ((valid, valids), subst IsDistinct (extended_twice r tenant tenants) all_distinct),
        subst (λ x. r' ≡ x) (extended_twice r tenant tenants) all_same,
      )

  pub built_tenants :
      (r : TenantRegistry) (tenants : List TenantConfig)
      → All (ValidTenant apps) tenants
      → IsDistinct (extended_by r tenants)
      → build_tenants apps r tenants ≡ ok (extended_by r tenants)
  unfolding build_tenants
  built_tenants r [] v d = rw (extended_none r) refl
  built_tenants r (tenant ∷ tenants) (v, vs) d =
      let (ds, da, dc) = subst IsDistinct (sym (extended_twice r tenant tenants)) d in
      let here : IsDistinct (extended r tenant) = (
        append-IsMap_front _ (map tenant_entry tenants) ds,
        append-IsMap_front _ (map app_org_entry tenants) da,
        append-IsMap_front _ (connector_entries tenants) dc,
      ) in
      rw
        (
          built_tenant apps tenant r v here,
          built_tenants (extended r tenant) tenants vs (ds, da, dc),
          extended_twice r tenant tenants,
        )
        refl
