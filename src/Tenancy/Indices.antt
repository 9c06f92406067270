-- ===== src/Tenancy/Indices.antt =====
-- The three indices of the tenants against each other (tenancy/src/lib.rs).
use jefferies.Prelude.{
  Str, str_eq_iff, str_inst, pair_inst, ◌≡◌, sym, ◌∙◌, true, some, is_some, find, find-some,
  find-All, find_again, contains, ok, arith, subst,
}
use jefferies.Tenancy.{
  TenantConfig, binding_of, TenancyDocument, TenancyRegistry, by_id, by_slug, by_app_and_org,
  find_for_connector_and_org,
}
use jefferies.Tenancy.Names.{ValidTenant}
use jefferies.Tenancy.Build.{app_org_key, from_document}
use jefferies.Tenancy.Lookup.{registry_of, serves, from_document_iff, from_document-Lookups}

-- What is known of a tenant that a connector and an organisation reach.
pub record Reached (r : TenancyRegistry) (connector_id org_name : Str) (t : TenantConfig)
    : Type 0 where
  pub lists_connector : contains t.connector_ids connector_id ≡ true
  pub has_org : (binding_of t.provider).org_name ≡ org_name
  pub app_is_known : is_some (by_id r.apps (binding_of t.provider).app_ref) ≡ true
  pub under_slug : by_slug r.tenants t.slug ≡ some t
  pub under_app : by_app_and_org r.tenants (binding_of t.provider).app_ref org_name ≡ some t

-- A tenant that the registries of an accepted document give for a connector and an organisation lists
-- this connector and has this organisation, its app is registered, and the other two indices give the
-- same tenant for its slug and for its app and organisation.
pub find_for_connector_and_org-Reached :
    (d : TenancyDocument) (r : TenancyRegistry) (connector_id org_name : Str) (t : TenantConfig)
    → from_document d ≡ ok r
    → find_for_connector_and_org r.tenants connector_id org_name ≡ some t
    → Reached r connector_id org_name t
find_for_connector_and_org-Reached d r connector_id org_name t accepted found =
    let (valid, described) = (from_document_iff d r).0 accepted in
    let finds = from_document-Lookups d r accepted in
    let in_list : find (serves connector_id org_name) d.tenants ≡ some t =
      sym (finds.finds_connector connector_id org_name) ∙ found in
    let test = find-some (serves connector_id org_name) d.tenants t in_list in
    let org : (binding_of t.provider).org_name ≡ org_name =
      (str_eq_iff _ org_name).0 (ground arith) in
    let sound =
      find-All (ValidTenant (registry_of d).apps) (serves connector_id org_name) d.tenants t
        valid.tenants_valid in_list in
    record {
      lists_connector = ground arith;
      has_org = org;
      app_is_known =
          subst (λ x. is_some (by_id x.apps (binding_of t.provider).app_ref) ≡ true) (sym described)
            sound.1.1.1;
      under_slug =
          finds.finds_slug t.slug
          ∙ find_again (λ x. x.slug) (serves connector_id org_name) d.tenants t
              valid.keys_distinct.0 in_list;
      under_app =
          subst (λ o. by_app_and_org r.tenants (binding_of t.provider).app_ref o ≡ some t) org
            (finds.finds_app_and_org (binding_of t.provider).app_ref
                (binding_of t.provider).org_name
              ∙ find_again app_org_key (serves connector_id org_name) d.tenants t
                  valid.keys_distinct.1 in_list);
    }
