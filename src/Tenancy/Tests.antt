-- ===== src/Tenancy/Tests.antt =====
-- A small document of two tenants (tenancy/src/lib.rs).
use jefferies.Prelude.{
  Str, str_eq, str_inst, pair_inst, bytes, ◌≡◌, ◌↔◌, refl, true, none, [], ◌∷◌, ok, err,
}
use jefferies.Tenancy.{
  GithubAppConfig, github, TenantConfig, TenancyDocument, find_for_connector_and_org,
}
use jefferies.Tenancy.Validate.{validation, validate_app_entry, validate_tenant}
use jefferies.Tenancy.Names.{ValidApp, ValidTenant, validate_app_entry_iff, validate_tenant_iff}
use jefferies.Tenancy.Build.{from_document, twice_slug}
use jefferies.Tenancy.Lookup.{
  ValidDocument, Lookups, registry_of, from_document_iff, from_document-Lookups,
}
use jefferies.Tenancy.Indices.{Reached, find_for_connector_and_org-Reached}
use jefferies.Tenancy.Errors.{is_validation, from_document-err}

abbrev app : GithubAppConfig
app = record {
  id = bytes "gh";
  app_id = bytes "12";
  webhook_secret = bytes "s";
  private_key = bytes "k";
}

abbrev tenant : Str → Str → TenantConfig
tenant slug org = record {
  slug = slug;
  display_name = none;
  connector_ids = bytes "dex" ∷ bytes "ghe" ∷ [];
  provider = github (record { org_name = org; app_ref = bytes "gh" });
}

abbrev two_tenants : TenancyDocument
two_tenants = record {
  github_apps = app ∷ [];
  tenants = tenant (bytes "acme") (bytes "Acme") ∷ tenant (bytes "conn") (bytes "the-conn") ∷ [];
}

abbrev twice : TenancyDocument
twice = record {
  github_apps = app ∷ [];
  tenants = tenant (bytes "acme") (bytes "Acme") ∷ tenant (bytes "acme") (bytes "the-conn") ∷ [];
}

accepted : from_document two_tenants ≡ ok (registry_of two_tenants)
unfolding from_document str_eq
accepted = refl

refused :
    from_document twice ≡ err (validation (twice_slug (tenant (bytes "acme") (bytes "the-conn"))))
unfolding from_document str_eq
refused = refl

validate_app_entry_iff_example : (validate_app_entry app ≡ ok tt) ↔ ValidApp app
validate_app_entry_iff_example = validate_app_entry_iff app

validate_tenant_iff_example :
    (validate_tenant (tenant (bytes "acme") (bytes "Acme")) (registry_of two_tenants).apps ≡ ok tt)
    ↔ ValidTenant (registry_of two_tenants).apps (tenant (bytes "acme") (bytes "Acme"))
validate_tenant_iff_example =
    validate_tenant_iff (tenant (bytes "acme") (bytes "Acme")) (registry_of two_tenants).apps

from_document_iff_example :
    (from_document two_tenants ≡ ok (registry_of two_tenants))
    ↔ (ValidDocument two_tenants × (registry_of two_tenants ≡ registry_of two_tenants))
from_document_iff_example = from_document_iff two_tenants (registry_of two_tenants)

from_document-Lookups_example : Lookups two_tenants (registry_of two_tenants)
from_document-Lookups_example = from_document-Lookups two_tenants (registry_of two_tenants) accepted

find_for_connector_and_org-Reached_example :
    Reached
      (registry_of two_tenants)
      (bytes "ghe")
      (bytes "Acme")
      (tenant (bytes "acme") (bytes "Acme"))
unfolding find_for_connector_and_org str_eq
find_for_connector_and_org-Reached_example =
    find_for_connector_and_org-Reached two_tenants (registry_of two_tenants) (bytes "ghe")
      (bytes "Acme") (tenant (bytes "acme") (bytes "Acme")) accepted refl

from_document-err_example :
    (is_validation (validation (twice_slug (tenant (bytes "acme") (bytes "the-conn")))) ≡ true)
    × (¬ ValidDocument twice)
from_document-err_example =
    from_document-err twice (validation (twice_slug (tenant (bytes "acme") (bytes "the-conn"))))
      refused
