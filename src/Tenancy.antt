-- ===== src/Tenancy.antt =====
-- The tenants and the GitHub apps of a deployment (tenancy/src/lib.rs): the document and the
-- registries. `Arc` only shares, so its value stands for it.
pub mod Validate
pub mod Build
pub mod Names
pub mod Registry
pub mod Tenants
pub mod Lookup
pub mod Indices
pub mod Errors
mod Tests
use jefferies.Prelude.{Str, Option, List, pair_inst, str_inst, get}

pub record GithubAppConfig : Type 0 where
  pub id : Str
  pub app_id : Str
  pub webhook_secret : Str
  pub private_key : Str

pub record GithubTenantBinding : Type 0 where
  pub org_name : Str
  pub app_ref : Str

pub data TenantProvider : Type 0 where
  github : GithubTenantBinding → TenantProvider

pub record TenantConfig : Type 0 where
  pub slug : Str
  pub display_name : Option Str
  pub connector_ids : List Str
  pub provider : TenantProvider

-- `let TenantProvider::Github(binding) = &tenant.provider`
abbrev pub binding_of : TenantProvider → GithubTenantBinding
binding_of (github binding) = binding

pub record TenancyDocument : Type 0 where
  pub github_apps : List GithubAppConfig
  pub tenants : List TenantConfig

pub record GithubAppRegistry : Type 0 where
  pub apps_by_id : List (Str × GithubAppConfig)

pub record TenantRegistry : Type 0 where
  pub slugs : List (Str × TenantConfig)
  pub connectors_and_orgs : List ((Str × Str) × TenantConfig)
  pub apps_and_orgs : List ((Str × Str) × TenantConfig)

pub record TenancyRegistry : Type 0 where
  pub apps : GithubAppRegistry
  pub tenants : TenantRegistry

unfoldable pub by_id : GithubAppRegistry → Str → Option GithubAppConfig
unfolding get
by_id registry id = get id registry.apps_by_id

unfoldable pub by_slug : TenantRegistry → Str → Option TenantConfig
unfolding get
by_slug registry slug = get slug registry.slugs

unfoldable pub find_for_connector_and_org : TenantRegistry → Str → Str → Option TenantConfig
unfolding get
find_for_connector_and_org registry connector_id org_name =
    get (connector_id, org_name) registry.connectors_and_orgs

unfoldable pub by_app_and_org : TenantRegistry → Str → Str → Option TenantConfig
unfolding get
by_app_and_org registry app_ref org_name = get (app_ref, org_name) registry.apps_and_orgs
