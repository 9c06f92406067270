-- ===== src/Tenancy/Build.antt =====
-- The registries built from a document (`build`, `from_document` and the loaders of
-- tenancy/src/lib.rs). The environment, the files and the YAML parser are parameters.
use jefferies.Prelude.{
  Str, bytes, Option, List, [], ◌∷◌, ◌++◌, str_inst, pair_inst, contains_key, insert, unwrap_or,
  Result, ok, err, ◌>>=◌, ◌>>◌,
}
use jefferies.Tenancy.{
  GithubAppConfig, TenantConfig, binding_of, TenancyDocument, GithubAppRegistry, TenantRegistry,
  TenancyRegistry,
}
use jefferies.Tenancy.Validate.{
  TenancyError, not_found, parse, io, refuse_if, validate_app_entry, validate_tenant,
}

abbrev pub twice_app : GithubAppConfig → Str
twice_app app = bytes "Duplicate github_apps id: " ++ app.id

abbrev pub twice_slug : TenantConfig → Str
twice_slug tenant = bytes "Duplicate tenant slug: " ++ tenant.slug

abbrev pub twice_app_org : TenantConfig → Str
twice_app_org tenant =
    let binding = binding_of tenant.provider in
    bytes "Duplicate (github_app, org_name) pair: ("
    ++ binding.app_ref
    ++ bytes ", "
    ++ binding.org_name
    ++ bytes ") referenced by tenant '"
    ++ tenant.slug
    ++ bytes "'"

abbrev pub twice_connector : Str → Str → Str
twice_connector connector_id org_name =
    bytes "Duplicate (connector_id, org_name) pair: ("
    ++ connector_id
    ++ bytes ", "
    ++ org_name
    ++ bytes ") across tenants"

abbrev pub connector_key : TenantConfig → Str → Str × Str
connector_key tenant connector_id = (connector_id, (binding_of tenant.provider).org_name)

abbrev pub app_org_key : TenantConfig → Str × Str
app_org_key tenant = ((binding_of tenant.provider).app_ref, (binding_of tenant.provider).org_name)

unfoldable pub build_apps :
    List (Str × GithubAppConfig) → List GithubAppConfig → Result TenancyError GithubAppRegistry
unfolding validate_app_entry contains_key insert
build_apps m [] = ok (record { apps_by_id = m })
build_apps m (app ∷ apps) = do
  validate_app_entry app
  refuse_if (contains_key app.id m) (twice_app app)
  build_apps (insert app.id app m) apps

unfoldable pub add_connectors :
    TenantConfig
    → List Str
    → List ((Str × Str) × TenantConfig)
    → Result TenancyError (List ((Str × Str) × TenantConfig))
unfolding contains_key insert
add_connectors tenant [] m = ok m
add_connectors tenant (connector_id ∷ ids) m = do
  refuse_if (contains_key (connector_key tenant connector_id) m)
      (twice_connector connector_id (binding_of tenant.provider).org_name)
  add_connectors tenant ids (insert (connector_key tenant connector_id) tenant m)

abbrev pub added :
    TenantRegistry → TenantConfig → List ((Str × Str) × TenantConfig) → TenantRegistry
added registry tenant connectors = record {
  slugs = insert tenant.slug tenant registry.slugs;
  connectors_and_orgs = connectors;
  apps_and_orgs = insert (app_org_key tenant) tenant registry.apps_and_orgs;
}

-- One round of the loop over the tenants.
unfoldable pub add_tenant :
    GithubAppRegistry → TenantRegistry → TenantConfig → Result TenancyError TenantRegistry
unfolding validate_tenant contains_key insert add_connectors
add_tenant apps registry tenant = do
  validate_tenant tenant apps
  refuse_if (contains_key tenant.slug registry.slugs) (twice_slug tenant)
  refuse_if (contains_key (app_org_key tenant) registry.apps_and_orgs) (twice_app_org tenant)
  connectors ← add_connectors tenant tenant.connector_ids registry.connectors_and_orgs
  ok (added registry tenant connectors)

unfoldable pub build_tenants :
    GithubAppRegistry → TenantRegistry → List TenantConfig → Result TenancyError TenantRegistry
unfolding add_tenant
build_tenants apps registry [] = ok registry
build_tenants apps registry (tenant ∷ tenants) = do
  registry' ← add_tenant apps registry tenant
  build_tenants apps registry' tenants

unfoldable pub from_document : TenancyDocument → Result TenancyError TenancyRegistry
unfolding build_apps build_tenants
from_document document = do
  apps ← build_apps [] document.github_apps
  tenants ←
      build_tenants apps (record { slugs = []; connectors_and_orgs = []; apps_and_orgs = [] })
        document.tenants
  ok (record { apps = apps; tenants = tenants })

-- What a read may fail with.
pub data ReadError : Type 0 where
  no_such_file : ReadError
  other_error : Str → ReadError

module _ (var : Str → Option Str) (read_to_string : Str → Result ReadError Str)
    (from_str : Str → Result Str TenancyDocument) where
  abbrev read_file : Str → Result ReadError Str → Result TenancyError Str
  read_file path (ok text) = ok text
  read_file path (err no_such_file) = err (not_found path)
  read_file path (err (other_error source)) = err (io path source)

  abbrev parse_yaml : Result Str TenancyDocument → Result TenancyError TenancyDocument
  parse_yaml (ok document) = ok document
  parse_yaml (err text) = err (parse text)

  unfoldable pub load_from_path : Str → Result TenancyError TenancyRegistry
  unfolding from_document
  load_from_path path = do
    contents ← read_file path (read_to_string path)
    document ← parse_yaml (from_str contents)
    from_document document

  unfoldable pub load_from_env : Result TenancyError TenancyRegistry
  unfolding load_from_path
  load_from_env = load_from_path (
      unwrap_or (var (bytes "JEFFERIES__TENANCY__PATH"))
        (bytes "/etc/jefferies/tenancy/tenants.yaml"))
