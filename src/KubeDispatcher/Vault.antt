-- ===== src/KubeDispatcher/Vault.antt =====
-- The annotations for the injection of secrets (`vault_annotations` and what it calls in
-- coordinator/src/kube_dispatcher.rs).
use jefferies.Prelude.{
  Str, bytes, ◌&&◌, Option, none, some, List, [], ◌∷◌, ◌++◌, is_empty, nat_beq, if◌then◌else◌,
}
use jefferies.Pipelines.{FileSecretSpec}
use jefferies.Pipelines.Merge.{btree_insert}

abbrev pub vault_secrets_mount_path : Str
vault_secrets_mount_path = bytes "/etc/tube/secrets"

abbrev pub vault_env_subdir : Str
vault_env_subdir = bytes "env"

abbrev pub vault_files_subdir : Str
vault_files_subdir = bytes "files"

abbrev repo_slug : Str → Str → Str
repo_slug owner repo = owner ++ bytes "__" ++ repo

abbrev vault_secret_path : Str → Str → Str
vault_secret_path owner repo = bytes "secret/data/" ++ repo_slug owner repo

abbrev vault_role : Str → Str → Str
vault_role owner repo = repo_slug owner repo

abbrev vault_template : Str → Str → Str → Str
vault_template owner repo key =
    bytes "{{- with secret \""
    ++ vault_secret_path owner repo
    ++ bytes "\" -}}\n  {{ index .Data.data \""
    ++ key
    ++ bytes "\" }}\n{{- end -}}"

-- `s.rsplit_once('/')`
abbrev later_split : Option (Str × Str) → Option (Str × Str) → Option (Str × Str)
later_split none here = here
later_split (some split) here = some split

abbrev in_front : Option (Str × Str) → Str → Option (Str × Str)
in_front none front = none
in_front (some (dir, base)) front = some (front ++ dir, base)

unfoldable pub rsplit_slash : Str → Option (Str × Str)
rsplit_slash [] = none
rsplit_slash (c ∷ s) =
    let rest = rsplit_slash s in
    later_split (in_front rest (c ∷ [])) (if nat_beq c b'/' then some ([], s) else none)

abbrev split_of : Str → Option (Str × Str) → Str × Str
split_of path none = ([], path)
split_of path (some (dir, base)) = (if is_empty dir then bytes "/" else dir, base)

unfoldable pub split_custom_path : Str → Str × Str
unfolding rsplit_slash
split_custom_path path = split_of path (rsplit_slash path)

abbrev pub Annotations : Type 0
Annotations = List (Str × Str)

module _ (owner repo : Str) where
  -- The path and the template of one secret.
  abbrev inject : Str → Str → Annotations → Annotations
  inject id key out =
      btree_insert (bytes "vault.hashicorp.com/agent-inject-template-" ++ id)
        (vault_template owner repo key)
        (btree_insert (bytes "vault.hashicorp.com/agent-inject-secret-" ++ id)
          (vault_secret_path owner repo) out)

  unfoldable pub env_annotations : List Str → Annotations → Annotations
  unfolding btree_insert
  env_annotations [] out = out
  env_annotations (key ∷ keys) out =
      let id = bytes "env-" ++ key in
      env_annotations keys (
        btree_insert (bytes "vault.hashicorp.com/agent-inject-file-" ++ id)
          (vault_env_subdir ++ bytes "/" ++ key) (inject id key out))

  abbrev file_annotation : Str → Str → Option Str → Annotations → Annotations
  file_annotation id name none out =
      btree_insert (bytes "vault.hashicorp.com/agent-inject-file-" ++ id)
        (vault_files_subdir ++ bytes "/" ++ name) out
  file_annotation id name (some custom) out =
      let (dir, basename) = split_custom_path custom in
      btree_insert (bytes "vault.hashicorp.com/agent-inject-file-" ++ id) basename
        (btree_insert (bytes "vault.hashicorp.com/secret-volume-path-" ++ id) dir out)

  unfoldable pub file_annotations : List FileSecretSpec → Annotations → Annotations
  unfolding btree_insert split_custom_path
  file_annotations [] out = out
  file_annotations (spec ∷ specs) out =
      let id = bytes "f-" ++ spec.name in
      file_annotations specs (file_annotation id spec.name spec.path (inject id spec.name out))

  abbrev global_annotations : Annotations
  global_annotations = btree_insert (bytes "vault.hashicorp.com/role") (vault_role owner repo) (
      btree_insert (bytes "vault.hashicorp.com/secret-volume-path") vault_secrets_mount_path (
        btree_insert (bytes "vault.hashicorp.com/agent-pre-populate-only") (bytes "true")
          (btree_insert (bytes "vault.hashicorp.com/agent-inject") (bytes "true") [])))

  unfoldable pub vault_annotations : List Str → List FileSecretSpec → Annotations
  unfolding btree_insert env_annotations file_annotations
  vault_annotations env_secrets file_secrets =
      if is_empty env_secrets && is_empty file_secrets
      then []
      else file_annotations file_secrets (env_annotations env_secrets global_annotations)

-- `BTreeMap::extend`
unfoldable pub extend : Annotations → Annotations → Annotations
unfolding btree_insert
extend m [] = m
extend m ((k, v) ∷ more) = extend (btree_insert k v m) more
