-- ===== src/Pipelines/Validate.antt =====
-- The checks of a pipeline document and `from_yaml` (pipelines/src/pipeline.rs). The parser
-- (serde_saphyr) is a parameter.
use jefferies.Prelude.{
  Str, bytes, not, Option, none, some, List, [], ◌∷◌, map, any, str_eq, str_inst, contains,
  starts_with, if◌then◌else◌, is_empty, Result, ok, err, ◌>>◌,
}
use jefferies.Pipelines.{Pipeline, FileSecretSpec}
use jefferies.Pipelines.Names.{
  SecretReason, is_valid_dns1123_label, is_reserved_path, secret_name_violation,
  file_secret_path_violation,
}
use jefferies.Pipelines.Quantity.{is_valid_quantity}
use jefferies.Pipelines.Merge.{merge_env_secrets, merge_file_secrets}

-- One constructor for each text.
pub data VolumeReason : Type 0 where
  name_not_label name_reserved path_relative path_reserved path_taken : VolumeReason

pub data PipelineError : Type 0 where
  yaml_parse_error : Str → PipelineError
  unknown_dependency : Str → Str → PipelineError
  self_dependency : Str → PipelineError
  empty_steps : Str → PipelineError
  invalid_quantity : Str → Str → Str → PipelineError
  invalid_volume : Str → Str → VolumeReason → PipelineError
  invalid_secret : Str → Str → SecretReason → PipelineError

abbrev Check : Type 0
Check = Result PipelineError (Unit {0})

-- A `for` loop whose body may return an error.
unfoldable pub for_each {ℓ} : {A : Type ℓ} → (A → Check) → List A → Check
for_each body [] = ok tt
for_each body (x ∷ xs) = let rest = for_each body xs in body x >> rest

unfoldable pub check_dependency : List Str → Str → Str → Check
unfolding str_eq contains
check_dependency node_names name dep =
    if str_eq dep name
    then err (self_dependency name)
    else if not (contains node_names dep)
    then err (unknown_dependency name dep)
    else ok tt

unfoldable pub validate_dependencies : Pipeline → Check
unfolding for_each check_dependency
validate_dependencies p =
    let node_names = map (λ n. n.name) p.nodes in
    for_each (λ node. for_each (check_dependency node_names node.name) node.after) p.nodes

unfoldable pub validate_steps_present : Pipeline → Check
unfolding for_each
validate_steps_present p =
    for_each (λ node. if is_empty node.steps then err (empty_steps node.name) else ok tt) p.nodes

unfoldable pub check_quantity : Str → Str × Option Str → Check
unfolding is_valid_quantity
check_quantity node (field, none) = ok tt
check_quantity node (field, some v) =
    if not (is_valid_quantity v) then err (invalid_quantity node field v) else ok tt

unfoldable pub validate_quantities : Pipeline → Check
unfolding for_each check_quantity
validate_quantities p =
    for_each
      (λ node. for_each (check_quantity node.name) (
        (bytes "cpu", node.cpu)
        ∷ (bytes "memory", node.memory)
        ∷ (bytes "cache_size", node.cache_size)
        ∷ []))
      p.nodes

abbrev pub reserved_volume_names : List Str
reserved_volume_names =
    bytes "tube-bin" ∷ bytes "workspace" ∷ bytes "user-script" ∷ bytes "cache" ∷ []

abbrev pub reserved_mount_paths : List Str
reserved_mount_paths =
    bytes "/shared" ∷ bytes "/workspace" ∷ bytes "/etc/conn" ∷ bytes "/tmp/cache" ∷ []

-- The checks of one volume, with the paths seen before it.
unfoldable pub check_volume : List Str → Str → Str → Str → Check
unfolding is_valid_dns1123_label is_reserved_path contains
check_volume seen_paths node name mount_path =
    if not (is_valid_dns1123_label name)
    then err (invalid_volume node name name_not_label)
    else if contains reserved_volume_names name
    then err (invalid_volume node name name_reserved)
    else if not (starts_with mount_path (bytes "/"))
    then err (invalid_volume node name path_relative)
    else if any (is_reserved_path mount_path) reserved_mount_paths
    then err (invalid_volume node name path_reserved)
    else if contains seen_paths mount_path
    then err (invalid_volume node name path_taken)
    else ok tt

unfoldable pub check_volumes : List Str → Str → List (Str × Str) → Check
unfolding check_volume
check_volumes seen_paths node [] = ok tt
check_volumes seen_paths node ((name, mount_path) ∷ volumes) =
    let rest = check_volumes (mount_path ∷ seen_paths) node volumes in
    check_volume seen_paths node name mount_path >> rest

unfoldable pub validate_volumes : Pipeline → Check
unfolding for_each check_volumes
validate_volumes p = for_each (λ node. check_volumes [] node.name node.volumes) p.nodes

abbrev pub no_violation : Option SecretReason → Str → Str → Check
no_violation none node name = ok tt
no_violation (some reason) node name = err (invalid_secret node name reason)

abbrev path_violation : Option Str → Option SecretReason
path_violation none = none
path_violation (some path) = file_secret_path_violation path

unfoldable pub check_file_secret : Str → FileSecretSpec → Check
unfolding secret_name_violation file_secret_path_violation
check_file_secret node spec =
    no_violation (secret_name_violation spec.name) node spec.name
    >> no_violation (path_violation spec.path) node spec.name

unfoldable pub validate_secrets : Pipeline → Check
unfolding for_each check_file_secret merge_env_secrets merge_file_secrets
validate_secrets p =
    for_each
      (λ node.
        for_each (λ name. no_violation (secret_name_violation name) node.name name)
          (merge_env_secrets p.secrets.env node.secrets.env)
        >> for_each (check_file_secret node.name)
            (merge_file_secrets p.secrets.files node.secrets.files))
      p.nodes

module _ (parse : Str → Result Str Pipeline) where
  abbrev pub validated : Result Str Pipeline → Result PipelineError Pipeline
  validated (err e) = err (yaml_parse_error e)
  validated (ok pipeline) = do
    validate_dependencies pipeline
    validate_steps_present pipeline
    validate_quantities pipeline
    validate_volumes pipeline
    validate_secrets pipeline
    ok pipeline

  unfoldable pub from_yaml : Str → Result PipelineError Pipeline
  unfolding validate_dependencies validate_steps_present validate_quantities validate_volumes
      validate_secrets
  from_yaml yaml = validated (parse yaml)
