-- ===== src/Pipelines/Merge.antt =====
-- The nodes as the coordinator sees them, with the secrets of the pipeline and of the node merged,
-- and the triggers (pipelines/src/pipeline.rs). A B-tree map is a list that is sorted by its keys.
use mathlib.Core.Option
use jefferies.Prelude.{
  Str, Bool, true, false, ◌&&◌, ◌||◌, Option, none, some, List, [], ◌∷◌, ◌++◌, map, any, ltb,
  nat_beq, str_eq, insert, str_inst, unwrap_or, if◌then◌else◌, is_empty,
}
use jefferies.Pipelines.{
  Pipeline, PipelineNode, PipelineStep, inline, named, NodeInfo, FileSecret, FileSecretSpec,
  file_secret_name, file_secret_path, Refs,
}

-- The order of texts: byte by byte.
unfoldable pub str_lt : Str → Str → Bool
str_lt s [] = false
str_lt [] (y ∷ ys) = true
str_lt (x ∷ xs) (y ∷ ys) = ltb x y || (nat_beq x y && str_lt xs ys)

-- `BTreeMap::insert`
unfoldable pub btree_insert {ℓ} : {V : Type ℓ} → Str → V → List (Str × V) → List (Str × V)
unfolding str_lt str_eq
btree_insert k v [] = (k, v) ∷ []
btree_insert k v ((j, w) ∷ m) =
    let rest = btree_insert k v m in
    if str_eq k j then (k, v) ∷ m else if str_lt k j then (k, v) ∷ (j, w) ∷ m else (j, w) ∷ rest

-- `BTreeSet::insert`, which keeps what is there
unfoldable pub btree_add : Str → List Str → List Str
unfolding str_lt str_eq
btree_add k [] = k ∷ []
btree_add k (j ∷ s) =
    let rest = btree_add k s in
    if str_eq k j then j ∷ s else if str_lt k j then k ∷ j ∷ s else j ∷ rest

unfoldable pub btree_extend : List Str → List Str → List Str
unfolding btree_add
btree_extend s [] = s
btree_extend s (x ∷ xs) = btree_extend (btree_add x s) xs

unfoldable pub merge_env_secrets : List Str → List Str → List Str
unfolding btree_extend
merge_env_secrets pipeline_env node_env = btree_extend (btree_extend [] pipeline_env) node_env

unfoldable pub merge_files_into :
    List (Str × FileSecretSpec) → List FileSecret → List (Str × FileSecretSpec)
unfolding btree_insert
merge_files_into by_name [] = by_name
merge_files_into by_name (file ∷ files) =
    merge_files_into
      (btree_insert (file_secret_name file)
        (record { name = file_secret_name file; path = file_secret_path file }) by_name)
      files

unfoldable pub merge_file_secrets : List FileSecret → List FileSecret → List FileSecretSpec
unfolding merge_files_into
merge_file_secrets pipeline_files node_files =
    map (λ e. e.1) (merge_files_into [] (pipeline_files ++ node_files))

abbrev step_command : PipelineStep → Str
step_command (inline cmd) = cmd
step_command (named ns) = ns.run

-- `env.extend(n.env)`
unfoldable pub extend_env : List (Str × Str) → List (Str × Str) → List (Str × Str)
unfolding insert
extend_env env [] = env
extend_env env ((k, v) ∷ more) = extend_env (insert k v env) more

unfoldable pub node_info_of : Pipeline → PipelineNode → NodeInfo
unfolding extend_env merge_env_secrets merge_file_secrets
node_info_of p n = record {
  name = n.name;
  image = unwrap_or n.image [];
  steps = map step_command n.steps;
  dependencies = n.after;
  timeout_secs = n.timeout_secs;
  startup_timeout_secs = n.startup_timeout_secs;
  checkout = unwrap_or n.checkout false;
  env = extend_env p.env n.env;
  env_secrets = merge_env_secrets p.secrets.env n.secrets.env;
  file_secrets = merge_file_secrets p.secrets.files n.secrets.files;
  privileged = n.privileged;
  cache_size = n.cache_size;
  cpu = n.cpu;
  memory = n.memory;
  volumes = n.volumes;
}

unfoldable pub node_info : Pipeline → List NodeInfo
unfolding node_info_of
node_info p = map (node_info_of p) p.nodes

unfoldable pub ref_filter_matches : List Str → Str → Bool
unfolding str_eq
ref_filter_matches allowed candidate = is_empty allowed || any (λ a. str_eq a candidate) allowed

abbrev allows : Option (List Str) → Str → Bool
allows none candidate = false
allows (some allowed) candidate = ref_filter_matches allowed candidate

abbrev match_ref : Refs → Option Str → Option Str → Bool
match_ref refs (some b) tag = allows refs.branches b
match_ref refs none (some t) = allows refs.tags t
match_ref refs none none = false

abbrev is_none {ℓ} : {A : Type ℓ} → Option A → Bool
is_none none = true
is_none (some a) = false

unfoldable pub refs_match_push : Refs → Option Str → Option Str → Bool
unfolding ref_filter_matches
refs_match_push refs branch tag =
    if is_none refs.branches && is_none refs.tags then true else match_ref refs branch tag

unfoldable pub refs_match_branch_filter : Option (List Str) → Str → Bool
unfolding ref_filter_matches
refs_match_branch_filter none branch = true
refs_match_branch_filter (some allowed) branch = ref_filter_matches allowed branch

unfoldable pub triggered_by_push : Pipeline → Option Str → Option Str → Bool
unfolding refs_match_push
triggered_by_push p branch tag =
    unwrap_or
      (Option.map (λ refs. refs_match_push refs branch tag) (Option.bind p.on (λ t. t.push))) false

unfoldable pub triggered_by_pull_request : Pipeline → Str → Bool
unfolding refs_match_branch_filter
triggered_by_pull_request p branch =
    unwrap_or
      (Option.map (λ refs. refs_match_branch_filter refs.branches branch)
        (Option.bind p.on (λ t. t.pull_request)))
      false
