-- ===== src/KubeDispatcher/Settings.antt =====
-- The labels, texts, environment and deadline of the job of a node (coordinator/src/kube_dispatcher.rs).
use jefferies.Prelude.{
  ℕ, ◌+◌, ◌-◌, ◌^◌, Str, bytes, show_nat, Option, none, some, List, [], ◌∷◌, ◌++◌, str_inst,
  unwrap_or, ltb, if◌then◌else◌,
}
use jefferies.Pipelines.{NodeInfo}
use jefferies.Coordinator.State.{Config, RunMetadata}
use jefferies.KubeDispatcher.Vault.{Annotations, vault_secrets_mount_path, vault_env_subdir}
use jefferies.KubeDispatcher.Objects.{EnvVar}

unfoldable pub run_labels : Str → Annotations
run_labels run_id =
    (bytes "the-conn.com/managed-by", bytes "jefferies")
    ∷ (bytes "the-conn.com/run-id", run_id)
    ∷ []

unfoldable pub node_annotations : Str → Annotations
node_annotations node_name = (bytes "the-conn.com/node-name", node_name) ∷ []

abbrev script_lines : List Str → Str
script_lines [] = []
script_lines (step ∷ steps) = step ++ bytes "\n" ++ script_lines steps

unfoldable pub build_script : List Str → Str
build_script steps = bytes "#!/bin/bash\nset -euxo pipefail\n" ++ script_lines steps

unfoldable pub poke_url_for : Str → Str → Str → Str
poke_url_for backend_namespace run_id node_name =
    bytes "http://jefferies."
    ++ backend_namespace
    ++ bytes ".svc.cluster.local./api/v1/runs/"
    ++ run_id
    ++ bytes "/nodes/"
    ++ node_name
    ++ bytes "/poke"

unfoldable pub build_env_vars : Str → Str → Str → Str → Str → Str → List EnvVar
build_env_vars run_id node_name status_put_url logs_put_url get_url poke_url =
    (bytes "TUBE__EXECUTION__USER_SCRIPT_PATH", bytes "/etc/conn/script.sh")
    ∷ (bytes "TUBE__EXECUTION__RUN_ID", run_id)
    ∷ (bytes "TUBE__EXECUTION__NODE_NAME", node_name)
    ∷ (bytes "TUBE__EXECUTION__STATUS_PUT_URL", status_put_url)
    ∷ (bytes "TUBE__EXECUTION__LOGS_PUT_URL", logs_put_url)
    ∷ (bytes "TUBE__EXECUTION__POKE_URL", poke_url)
    ∷ (bytes "TUBE__EXECUTION__LOG_LEVEL", bytes "info")
    ∷ (bytes "TUBE__LOG__LEVEL", bytes "warn")
    ∷ (bytes "TUBE__WORKSPACE__GET_URL", get_url)
    ∷ (bytes "TUBE__WORKSPACE__DIR", bytes "/workspace")
    ∷ (bytes "TUBE__SECRETS__DIR", vault_secrets_mount_path ++ bytes "/" ++ vault_env_subdir)
    ∷ []

-- `i64::to_string`, of a bit pattern
abbrev show_i64 : ℕ → Str
show_i64 n = if ltb n (2 ^ 63) then show_nat n else bytes "-" ++ show_nat (2 ^ 64 - n)

abbrev pr_text : Option ℕ → Str
pr_text none = []
pr_text (some n) = show_i64 n

unfoldable pub jefferies_env_vars : Str → RunMetadata → List EnvVar
unfolding show_nat
jefferies_env_vars run_id metadata =
    (bytes "JEFFERIES_RUN_ID", run_id)
    ∷ (bytes "JEFFERIES_TRIGGER", metadata.trigger)
    ∷ (bytes "JEFFERIES_OWNER", metadata.owner)
    ∷ (bytes "JEFFERIES_REPO", metadata.repo)
    ∷ (bytes "JEFFERIES_SHA", metadata.sha)
    ∷ (bytes "JEFFERIES_BRANCH", unwrap_or metadata.branch [])
    ∷ (bytes "JEFFERIES_TARGET_BRANCH", unwrap_or metadata.target_branch [])
    ∷ (bytes "JEFFERIES_TAG", unwrap_or metadata.tag [])
    ∷ (bytes "JEFFERIES_PR_NUMBER", pr_text metadata.pr_number)
    ∷ []

-- `u64::saturating_add`, and `try_into().unwrap_or(i64::MAX)`
abbrev pub saturating_add : ℕ → ℕ → ℕ
saturating_add a b = if ltb (a + b) (2 ^ 64) then a + b else 2 ^ 64 - 1

abbrev pub to_i64 : ℕ → ℕ
to_i64 n = if ltb n (2 ^ 63) then n else 2 ^ 63 - 1

abbrev safety_deadline_buffer_secs : ℕ
safety_deadline_buffer_secs = 60

unfoldable pub compute_safety_deadline_secs : NodeInfo → Config → ℕ
compute_safety_deadline_secs node config =
    let run_secs = unwrap_or node.timeout_secs config.default_node_timeout_secs in
    let start_secs = unwrap_or node.startup_timeout_secs config.default_node_startup_timeout_secs in
    to_i64 (saturating_add (saturating_add start_secs run_secs) safety_deadline_buffer_secs)
