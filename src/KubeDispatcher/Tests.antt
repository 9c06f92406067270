-- ===== src/KubeDispatcher/Tests.antt =====
-- The dispatcher on the nodes of a small pipeline (coordinator/src/kube_dispatcher.rs).
use jefferies.Prelude.{
  ℕ, zero, suc, ◌+◌, ◌*◌, ◌-◌, ◌^◌, ◌≡◌, refl, Str, bytes, true, none, List, [], ◌∷◌, length, all,
  any, is_ascii_alphanumeric, ltb, arith, if◌then◌else◌, Result, ok, err,
}
use jefferies.Pipelines.{NodeInfo}
use jefferies.Pipelines.Samples.{sample_pipeline, sample_node}
use jefferies.Pipelines.Merge.{node_info_of}
use jefferies.Pipelines.Names.{is_alnum, is_valid_dns1123_label}
use jefferies.Coordinator.State.{Config, RunMetadata}
use jefferies.KubeDispatcher.{sanitize_k8s_name, job_name, configmap_name}
use jefferies.KubeDispatcher.Labels.{job_name-label, configmap_name-label}
use jefferies.KubeDispatcher.Vault.{split_custom_path}
use jefferies.KubeDispatcher.Objects.{KubeDispatcher}
use jefferies.KubeDispatcher.Settings.{compute_safety_deadline_secs}
use jefferies.KubeDispatcher.Dispatch.{Call, create_job, Env, dispatch}
use jefferies.KubeDispatcher.Deadline.{both_timeouts, compute_safety_deadline_secs_exact}
use jefferies.KubeDispatcher.Rollback.{AllOrNothing, dispatch-AllOrNothing}

-- A digest of zeros, and an encoding that gives two letters for each byte.
abbrev zeros : ℕ → Str
zeros zero = []
zeros (suc n) = 0 ∷ zeros n

abbrev digest : Str → Str
digest s = zeros 32

abbrev hex_encode : Str → Str
hex_encode [] = []
hex_encode (c ∷ s) = b'a' ∷ b'0' ∷ hex_encode s

length-digest : (s : Str) → length (digest s) ≡ 32
length-digest s = refl

length-hex_encode : (s : Str) → length (hex_encode s) ≡ 2 * length s
length-hex_encode [] = refl
length-hex_encode (c ∷ s) = omega (arith, length-hex_encode s)

hex_encode_digits : (s : Str) → all is_alnum (hex_encode s) ≡ true
hex_encode_digits [] = refl
hex_encode_digits (c ∷ s) = rw (hex_encode_digits s) refl

abbrev node : NodeInfo
node = node_info_of sample_pipeline (sample_node (bytes "Build_All") [])

abbrev config : Config
config = record {
  default_pipeline_timeout_secs = 3600;
  default_node_timeout_secs = 600;
  default_node_startup_timeout_secs = 120;
  default_fail_fast = true;
}

abbrev self : KubeDispatcher
self = record {
  namespace = bytes "jobs";
  backend_namespace = bytes "jefferies";
  tube_image = bytes "tube";
  default_node_image = bytes "alpine";
  service_account_privileged = bytes "jefferies-jobs-sa";
  service_account_default = bytes "default";
  runtime_class = bytes "kata";
  default_cpu = bytes "1";
  default_memory = bytes "1Gi";
}

abbrev metadata : RunMetadata
metadata = record {
  owner = bytes "the-conn";
  repo = bytes "jefferies";
  sha = bytes "c0ffee";
  branch = none;
  target_branch = none;
  tag = none;
  pr_number = none;
  trigger = bytes "push";
}

-- The API server creates the config map and refuses the job.
abbrev answer : List Call → Result Str (Unit {0})
answer (create_job job ∷ t) = err (bytes "quota")
answer _ = ok tt

abbrev refusing : Env
refusing = record { url = λ t. ok (bytes "https://s3"); created = answer; cleaned = λ t. ok tt }

same_names : sanitize_k8s_name (bytes "Build_All") ≡ sanitize_k8s_name (bytes "build-all")
unfolding sanitize_k8s_name
same_names = refl

split_paths : split_custom_path (bytes "/etc/keys/id") ≡ (bytes "/etc/keys", bytes "id")
unfolding split_custom_path
split_paths = refl

job_name-label_example :
    is_valid_dns1123_label (job_name digest hex_encode (bytes "run-1") (bytes "__"))
    ≡ any is_ascii_alphanumeric (bytes "__")
job_name-label_example =
    job_name-label digest hex_encode length-digest length-hex_encode hex_encode_digits
      (bytes "run-1") (bytes "__")

configmap_name-label_example :
    is_valid_dns1123_label (configmap_name digest hex_encode (bytes "run-1") (bytes "Build_All"))
    ≡ true
configmap_name-label_example =
    configmap_name-label digest hex_encode length-digest length-hex_encode hex_encode_digits
      (bytes "run-1") (bytes "Build_All")

compute_safety_deadline_secs_exact_example : compute_safety_deadline_secs node config ≡ (
    if ltb (both_timeouts node config + 60) (2 ^ 63)
    then both_timeouts node config + 60
    else 2 ^ 63 - 1)
compute_safety_deadline_secs_exact_example = compute_safety_deadline_secs_exact node config

dispatch-AllOrNothing_example :
    AllOrNothing refusing
      (configmap_name digest hex_encode (bytes "run-1") (bytes "Build_All"))
      (configmap_name digest hex_encode (bytes "run-1") (bytes "Build_All"))
      (dispatch digest hex_encode refusing self (bytes "run-1") metadata node config [])
unfolding node_info_of
dispatch-AllOrNothing_example =
    dispatch-AllOrNothing refusing digest hex_encode self (bytes "run-1")
      (configmap_name digest hex_encode (bytes "run-1") (bytes "Build_All")) metadata node config
