-- ===== src/KubeDispatcher/Job.antt =====
-- The job of a node (`build_job` and `append_user_volumes` of coordinator/src/kube_dispatcher.rs).
use jefferies.Prelude.{
  ℕ, Str, bytes, true, Option, none, some, List, [], ◌∷◌, ◌++◌, map, str_inst, get, keys, is_empty,
  unwrap_or, if◌then◌else◌,
}
use jefferies.Pipelines.{NodeInfo}
use jefferies.Pipelines.Merge.{str_lt}
use jefferies.KubeDispatcher.{job_name}
use jefferies.KubeDispatcher.Vault.{Annotations}
use jefferies.KubeDispatcher.Objects.{
  KubeDispatcher, EnvVar, VolumeMount, empty_dir, config_map, Volume, Resources, Job,
}

-- `names.sort()`
unfoldable pub sort_insert : Str → List Str → List Str
unfolding str_lt
sort_insert name [] = name ∷ []
sort_insert name (x ∷ xs) =
    let rest = sort_insert name xs in if str_lt x name then x ∷ rest else name ∷ x ∷ xs

unfoldable pub sort : List Str → List Str
unfolding sort_insert
sort [] = []
sort (x ∷ xs) = sort_insert x (sort xs)

unfoldable pub append_user_volumes :
    List (Str × Str) → List VolumeMount → List Volume → List VolumeMount × List Volume
unfolding sort get
append_user_volumes user_volumes mounts volumes =
    let names = sort (keys user_volumes) in
    (
      mounts
          ++ map
              (λ name. record {
                name = name;
                mount_path = unwrap_or (get name user_volumes) [];
                sub_path = none;
              })
              names,
      volumes ++ map (λ name. record { name = name; source = empty_dir none none }) names,
    )

pub record JobContext : Type 0 where
  pub run_id : Str
  pub node_name : Str
  pub cm_name : Str
  pub labels : Annotations
  pub annotations : Annotations
  pub env_vars : List EnvVar
  pub safety_deadline_secs : ℕ

abbrev mount : Str → Str → VolumeMount
mount name path = record { name = name; mount_path = path; sub_path = none }

abbrev base_mounts : List VolumeMount
base_mounts =
    mount (bytes "tube-bin") (bytes "/shared")
    ∷ mount (bytes "workspace") (bytes "/workspace")
    ∷ (record {
      name = bytes "user-script";
      mount_path = bytes "/etc/conn/script.sh";
      sub_path = some (bytes "script.sh");
    })
    ∷ []

abbrev base_volumes : Str → List Volume
base_volumes cm_name =
    (record { name = bytes "tube-bin"; source = empty_dir none none })
    ∷ (record { name = bytes "workspace"; source = empty_dir none none })
    ∷ (record { name = bytes "user-script"; source = config_map cm_name 493 })
    ∷ []

abbrev cache_mounts : Option Str → List VolumeMount
cache_mounts none = []
cache_mounts (some size) = mount (bytes "cache") (bytes "/tmp/cache") ∷ []

abbrev cache_volumes : Option Str → List Volume
cache_volumes none = []
cache_volumes (some size) =
    (record { name = bytes "cache"; source = empty_dir (some (bytes "Memory")) (some size) }) ∷ []

-- The same limits as requests.
abbrev pub resource_requirements : Str → Str → Resources
resource_requirements cpu memory =
    let limits = (bytes "cpu", cpu) ∷ (bytes "memory", memory) ∷ [] in
    record { requests = limits; limits = limits }

module _ (digest hex_encode : Str → Str) where
  unfoldable pub build_job : KubeDispatcher → JobContext → NodeInfo → Job
  unfolding job_name append_user_volumes
  build_job self ctx node =
      let (mounts, volumes) =
        append_user_volumes node.volumes (base_mounts ++ cache_mounts node.cache_size)
          (base_volumes ctx.cm_name ++ cache_volumes node.cache_size) in
      record {
        name = job_name digest hex_encode ctx.run_id ctx.node_name;
        namespace = self.namespace;
        labels = ctx.labels;
        annotations = ctx.annotations;
        active_deadline_seconds = ctx.safety_deadline_secs;
        backoff_limit = 0;
        restart_policy = bytes "Never";
        runtime_class_name = if node.privileged then some self.runtime_class else none;
        service_account_name =
            if node.privileged
            then self.service_account_privileged
            else self.service_account_default;
        init_containers =
            (record {
              name = bytes "tube-init";
              image = self.tube_image;
              command = bytes "cp" ∷ bytes "/usr/local/bin/tube" ∷ bytes "/shared/tube" ∷ [];
              args = none;
              env = [];
              resources = none;
              privileged = none;
              volume_mounts = mount (bytes "tube-bin") (bytes "/shared") ∷ [];
            })
            ∷ [];
        containers =
            (record {
              name = bytes "tube";
              image = if is_empty node.image then self.default_node_image else node.image;
              command = bytes "/shared/tube" ∷ [];
              args = some [];
              env = ctx.env_vars;
              resources = some (
                  resource_requirements (unwrap_or node.cpu self.default_cpu)
                    (unwrap_or node.memory self.default_memory));
              privileged = if node.privileged then some true else none;
              volume_mounts = mounts;
            })
            ∷ [];
        volumes = volumes;
      }
