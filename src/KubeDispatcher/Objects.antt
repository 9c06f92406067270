-- ===== src/KubeDispatcher/Objects.antt =====
-- The dispatcher's settings and the Kubernetes objects that it makes, with the fields that the code
-- sets (coordinator/src/kube_dispatcher.rs). The labels and annotations of a job are its pod's too.
use jefferies.Prelude.{ℕ, Str, Bool, Option, List}
use jefferies.KubeDispatcher.Vault.{Annotations}

-- The settings that the dispatcher keeps.
pub record KubeDispatcher : Type 0 where
  pub namespace : Str
  pub backend_namespace : Str
  pub tube_image : Str
  pub default_node_image : Str
  pub service_account_privileged : Str
  pub service_account_default : Str
  pub runtime_class : Str
  pub default_cpu : Str
  pub default_memory : Str

-- An `EnvVar` with its name and its value.
abbrev pub EnvVar : Type 0
EnvVar = Str × Str

pub record VolumeMount : Type 0 where
  pub name : Str
  pub mount_path : Str
  pub sub_path : Option Str

pub data VolumeSource : Type 0 where
  empty_dir : Option Str → Option Str → VolumeSource
  config_map : Str → ℕ → VolumeSource

pub record Volume : Type 0 where
  pub name : Str
  pub source : VolumeSource

-- A `ResourceRequirements`.
pub record Resources : Type 0 where
  pub requests : List (Str × Str)
  pub limits : List (Str × Str)

pub record Container : Type 0 where
  pub name : Str
  pub image : Str
  pub command : List Str
  pub args : Option (List Str)
  pub env : List EnvVar
  pub resources : Option Resources
  pub privileged : Option Bool
  pub volume_mounts : List VolumeMount

pub record Job : Type 0 where
  pub name : Str
  pub namespace : Str
  pub labels : Annotations
  pub annotations : Annotations
  pub active_deadline_seconds : ℕ
  pub backoff_limit : ℕ
  pub restart_policy : Str
  pub runtime_class_name : Option Str
  pub service_account_name : Str
  pub init_containers : List Container
  pub containers : List Container
  pub volumes : List Volume
