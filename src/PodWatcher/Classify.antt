-- ===== src/PodWatcher/Classify.antt =====
-- What a pod says of its node (`classify_pod` of coordinator/src/pod_watcher.rs). Of the Kubernetes
-- objects, which are a library's, there are the fields that the code reads.
pub mod Running
use jefferies.Prelude.{
  ℕ, Str, str_inst, str_eq, bytes, Bool, true, false, ◌||◌, Option, none, some, List, [], ◌∷◌, ◌++◌,
  get, nat_beq, unwrap_or, show_i32, if◌then◌else◌,
}
use mathlib.Core.Option
use jefferies.PodWatcher.{
  InfraFailureReason, image_pull_failed, oom_killed, init_container_failed, container_create_error,
  container_terminated, PodSignal, pod_running, infra_failure,
}

pub record Waiting : Type 0 where
  pub reason : Option Str
  pub message : Option Str

pub record Terminated : Type 0 where
  pub exit_code : ℕ
  pub reason : Option Str
  pub message : Option Str

pub record ContainerState : Type 0 where
  pub waiting : Option Waiting
  pub terminated : Option Terminated
  pub running : Bool

pub record ContainerStatus : Type 0 where
  pub name : Str
  pub image : Str
  pub state : Option ContainerState

pub record PodStatus : Type 0 where
  pub init_container_statuses : Option (List ContainerStatus)
  pub container_statuses : Option (List ContainerStatus)

pub record Pod : Type 0 where
  pub annotations : Option (List (Str × Str))
  pub uid : Option Str
  pub status : Option PodStatus

unfoldable pub node_name_for : Pod → Option Str
unfolding get
node_name_for pod = Option.bind pod.annotations (get (bytes "the-conn.com/node-name"))

abbrev pub is_pull_error : Str → Bool
is_pull_error reason =
    str_eq reason (bytes "ImagePullBackOff") || str_eq reason (bytes "ErrImagePull")

abbrev pub is_create_error : Str → Bool
is_create_error reason =
    str_eq reason (bytes "CreateContainerConfigError")
    || str_eq reason (bytes "CreateContainerError")

-- `return` out of a chain of tests: the first result counts.
abbrev pub or_later {ℓ} : {A : Type ℓ} → Option A → Option A → Option A
or_later none later = later
or_later (some a) later = some a

abbrev pub init_waiting : Str → Option Waiting → Option InfraFailureReason
init_waiting name none = none
init_waiting name (some w) =
    let reason = unwrap_or w.reason [] in
    if is_pull_error reason
    then some (init_container_failed name (reason ++ bytes ": " ++ unwrap_or w.message []))
    else none

abbrev pub init_terminated : Str → Option Terminated → Option InfraFailureReason
init_terminated name none = none
init_terminated name (some t) =
    if nat_beq t.exit_code 0
    then none
    else some (
        init_container_failed name
          (bytes "exit code " ++ show_i32 t.exit_code ++ bytes ": " ++ unwrap_or t.message []))

-- A container without a state ends the search.
abbrev pub init_state :
    Str → Option ContainerState → Option InfraFailureReason → Option InfraFailureReason
init_state name none later = none
init_state name (some st) later =
    or_later (init_waiting name st.waiting) (or_later (init_terminated name st.terminated) later)

unfoldable pub init_failure : List ContainerStatus → Option InfraFailureReason
unfolding str_eq show_i32
init_failure [] = none
init_failure (cs ∷ rest) = init_state cs.name cs.state (init_failure rest)

unfoldable pub classify_init_container_statuses : PodStatus → Option InfraFailureReason
unfolding init_failure
classify_init_container_statuses status = Option.bind status.init_container_statuses init_failure

module _ (node_name pod_uid : Str) where
  abbrev fails : InfraFailureReason → Option PodSignal
  fails reason = some (infra_failure node_name pod_uid reason)

  abbrev pub main_waiting : Str → Option Waiting → Option PodSignal
  main_waiting image none = none
  main_waiting image (some w) =
      let reason = unwrap_or w.reason [] in
      let message = unwrap_or w.message [] in
      if is_pull_error reason
      then fails (image_pull_failed image message)
      else if is_create_error reason
      then fails (container_create_error (reason ++ bytes ": " ++ message))
      else none

  -- `terminated.reason.as_deref() == Some("OOMKilled")`
  abbrev pub is_oom : Option Str → Bool
  is_oom none = false
  is_oom (some reason) = str_eq reason (bytes "OOMKilled")

  abbrev pub main_terminated : Option Terminated → Option PodSignal
  main_terminated none = none
  main_terminated (some t) =
      if is_oom t.reason
      then fails oom_killed
      else if nat_beq t.exit_code 0
      then none
      else fails (container_terminated t.exit_code (unwrap_or t.reason []) (unwrap_or t.message []))

  abbrev pub main_running : Bool → Option PodSignal
  main_running true = some (pod_running node_name pod_uid)
  main_running false = none

  abbrev pub main_state : Str → Option ContainerState → Option PodSignal → Option PodSignal
  main_state image none later = none
  main_state image (some st) later =
      or_later (main_waiting image st.waiting)
        (or_later (main_terminated st.terminated) (or_later (main_running st.running) later))

  unfoldable pub main_signal : List ContainerStatus → Option PodSignal
  unfolding str_eq
  main_signal [] = none
  main_signal (cs ∷ rest) = main_state cs.image cs.state (main_signal rest)

  unfoldable pub classify_main_container_statuses : PodStatus → Option PodSignal
  unfolding main_signal
  classify_main_container_statuses status = Option.bind status.container_statuses main_signal

abbrev pub classified : Str → Str → PodStatus → Option InfraFailureReason → Option PodSignal
classified node_name pod_uid status (some reason) = some (infra_failure node_name pod_uid reason)
classified node_name pod_uid status none = classify_main_container_statuses node_name pod_uid status

unfoldable pub classify_pod : Pod → Option PodSignal
unfolding node_name_for classify_init_container_statuses classify_main_container_statuses
classify_pod pod = Option.bind (node_name_for pod) λ node_name. Option.bind pod.uid λ pod_uid.
    Option.bind pod.status
      λ status. classified node_name pod_uid status (classify_init_container_statuses status)
