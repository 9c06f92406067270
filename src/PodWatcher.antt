-- ===== src/PodWatcher.antt =====
-- Infrastructure failures, the signals of the pod watcher and the commands to it
-- (coordinator/src/pod_watcher.rs). An exit code is the 32-bit pattern of the `i32`.
pub mod Messages
pub mod Classify
pub mod Watch
mod Tests
use jefferies.Prelude.{ℕ, Str, bytes}

pub data InfraFailureReason : Type 0 where
  image_pull_failed : Str → Str → InfraFailureReason
  oom_killed : InfraFailureReason
  init_container_failed : Str → Str → InfraFailureReason
  container_create_error : Str → InfraFailureReason
  container_terminated : ℕ → Str → Str → InfraFailureReason
  pod_start_timeout : InfraFailureReason
  pod_deleted_unexpectedly : InfraFailureReason
  node_lost : InfraFailureReason
  dispatch_failed : Str → InfraFailureReason

unfoldable pub stable_code : InfraFailureReason → Str
stable_code (image_pull_failed image message) = bytes "ImagePullFailed"
stable_code oom_killed = bytes "OOMKilled"
stable_code (init_container_failed name message) = bytes "InitContainerFailed"
stable_code (container_create_error message) = bytes "ContainerCreateError"
stable_code (container_terminated exit_code reason message) = bytes "ContainerTerminated"
stable_code pod_start_timeout = bytes "PodStartTimeout"
stable_code pod_deleted_unexpectedly = bytes "PodDeletedUnexpectedly"
stable_code node_lost = bytes "NodeLost"
stable_code (dispatch_failed message) = bytes "DispatchFailed"

pub data PodSignal : Type 0 where
  pod_running : Str → Str → PodSignal
  infra_failure : Str → Str → InfraFailureReason → PodSignal

pub data WatcherCommand : Type 0 where
  expect_deletion : Str → WatcherCommand
  shutdown : WatcherCommand

-- `PodSignal::node_name` and `PodSignal::pod_uid`
abbrev pub signal_node_name : PodSignal → Str
signal_node_name (pod_running node_name pod_uid) = node_name
signal_node_name (infra_failure node_name pod_uid reason) = node_name

abbrev pub signal_pod_uid : PodSignal → Str
signal_pod_uid (pod_running node_name pod_uid) = pod_uid
signal_pod_uid (infra_failure node_name pod_uid reason) = pod_uid
