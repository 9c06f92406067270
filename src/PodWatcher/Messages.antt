-- ===== src/PodWatcher/Messages.antt =====
-- The texts of an infrastructure failure (`full_message`, `user_message` and
-- `user_message_from_code` of coordinator/src/pod_watcher.rs).
use jefferies.Prelude.{
  Str, str_eq, bytes, Option, none, some, [], ◌++◌, is_empty, show_i32, is_some, ◌≡◌, refl,
  if◌then◌else◌,
}
use jefferies.PodWatcher.{
  InfraFailureReason, image_pull_failed, oom_killed, init_container_failed, container_create_error,
  container_terminated, pod_start_timeout, pod_deleted_unexpectedly, node_lost, dispatch_failed,
  stable_code,
}

-- A text between two others, unless it is empty.
abbrev between : Str → Str → Str → Str
between before text after = if is_empty text then [] else before ++ text ++ after

unfoldable pub full_message : InfraFailureReason → Str
unfolding show_i32
full_message (image_pull_failed image message) =
    bytes "Image '" ++ image ++ bytes "' could not be pulled: " ++ message
full_message oom_killed = bytes "Container was killed for exceeding its memory limit (OOMKilled)"
full_message (init_container_failed name message) =
    bytes "Init container '" ++ name ++ bytes "' failed: " ++ message
full_message (container_create_error message) = bytes "Container could not be created: " ++ message
full_message (container_terminated exit_code reason message) =
    bytes "Container exited with code "
    ++ show_i32 exit_code
    ++ between (bytes " (") reason (bytes ")")
    ++ between (bytes ": ") message []
full_message pod_start_timeout =
    bytes "Pod did not enter the Running phase within the configured startup timeout"
full_message pod_deleted_unexpectedly = bytes "Pod was deleted while running"
full_message node_lost = bytes "Cluster node was lost while the pod was running"
full_message (dispatch_failed message) = bytes "Failed to dispatch node to Kubernetes: " ++ message

abbrev pull_text : Str
pull_text =
    bytes
      "Failed to pull the container image. Verify the image name, tag, and registry permissions."

abbrev oom_text : Str
oom_text =
    bytes "The container ran out of memory. Increase its memory limit or reduce its memory usage."

abbrev create_text : Str
create_text =
    bytes
      "The container could not be created. Check the pod configuration for invalid mounts, environment variables, or security settings."

abbrev terminated_text : Str
terminated_text =
    bytes
      "The container exited unexpectedly before reporting completion. Check the container's logs for the failure cause."

abbrev start_text : Str
start_text =
    bytes
      "The pod did not start in time. The cluster may be out of capacity, or the image may be very large."

abbrev dispatch_text : Str
dispatch_text =
    bytes
      "Kubernetes rejected the Pod for this node. Check the node's resource limits, image, and any cluster admission policies (SCC, ResourceQuota, LimitRange)."

unfoldable pub user_message_from_code : Str → Option Str
unfolding str_eq
user_message_from_code code =
    if str_eq code (bytes "ImagePullFailed")
    then some pull_text
    else if str_eq code (bytes "OOMKilled")
    then some oom_text
    else if str_eq code (bytes "ContainerCreateError")
    then some create_text
    else if str_eq code (bytes "ContainerTerminated")
    then some terminated_text
    else if str_eq code (bytes "PodStartTimeout")
    then some start_text
    else if str_eq code (bytes "DispatchFailed")
    then some dispatch_text
    else none

unfoldable pub user_message : InfraFailureReason → Option Str
unfolding user_message_from_code stable_code show_i32
user_message (image_pull_failed image message) = some (
    bytes "Failed to pull image '"
    ++ image
    ++ bytes "'. Verify the image name, tag, and registry permissions.")
user_message (dispatch_failed message) = some (
    bytes "Kubernetes rejected the Pod for this node: "
    ++ message
    ++ bytes
        ". Check the node's resource limits, image, and any cluster admission policies (SCC, ResourceQuota, LimitRange).")
user_message oom_killed = user_message_from_code (stable_code oom_killed)
user_message (container_create_error message) =
    user_message_from_code (stable_code (container_create_error message))
user_message pod_start_timeout = user_message_from_code (stable_code pod_start_timeout)
user_message (container_terminated exit_code reason message) = some (
    bytes "The container exited unexpectedly with code "
    ++ show_i32 exit_code
    ++ bytes " before reporting completion. Check the container's logs for the failure cause.")
user_message (init_container_failed name message) = none
user_message pod_deleted_unexpectedly = none
user_message node_lost = none

-- A failure has a message for users exactly when the code under which it is stored has one.
user_message-stable_code :
    (reason : InfraFailureReason)
    → is_some (user_message reason) ≡ is_some (user_message_from_code (stable_code reason))
unfolding user_message
user_message-stable_code (image_pull_failed image message) = refl
user_message-stable_code _ = refl
