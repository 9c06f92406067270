-- ===== src/Coordinator/Frame.antt =====
-- Frame lemmas for the calls of the coordinator (coordinator/src/coordinator.rs): saving, recording
-- and arming timers, against the statuses and the timers.
use jefferies.Prelude.{Str, ◌≡◌, refl, Option, arith, ℕ}
use jefferies.Pipelines.{NodeInfo}
use jefferies.PodWatcher.{InfraFailureReason}
use jefferies.Coordinator.State.{Coordinator, Env}
use jefferies.Coordinator.Records.{
  persist_state, cancel_node_timeout, notify_watcher_of_deletion, record_dispatch_failed,
  record_node_completed, record_running_node_terminated, record_dispatched,
}
use jefferies.Coordinator.Dispatch.{arm_startup, arm_runtime}

pub cancel_node_timeout-run : (c : Coordinator) (n : Str) → (cancel_node_timeout c n).run ≡ c.run
unfolding cancel_node_timeout
cancel_node_timeout-run c n = ground arith

pub notify_watcher_of_deletion-run :
    (c : Coordinator) (n : Str) → (notify_watcher_of_deletion c n).run ≡ c.run
unfolding notify_watcher_of_deletion
notify_watcher_of_deletion-run c n = ground arith

pub notify_watcher_of_deletion-timers :
    (c : Coordinator) (n : Str)
    → (notify_watcher_of_deletion c n).node_phase_handles ≡ c.node_phase_handles
unfolding notify_watcher_of_deletion
notify_watcher_of_deletion-timers c n = ground arith

pub arm_startup-run : (n : Str) (secs : ℕ) (c : Coordinator) → (arm_startup n secs c).run ≡ c.run
unfolding arm_startup
arm_startup-run n secs c = refl

pub arm_runtime-run :
    (n : Str) (secs : Option ℕ) (c : Coordinator) → (arm_runtime n secs c).run ≡ c.run
unfolding arm_runtime
arm_runtime-run n secs c = refl

module _ (env : Env) where
  pub persist_state-run : (c : Coordinator) → (persist_state env c).0.run ≡ c.run
  unfolding persist_state
  persist_state-run c = ground arith

  pub persist_state-timers :
      (c : Coordinator) → (persist_state env c).0.node_phase_handles ≡ c.node_phase_handles
  unfolding persist_state
  persist_state-timers c = ground arith

  pub record_dispatch_failed-run :
      (c : Coordinator) (n e : Str) → (record_dispatch_failed env c n e).run ≡ c.run
  unfolding record_dispatch_failed
  record_dispatch_failed-run c n e = refl

  pub record_dispatch_failed-timers :
      (c : Coordinator) (n e : Str)
      → (record_dispatch_failed env c n e).node_phase_handles ≡ c.node_phase_handles
  unfolding record_dispatch_failed
  record_dispatch_failed-timers c n e = refl

  pub record_dispatched-run :
      (c : Coordinator) (n : Str) (node : NodeInfo) → (record_dispatched env c n node).run ≡ c.run
  unfolding record_dispatched
  record_dispatched-run c n node = refl

  pub record_dispatched-timers :
      (c : Coordinator) (n : Str) (node : NodeInfo)
      → (record_dispatched env c n node).node_phase_handles ≡ c.node_phase_handles
  unfolding record_dispatched
  record_dispatched-timers c n node = refl

  pub record_node_completed-run :
      (c : Coordinator) (n : Str) (r : Option InfraFailureReason)
      → (record_node_completed env c n r).run ≡ c.run
  unfolding record_node_completed
  record_node_completed-run c n r = ground arith

  pub record_node_completed-timers :
      (c : Coordinator) (n : Str) (r : Option InfraFailureReason)
      → (record_node_completed env c n r).node_phase_handles ≡ c.node_phase_handles
  unfolding record_node_completed
  record_node_completed-timers c n r = ground arith

  pub record_running_node_terminated-run :
      (c : Coordinator) (n : Str) → (record_running_node_terminated env c n).run ≡ c.run
  unfolding record_running_node_terminated
  record_running_node_terminated-run c n = ground arith
