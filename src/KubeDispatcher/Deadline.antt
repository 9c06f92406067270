-- ===== src/KubeDispatcher/Deadline.antt =====
-- The deadline of a job against the two timeouts of its node (coordinator/src/kube_dispatcher.rs).
use jefferies.Prelude.{ℕ, ◌+◌, ◌-◌, ◌^◌, ◌≡◌, unwrap_or, ltb, arith, if◌then◌else◌}
use jefferies.Pipelines.{NodeInfo}
use jefferies.Coordinator.State.{Config}
use jefferies.KubeDispatcher.Settings.{saturating_add, to_i64, compute_safety_deadline_secs}

-- The seconds that the coordinator gives the node to start and to run.
abbrev pub both_timeouts : NodeInfo → Config → ℕ
both_timeouts node config =
    unwrap_or node.startup_timeout_secs config.default_node_startup_timeout_secs
    + unwrap_or node.timeout_secs config.default_node_timeout_secs

saturated :
    (a b : ℕ)
    → to_i64 (saturating_add (saturating_add a b) 60)
      ≡ (if ltb (a + b + 60) (2 ^ 63) then a + b + 60 else 2 ^ 63 - 1)
saturated a b = ground arith

-- The deadline of a job is a minute after the time that the coordinator gives its node to start and to
-- run, however large the two timeouts are, or the largest 64-bit integer where that is less.
pub compute_safety_deadline_secs_exact :
    (node : NodeInfo) (config : Config)
    → compute_safety_deadline_secs node config ≡ (
        if ltb (both_timeouts node config + 60) (2 ^ 63)
        then both_timeouts node config + 60
        else 2 ^ 63 - 1)
unfolding compute_safety_deadline_secs
compute_safety_deadline_secs_exact node config =
    saturated (unwrap_or node.startup_timeout_secs config.default_node_startup_timeout_secs)
      (unwrap_or node.timeout_secs config.default_node_timeout_secs)
