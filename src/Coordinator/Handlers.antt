-- ===== src/Coordinator/Handlers.antt =====
-- The handlers of the coordinator's events (coordinator/src/coordinator.rs). A handler returns
-- `true` where the run has to be ended as a failure.
pub mod Settled
use mathlib.Core.Option
use jefferies.Prelude.{
  ℕ, Str, Bool, true, false, ◌||◌, Option, none, some, List, [], ◌∷◌, get, insert, remove, keys,
  filter, unwrap_or, if◌then◌else◌, Result, ok, err, str_inst, is_empty,
}
use jefferies.Run.{
  NodeStatus, pending, running, success, failed, same_status, is_status, mark_success, mark_failed,
}
use jefferies.PodWatcher.{InfraFailureReason, pod_start_timeout}
use jefferies.SourceManager.{ReconcileResult, completed}
use jefferies.Coordinator.State.{
  Coordinator, Env, PhaseTimer, TimerPhase, startup, runtime, call, abort_timer, cancel_node,
  read_outcomes,
}
use jefferies.Coordinator.Records.{
  persist_state, PersistError, cancel_node_timeout, notify_watcher_of_deletion,
  record_node_completed,
}
use jefferies.Coordinator.Dispatch.{arm_runtime, dispatch_ready_nodes}

unfoldable pub fail_fast_enabled : Coordinator → Bool
fail_fast_enabled c = unwrap_or c.pipeline.fail_fast c.config.default_fail_fast

abbrev in_runtime : Option PhaseTimer → Bool
in_runtime none = false
in_runtime (some t) = elim t.phase [ startup ↦ false | runtime ↦ true ]

-- `Some(Success) | Some(Failed)`
abbrev is_done : Option NodeStatus → Bool
is_done o = is_status o success || is_status o failed

unfoldable pub handle_pod_running : Coordinator → Str → Coordinator
unfolding get arm_runtime cancel_node_timeout
handle_pod_running c node_name =
    if in_runtime (get node_name c.node_phase_handles)
    then c
    else (let runtime_secs = Option.bind (get node_name c.node_info_cache) (λ n. n.timeout_secs) in
        arm_runtime node_name runtime_secs (cancel_node_timeout c node_name))

abbrev pub stopped_or :
    Coordinator × Result PersistError (Unit {0})
    → (Coordinator → Coordinator × Bool)
    → Coordinator × Bool
stopped_or (c, err e) continue = (c, true)
stopped_or (c, ok u) continue = continue c

abbrev pub then_fold : Coordinator × Bool → (Coordinator → Coordinator × Bool) → Coordinator × Bool
then_fold (c, true) rest = (c, true)
then_fold (c, false) rest = rest c

module _ (env : Env) where
  -- The common end of a handler that has recorded a failure.
  unfoldable pub after_failure : Coordinator → Coordinator × Bool
  unfolding fail_fast_enabled dispatch_ready_nodes
  after_failure c = if fail_fast_enabled c then (c, true) else (dispatch_ready_nodes env c, false)

  -- From `persist_state` on, for a node that was marked as failed by the coordinator itself.
  unfoldable pub stop_failed_node :
      Coordinator → Str → Option InfraFailureReason → Coordinator × Bool
  unfolding persist_state notify_watcher_of_deletion record_node_completed after_failure
  stop_failed_node c node_name reason = stopped_or (persist_state env c) λ c1.
      let c2 = call (cancel_node node_name) (notify_watcher_of_deletion c1 node_name) in
      after_failure (record_node_completed env c2 node_name reason)

  unfoldable pub handle_node_infra_failed :
      Coordinator → Str → InfraFailureReason → Coordinator × Bool
  unfolding get mark_failed cancel_node_timeout stop_failed_node
  handle_node_infra_failed c node_name reason =
      if is_done (get node_name c.run.statuses)
      then (c, false)
      else (let (run', done) = mark_failed c.run node_name in
          if done
          then stop_failed_node (cancel_node_timeout (record c { run = run' }) node_name) node_name
              (some reason)
          else (c, false))

  unfoldable pub handle_pod_start_timed_out : Coordinator → Str → Coordinator × Bool
  unfolding handle_node_infra_failed
  handle_pod_start_timed_out c node_name = handle_node_infra_failed c node_name pod_start_timeout

  unfoldable pub handle_node_completed : Coordinator → Str → Bool → Coordinator × Bool
  unfolding mark_success mark_failed persist_state record_node_completed dispatch_ready_nodes
      after_failure
  handle_node_completed c node_name true =
      stopped_or (persist_state env (record c { run = (mark_success c.run node_name).0 }))
        λ c1. (dispatch_ready_nodes env (record_node_completed env c1 node_name none), false)
  handle_node_completed c node_name false =
      stopped_or (persist_state env (record c { run = (mark_failed c.run node_name).0 }))
        λ c1. after_failure (record_node_completed env c1 node_name none)

  unfoldable pub handle_node_timed_out : Coordinator → Str → Coordinator × Bool
  unfolding mark_failed stop_failed_node
  handle_node_timed_out c node_name =
      let (run', done) = mark_failed c.run node_name in
      if done then stop_failed_node (record c { run = run' }) node_name none else (c, false)

  -- An empty map where the nodes are none, and where the 7 seconds are over.
  unfoldable pub read_outcomes_for_non_terminal :
      Coordinator → Coordinator × List (Str × ReconcileResult)
  read_outcomes_for_non_terminal c =
      let nodes =
        keys (filter (λ e. same_status e.1 running || same_status e.1 pending) c.run.statuses) in
      if is_empty nodes
      then (c, [])
      else (let c' = call (read_outcomes nodes) c in (c', unwrap_or (env.outcomes c'.trace) []))

  unfoldable pub fold_completions_from_outcomes :
      List (Str × ReconcileResult) → Coordinator → Coordinator × Bool
  unfolding cancel_node_timeout handle_node_completed
  fold_completions_from_outcomes [] c = (c, false)
  fold_completions_from_outcomes ((node_name, completed succeeded started finished) ∷ outcomes) c =
      then_fold (handle_node_completed (cancel_node_timeout c node_name) node_name succeeded)
        (λ c'. fold_completions_from_outcomes outcomes c')
  fold_completions_from_outcomes (other ∷ outcomes) c = fold_completions_from_outcomes outcomes c

  unfoldable pub reconcile_running_against_s3 : Coordinator → Coordinator × Bool
  unfolding read_outcomes_for_non_terminal fold_completions_from_outcomes
  reconcile_running_against_s3 c =
      let (c', outcomes) = read_outcomes_for_non_terminal c in
      fold_completions_from_outcomes outcomes c'
