-- ===== src/Coordinator/Thrift/Finish.antt =====
-- The credit of the nodes over the ends of a run and the taking over of a run
-- (coordinator/src/coordinator.rs).
use jefferies.Prelude.{
  ℕ, Str, str_inst, refl, Bool, true, false, Option, none, some, List, [], ◌∷◌, arith,
}
use jefferies.Run.{mark_failed, mark_running}
use jefferies.Run.Marks.{start, apply_mark}
use jefferies.RunHistory.{RunStatus}
use jefferies.PodWatcher.{pod_deleted_unexpectedly}
use jefferies.SourceManager.{ReconcileResult}
use jefferies.Coordinator.State.{
  Coordinator, Env, PhaseTimer, call, abort_timer, cancel_node, system_time, node_pod_exists,
}
use jefferies.Coordinator.Records.{
  persist_state, notify_watcher_of_deletion, record_running_node_terminated,
}
use jefferies.Coordinator.Dispatch.{arm_runtime, arm_startup}
use jefferies.Coordinator.Dispatch.Once.{dispatches}
use jefferies.Coordinator.Frame.{record_running_node_terminated-run}
use jefferies.Coordinator.Finish.{
  running_nodes, shutdown_pod_watcher, build_summary, abort_timers, cancel_nodes,
  terminate_running_nodes, cleanup, record_terminated, record_history, finalize_run, abort_run,
  finish_run, outcome_status,
}
use jefferies.Coordinator.Rehydrate.{
  pod_checked, promote_node, promote_nodes, promote_started_pending_to_running, rearm_node,
  rearm_nodes, rehydrate_phase_timers,
}
use jefferies.Coordinator.Thrift.{Step, no_step, steps, quiet, marked}
use jefferies.Coordinator.Thrift.Handlers.{
  either, marked_failed, persist_state-Step, handle_node_infra_failed-Step, then_fold-Step,
}

shutdown-Step : (c : Coordinator) → Step c (shutdown_pod_watcher c)
unfolding shutdown_pod_watcher dispatches
shutdown-Step c = quiet c (shutdown_pod_watcher c) (ground arith) (ground arith) (λ j. ground arith)

pub build_summary-Step : (c : Coordinator) (s : RunStatus) → Step c (build_summary c s).0
unfolding build_summary
build_summary-Step c s = shutdown-Step c

abort_timers-Step :
    (timers : List (Str × PhaseTimer)) (c : Coordinator) → Step c (abort_timers timers c)
unfolding abort_timers dispatches
abort_timers-Step [] c = no_step c
abort_timers-Step ((n, t) ∷ timers) c =
    let c' = call (abort_timer t.handle) c in
    steps c c' (abort_timers timers c') (quiet c c' refl refl (λ j. refl))
      (abort_timers-Step timers c')

cancel_nodes-Step : (nodes : List Str) (c : Coordinator) → Step c (cancel_nodes nodes c)
unfolding cancel_nodes notify_watcher_of_deletion dispatches
cancel_nodes-Step [] c = no_step c
cancel_nodes-Step (n ∷ nodes) c =
    let c' = call (cancel_node n) (notify_watcher_of_deletion c n) in
    steps c c' (cancel_nodes nodes c')
      (quiet c c' (ground arith) (ground arith) (λ j. ground arith)) (cancel_nodes-Step nodes c')

terminate-Step : (c : Coordinator) (s : RunStatus) → Step c (terminate_running_nodes c s).0
unfolding terminate_running_nodes
terminate-Step c s =
    let c0 = record c { node_phase_handles = [] } in
    let c1 = abort_timers c.node_phase_handles c0 in
    let c2 = cancel_nodes (running_nodes c1) c1 in
    steps c c0 _ (quiet c c0 refl refl (λ j. refl)) (
      steps c0 c1 _ (abort_timers-Step c.node_phase_handles c0)
        (steps c1 c2 _ (cancel_nodes-Step (running_nodes c1) c1) (shutdown-Step c2)))

cleanup-Step : (c : Coordinator) → Step c (cleanup c)
unfolding cleanup dispatches
cleanup-Step c = quiet c (cleanup c) refl refl (λ j. refl)

module _ (env : Env) where
  terminated-Step : (c : Coordinator) (n : Str) → Step c (record_running_node_terminated env c n)
  unfolding record_running_node_terminated dispatches
  terminated-Step c n =
      quiet c (record_running_node_terminated env c n) (record_running_node_terminated-run env c n)
        (ground arith) (λ j. ground arith)

  record_terminated-Step :
      (nodes : List Str) (c : Coordinator) → Step c (record_terminated env nodes c)
  unfolding record_terminated
  record_terminated-Step [] c = no_step c
  record_terminated-Step (n ∷ nodes) c =
      let c1 = record_running_node_terminated env c n in
      let c2 = record c1 { run = (mark_failed c1.run n).0 } in
      steps c c1 (record_terminated env nodes c2) (terminated-Step c n) (
        steps c1 c2 (record_terminated env nodes c2) (marked_failed c1 n)
          (record_terminated-Step nodes c2))

  record_history-Step : (c : Coordinator) (s : RunStatus) → Step c (record_history env c s)
  unfolding record_history dispatches
  record_history-Step c s =
      let c1 = record_terminated env (running_nodes c) c in
      steps c c1 _ (record_terminated-Step (running_nodes c) c) (quiet c1 _ refl refl (λ j. refl))

  finalize_run-Step : (c : Coordinator) (s : RunStatus) → Step c (finalize_run env c s)
  unfolding finalize_run dispatches
  finalize_run-Step c s =
      let c1 = record_history env c s in
      steps c c1 _ (record_history-Step c s)
        (quiet c1 (finalize_run env c s) (ground arith) (ground arith) (λ j. ground arith))

  pub abort_run-Step : (c : Coordinator) (s : RunStatus) → Step c (abort_run env c s).0
  unfolding abort_run
  abort_run-Step c s =
      let c1 = finalize_run env c s in
      steps c c1 _ (finalize_run-Step c s)
        (steps c1 (cleanup c1) _ (cleanup-Step c1) (terminate-Step (cleanup c1) s))

  pub finish_run-Step : (c : Coordinator) → Step c (finish_run env c).0
  unfolding finish_run
  finish_run-Step c =
      let s = outcome_status c in
      let c1 = finalize_run env c s in
      steps c c1 _ (finalize_run-Step c s)
        (steps c1 (cleanup c1) _ (cleanup-Step c1) (build_summary-Step (cleanup c1) s))

  pod_checked-Step :
      (o : Option Bool) (c : Coordinator) (n : Str) → Step c (pod_checked env o c n).0
  pod_checked-Step (some false) c n = handle_node_infra_failed-Step env c n pod_deleted_unexpectedly
  pod_checked-Step (some true) c n = no_step c
  pod_checked-Step none c n = no_step c

  promote_node-Step : (c : Coordinator) (n : Str) → Step c (promote_node env c n).0
  unfolding promote_node apply_mark dispatches
  promote_node-Step c n =
      let c0 = record c { run = (mark_running c.run n).0 } in
      let c1 = (persist_state env c0).0 in
      let c2 = call (node_pod_exists n) c1 in
      either c (mark_running c.run n).1 (pod_checked env (env.pod_exists c2.trace) c2 n) (c, false)
        (steps c c0 _ (marked start c n) (
          steps c0 c1 _ (persist_state-Step env c0) (
            steps c1 c2 _ (quiet c1 c2 refl refl (λ j. refl))
              (pod_checked-Step (env.pod_exists c2.trace) c2 n))))
        (no_step c)

  promote_nodes-Step : (nodes : List Str) (c : Coordinator) → Step c (promote_nodes env nodes c).0
  unfolding promote_nodes
  promote_nodes-Step [] c = no_step c
  promote_nodes-Step (n ∷ nodes) c =
      then_fold-Step c (promote_node env c n) _ (promote_node-Step c n)
        (λ c'. promote_nodes-Step nodes c')

  pub promote_started-Step :
      (c : Coordinator) (outcomes : List (Str × ReconcileResult))
      → Step c (promote_started_pending_to_running env c outcomes).0
  unfolding promote_started_pending_to_running
  promote_started-Step c outcomes = promote_nodes-Step _ c

  rearm_node-Step :
      (outcomes : List (Str × ReconcileResult)) (now_ms : ℕ) (c : Coordinator) (n : Str)
      → Step c (rearm_node env outcomes now_ms c n)
  unfolding rearm_node arm_runtime arm_startup dispatches
  rearm_node-Step outcomes now_ms c n =
      quiet c (rearm_node env outcomes now_ms c n) (ground arith) (ground arith) (λ j. ground arith)

  rearm_nodes-Step :
      (outcomes : List (Str × ReconcileResult)) (now_ms : ℕ) (nodes : List Str) (c : Coordinator)
      → Step c (rearm_nodes env outcomes now_ms nodes c)
  unfolding rearm_nodes
  rearm_nodes-Step outcomes now_ms [] c = no_step c
  rearm_nodes-Step outcomes now_ms (n ∷ nodes) c =
      let c' = rearm_node env outcomes now_ms c n in
      steps c c' _ (rearm_node-Step outcomes now_ms c n) (rearm_nodes-Step outcomes now_ms nodes c')

  pub rehydrate_phase_timers-Step :
      (c : Coordinator) (outcomes : List (Str × ReconcileResult))
      → Step c (rehydrate_phase_timers env c outcomes)
  unfolding rehydrate_phase_timers dispatches
  rehydrate_phase_timers-Step c outcomes =
      let c' = call system_time c in
      steps c c' _ (quiet c c' refl refl (λ j. refl))
        (rearm_nodes-Step outcomes (env.now_ms c'.trace) (running_nodes c') c')
