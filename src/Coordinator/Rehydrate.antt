-- ===== src/Coordinator/Rehydrate.antt =====
-- Taking over a run that another coordinator left (coordinator/src/coordinator.rs): nodes that had
-- started are promoted, and the timers of the running nodes are armed again.
pub mod Keeps
use mathlib.Core.Option
use jefferies.Prelude.{
  ℕ, ◌-◌, ◌/◌, Str, Bool, true, false, ◌&&◌, Option, none, some, List, [], ◌∷◌, get, keys, filter,
  str_inst, unwrap_or, if◌then◌else◌,
}
use jefferies.Pipelines.{NodeInfo}
use jefferies.Run.{pending, is_status, mark_running}
use jefferies.PodWatcher.{pod_deleted_unexpectedly}
use jefferies.SourceManager.{ReconcileResult, in_progress}
use jefferies.Coordinator.State.{
  Coordinator, Env, call, node_pod_exists, get_node_run, utc_now, system_time, u64,
}
use jefferies.Coordinator.Records.{persist_state}
use jefferies.Coordinator.Dispatch.{arm_startup, arm_runtime}
use jefferies.Coordinator.Handlers.{handle_node_infra_failed, then_fold}
use jefferies.Coordinator.Finish.{running_nodes}

abbrev is_in_progress : ReconcileResult → Bool
is_in_progress (in_progress started_at_ms) = true
is_in_progress _ = false

module _ (env : Env) where
  abbrev pub pod_checked : Option Bool → Coordinator → Str → Coordinator × Bool
  pod_checked (some false) c node_name =
      handle_node_infra_failed env c node_name pod_deleted_unexpectedly
  pod_checked _ c node_name = (c, false)

  -- One round of the promotion: a failure to save is only logged.
  unfoldable pub promote_node : Coordinator → Str → Coordinator × Bool
  unfolding mark_running persist_state handle_node_infra_failed
  promote_node c node_name =
      let (run', done) = mark_running c.run node_name in
      if done
      then (let c1 = (persist_state env (record c { run = run' })).0 in
          let c2 = call (node_pod_exists node_name) c1 in
          pod_checked (env.pod_exists c2.trace) c2 node_name)
      else (c, false)

  unfoldable pub promote_nodes : List Str → Coordinator → Coordinator × Bool
  unfolding promote_node
  promote_nodes [] c = (c, false)
  promote_nodes (node_name ∷ nodes) c =
      then_fold (promote_node c node_name) (λ c'. promote_nodes nodes c')

  unfoldable pub promote_started_pending_to_running :
      Coordinator → List (Str × ReconcileResult) → Coordinator × Bool
  unfolding promote_nodes get
  promote_started_pending_to_running c outcomes =
      promote_nodes
        (keys
          (filter (λ e. is_in_progress e.1 && is_status (get e.0 c.run.statuses) pending) outcomes))
        c

  -- The startup budget that is left since the recorded dispatch, or the whole runtime budget.
  abbrev rearm_dispatched : Option ℕ → ℕ → ℕ → Str → Coordinator → Coordinator
  rearm_dispatched (some dispatched_at) runtime_secs startup_secs node_name c =
      let c' = call utc_now c in
      let elapsed_secs = u64 ((env.now c'.trace - dispatched_at) / 1000000000) in
      arm_startup node_name (startup_secs - elapsed_secs) c'
  rearm_dispatched none runtime_secs startup_secs node_name c =
      arm_runtime node_name (some runtime_secs) c

  -- The runtime budget that is left since the start that S3 shows, or else by the history.
  abbrev rearm_by : Option ReconcileResult → ℕ → ℕ → ℕ → Str → Coordinator → Coordinator
  rearm_by (some (in_progress started_at_ms)) now_ms runtime_secs startup_secs node_name c =
      let elapsed_secs = u64 ((now_ms - started_at_ms) / 1000) in
      arm_runtime node_name (some (runtime_secs - elapsed_secs)) c
  rearm_by _ now_ms runtime_secs startup_secs node_name c =
      let c' = call (get_node_run node_name) c in
      rearm_dispatched (env.node_run c'.trace) runtime_secs startup_secs node_name c'

  unfoldable pub rearm_node : List (Str × ReconcileResult) → ℕ → Coordinator → Str → Coordinator
  unfolding get arm_startup arm_runtime
  rearm_node outcomes now_ms c node_name =
      let node = get node_name c.node_info_cache in
      let runtime_secs =
        unwrap_or (Option.bind node (λ n. n.timeout_secs)) c.config.default_node_timeout_secs in
      let startup_secs =
        unwrap_or (Option.bind node (λ n. n.startup_timeout_secs))
          c.config.default_node_startup_timeout_secs in
      rearm_by (get node_name outcomes) now_ms runtime_secs startup_secs node_name c

  unfoldable pub rearm_nodes :
      List (Str × ReconcileResult) → ℕ → List Str → Coordinator → Coordinator
  unfolding rearm_node
  rearm_nodes outcomes now_ms [] c = c
  rearm_nodes outcomes now_ms (node_name ∷ nodes) c =
      rearm_nodes outcomes now_ms nodes (rearm_node outcomes now_ms c node_name)

  unfoldable pub rehydrate_phase_timers : Coordinator → List (Str × ReconcileResult) → Coordinator
  unfolding rearm_nodes
  rehydrate_phase_timers c outcomes =
      let c' = call system_time c in
      rearm_nodes outcomes (env.now_ms c'.trace) (running_nodes c') c'
