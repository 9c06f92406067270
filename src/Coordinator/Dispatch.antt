-- ===== src/Coordinator/Dispatch.antt =====
-- Dispatching the nodes that are ready (`dispatch_ready_nodes` of coordinator/src/coordinator.rs).
pub mod Once
pub mod Settles
use jefferies.Prelude.{
  ℕ, Str, String, bytes, Bool, true, false, Option, none, some, List, [], ◌∷◌, get, insert, remove,
  unwrap_or, if◌then◌else◌, str_inst,
}
use jefferies.Pipelines.{NodeInfo}
use jefferies.Run.{PipelineRun, ready_nodes, mark_running, mark_dispatch_failed}
use jefferies.Coordinator.State.{
  Coordinator, Env, call, spawn, dispatch, run_metadata, TimerPhase, startup, runtime, PhaseTimer,
  u64, node_timed_out, node_pod_start_timed_out,
}
use jefferies.Coordinator.Records.{persist_state, record_dispatch_failed, record_dispatched}

-- `self.node_phase_handles.insert(node_name, PhaseTimer { phase, handle })`, of the timer spawned
-- last.
abbrev pub arm : Str → TimerPhase → ℕ → Coordinator → Coordinator
arm node_name phase handle c = record c {
  node_phase_handles =
      insert node_name (record { phase = phase; handle = handle }) c.node_phase_handles;
}

-- `spawn_startup_timeout` and the insertion of its handle
unfoldable pub arm_startup : Str → ℕ → Coordinator → Coordinator
unfolding insert
arm_startup node_name secs c =
    arm node_name startup c.next_timer (spawn secs (node_pod_start_timed_out node_name) c)

-- `spawn_runtime_timeout` and the insertion of its handle
unfoldable pub arm_runtime : Str → Option ℕ → Coordinator → Coordinator
unfolding insert
arm_runtime node_name override_secs c = arm node_name runtime c.next_timer (
    spawn (unwrap_or override_secs c.config.default_node_timeout_secs) (node_timed_out node_name) c)

module _ (env : Env) where
  -- A failure to save is only logged here.
  unfoldable pub persist_state_after_dispatch_transition : Coordinator → Coordinator
  unfolding persist_state
  persist_state_after_dispatch_transition c = (persist_state env c).0

  unfoldable pub dispatch_failure : Coordinator → Str → Str → Coordinator
  unfolding mark_dispatch_failed persist_state_after_dispatch_transition record_dispatch_failed
  dispatch_failure c node_name error =
      let c1 = record c { run = (mark_dispatch_failed c.run node_name).0 } in
      record_dispatch_failed env (persist_state_after_dispatch_transition c1) node_name error

  unfoldable pub dispatch_success : Coordinator → Str → NodeInfo → Coordinator
  unfolding mark_running persist_state_after_dispatch_transition record_dispatched arm_startup
  dispatch_success c node_name node =
      let (run', done) = mark_running c.run node_name in
      if done
      then arm_startup node_name
          (unwrap_or node.startup_timeout_secs c.config.default_node_startup_timeout_secs)
          (record_dispatched env (persist_state_after_dispatch_transition (record c { run = run' }))
            node_name node)
      else c

  abbrev answered : Option Str → Coordinator → Str → NodeInfo → Coordinator
  answered none c node_name node = dispatch_success c node_name node
  answered (some error) c node_name node = dispatch_failure c node_name error

  abbrev dispatch_known : Option NodeInfo → Coordinator → Str → Coordinator
  dispatch_known none c node_name =
      dispatch_failure c node_name (bytes "Node info not found in pipeline")
  dispatch_known (some node) c node_name =
      let c' = call (dispatch (run_metadata c.run_context) node) c in
      answered (env.dispatched c'.trace) c' node_name node

  -- One round of the loop.
  unfoldable pub dispatch_node : Coordinator → Str → Coordinator
  unfolding get run_metadata dispatch_failure dispatch_success
  dispatch_node c node_name = dispatch_known (get node_name c.node_info_cache) c node_name

  unfoldable pub dispatch_nodes : Coordinator → List Str → Coordinator
  unfolding dispatch_node
  dispatch_nodes c [] = c
  dispatch_nodes c (node_name ∷ nodes) = dispatch_nodes (dispatch_node c node_name) nodes

  unfoldable pub dispatch_ready_nodes : Coordinator → Coordinator
  unfolding dispatch_nodes ready_nodes
  dispatch_ready_nodes c = dispatch_nodes c (ready_nodes c.run)
