-- ===== src/Coordinator/Finish.antt =====
-- How a run ends: the history, the cleanup, and the summary (coordinator/src/coordinator.rs).
pub mod Ends
pub mod Abort
use jefferies.Prelude.{
  ℕ, Str, Bool, true, false, Option, none, some, List, [], ◌∷◌, str_inst, keys, filter, all,
  if◌then◌else◌,
}
use jefferies.Run.{NodeStatus, running, same_status, mark_failed}
use jefferies.RunHistory.{RunStatus, success, failure}
use jefferies.PodWatcher.{shutdown}
use jefferies.Coordinator.State.{
  Coordinator, Env, PhaseTimer, call, abort_timer, cancel_node, notify_watcher, abort_relay,
  abort_watcher, utc_now, record_pipeline_run, report_completed, cleanup_run, release_lease,
  delete_run,
}
use jefferies.Coordinator.Records.{notify_watcher_of_deletion, record_running_node_terminated}

pub record RunSummary : Type 0 where
  pub run_id : Str
  pub status : RunStatus
  pub node_statuses : List (Str × NodeStatus)

unfoldable pub outcome_status : Coordinator → RunStatus
outcome_status c =
    if all (λ e. same_status e.1 NodeStatus.success) c.run.statuses then success else failure

-- The nodes with the status Running, in the order of the map.
abbrev pub running_nodes : Coordinator → List Str
running_nodes c = keys (filter (λ e. same_status e.1 running) c.run.statuses)

unfoldable pub shutdown_pod_watcher : Coordinator → Coordinator
shutdown_pod_watcher c =
    let c1 =
      if c.has_watcher_cmd
      then call (notify_watcher shutdown) (record c { has_watcher_cmd = false })
      else c in
    let c2 =
      if c1.has_signal_relay
      then call abort_relay (record c1 { has_signal_relay = false })
      else c1 in
    if c2.has_pod_watcher then call abort_watcher (record c2 { has_pod_watcher = false }) else c2

abbrev summary : Coordinator → RunStatus → RunSummary
summary c status = record { run_id = c.run_id; status = status; node_statuses = c.run.statuses }

unfoldable pub build_summary : Coordinator → RunStatus → Coordinator × RunSummary
unfolding shutdown_pod_watcher
build_summary c status = let c' = shutdown_pod_watcher c in (c', summary c' status)

unfoldable pub abort_timers : List (Str × PhaseTimer) → Coordinator → Coordinator
abort_timers [] c = c
abort_timers ((node_name, timer) ∷ timers) c =
    abort_timers timers (call (abort_timer timer.handle) c)

unfoldable pub cancel_nodes : List Str → Coordinator → Coordinator
unfolding notify_watcher_of_deletion
cancel_nodes [] c = c
cancel_nodes (node_name ∷ nodes) c =
    cancel_nodes nodes (call (cancel_node node_name) (notify_watcher_of_deletion c node_name))

unfoldable pub terminate_running_nodes : Coordinator → RunStatus → Coordinator × RunSummary
unfolding abort_timers cancel_nodes shutdown_pod_watcher
terminate_running_nodes c status =
    let c1 = abort_timers c.node_phase_handles (record c { node_phase_handles = [] }) in
    let c2 = cancel_nodes (running_nodes c1) c1 in
    let c3 = shutdown_pod_watcher c2 in (c3, summary c3 status)

unfoldable pub cleanup : Coordinator → Coordinator
cleanup c = call delete_run (call release_lease (call cleanup_run c))

module _ (env : Env) where
  unfoldable pub record_terminated : List Str → Coordinator → Coordinator
  unfolding record_running_node_terminated mark_failed
  record_terminated [] c = c
  record_terminated (node_name ∷ nodes) c =
      let c' = record_running_node_terminated env c node_name in
      record_terminated nodes (record c' { run = (mark_failed c'.run node_name).0 })

  unfoldable pub record_history : Coordinator → RunStatus → Coordinator
  unfolding record_terminated
  record_history c status =
      let c1 = record_terminated (running_nodes c) c in
      let c2 = call utc_now c1 in
      call
        (record_pipeline_run (record {
          run_id = c.run_id;
          pipeline_name = c.pipeline.name;
          owner = c.run_context.owner;
          repo = c.run_context.repo;
          sha = c.run_context.sha;
          branch = c.run_context.branch;
          target_branch = c.run_context.target_branch;
          tag = c.run_context.tag;
          pr_number = c.run_context.pr_number;
          trigger = c.run_context.trigger;
          pipeline_definition = c.run_context.pipeline_yaml;
          status = status;
          created_at = c.run_context.created_at;
          completed_at = some (env.now c2.trace);
          retry_of = c.run_context.retry_of;
          tenant_slug = c.run_context.tenant_slug;
          github_check_run_id = c.run_context.github_check_run_id;
        }))
        c2

  unfoldable pub finalize_run : Coordinator → RunStatus → Coordinator
  unfolding record_history
  finalize_run c status =
      let c' = record_history c status in
      if c'.has_status_reporter then call (report_completed status) c' else c'

  -- `finalize_run`, `cleanup` and `terminate_running_nodes`: the end of a run that is cut short.
  unfoldable pub abort_run : Coordinator → RunStatus → Coordinator × RunSummary
  unfolding finalize_run cleanup terminate_running_nodes
  abort_run c status = terminate_running_nodes (cleanup (finalize_run c status)) status

  -- `outcome_status`, `finalize_run`, `cleanup` and `build_summary`: the end of a complete run.
  unfoldable pub finish_run : Coordinator → Coordinator × RunSummary
  unfolding outcome_status finalize_run cleanup build_summary
  finish_run c =
      let status = outcome_status c in build_summary (cleanup (finalize_run c status)) status
