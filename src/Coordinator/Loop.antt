-- ===== src/Coordinator/Loop.antt =====
-- The event loop of the coordinator (`Coordinator::run` of coordinator/src/coordinator.rs).
-- `select!` takes any event that is there, so the loop runs over a list of events.
pub mod Waits
use jefferies.Prelude.{Str, Bool, true, false, List, [], ◌∷◌, if◌then◌else◌}
use jefferies.Run.{is_complete}
use jefferies.RunHistory.{RunStatus, failure, cancelled}
use jefferies.Coordinator.State.{
  Coordinator, Env, Message, node_timed_out, node_pod_running, node_infra_failed,
  node_pod_start_timed_out, call, renew_lease, subscribe_run,
}
use jefferies.Coordinator.Records.{cancel_node_timeout}
use jefferies.Coordinator.Dispatch.{dispatch_ready_nodes}
use jefferies.Coordinator.Handlers.{
  handle_pod_running, handle_node_infra_failed, handle_pod_start_timed_out, handle_node_completed,
  handle_node_timed_out, reconcile_running_against_s3, read_outcomes_for_non_terminal,
  fold_completions_from_outcomes,
}
use jefferies.Coordinator.Finish.{RunSummary, abort_run, finish_run, build_summary}
use jefferies.Coordinator.Rehydrate.{promote_started_pending_to_running, rehydrate_phase_timers}

-- The arms of the `select!`. `node_completed` and `cancel` come from the backplane, whose
-- subscription may also close; the internal channel closes with no effect.
pub data Event : Type 0 where
  pipeline_deadline heartbeat s3_reconcile channel_closed cancel subscription_closed : Event
  message : Message → Event
  node_completed : Str → Bool → Event

-- The coordinator waits for its next event, or has returned its summary.
pub data Next : Type 0 where
  waits : Coordinator → Next
  ends : Coordinator × RunSummary → Next

module _ (env : Env) where
  -- After a handler: end on `true`, and else leave the loop if the run is complete.
  unfoldable pub checked : Coordinator × Bool → Next
  unfolding is_complete abort_run finish_run
  checked (c, true) = ends (abort_run env c failure)
  checked (c, false) = if is_complete c.run then ends (finish_run env c) else waits c

  unfoldable pub on_message : Coordinator → Message → Next
  unfolding checked handle_node_timed_out handle_pod_running handle_node_infra_failed
      handle_pod_start_timed_out
  on_message c (node_timed_out node_name) = checked (handle_node_timed_out env c node_name)
  on_message c (node_pod_running node_name) = waits (handle_pod_running c node_name)
  on_message c (node_infra_failed node_name reason) =
      checked (handle_node_infra_failed env c node_name reason)
  on_message c (node_pod_start_timed_out node_name) =
      checked (handle_pod_start_timed_out env c node_name)

  unfoldable pub on_event : Coordinator → Event → Next
  unfolding on_message checked abort_run reconcile_running_against_s3 cancel_node_timeout
      handle_node_completed build_summary
  on_event c pipeline_deadline = ends (abort_run env c failure)
  on_event c heartbeat =
      let c' = call (renew_lease c.server_id c.lease_version) c in
      if env.renewed c'.trace then waits c' else ends (build_summary c' failure)
  on_event c s3_reconcile = checked (reconcile_running_against_s3 env c)
  on_event c channel_closed = waits c
  on_event c (message m) = on_message c m
  on_event c (node_completed node_name success) =
      checked (handle_node_completed env (cancel_node_timeout c node_name) node_name success)
  on_event c cancel = ends (abort_run env c cancelled)
  on_event c subscription_closed = ends (abort_run env c failure)

  -- After a step of the rehydration: end on `true`.
  abbrev pub unless_ended : Coordinator × Bool → Next
  unless_ended (c, true) = ends (abort_run env c failure)
  unless_ended (c, false) = waits c

  abbrev pub and_then : Next → (Coordinator → Next) → Next
  and_then (waits c) k = k c
  and_then (ends r) k = ends r

  -- The loop over the events in the order in which it takes them.
  unfoldable pub run_loop : Coordinator → List Event → Next
  unfolding on_event
  run_loop c [] = waits c
  run_loop c (e ∷ es) = and_then (on_event c e) (λ c'. run_loop c' es)

  -- The part of `run` for a run that was loaded from the store.
  unfoldable pub rehydrate : Coordinator → Next
  unfolding read_outcomes_for_non_terminal fold_completions_from_outcomes
      promote_started_pending_to_running rehydrate_phase_timers checked abort_run
  rehydrate c =
      let (c1, outcomes) = read_outcomes_for_non_terminal env c in
      and_then (unless_ended (fold_completions_from_outcomes env outcomes c1)) λ c2.
        and_then (unless_ended (promote_started_pending_to_running env c2 outcomes))
          λ c3. checked (rehydrate_phase_timers env c3 outcomes, false)

  -- The rest of `run` before the loop. A failed subscription ends it with no record of the end.
  unfoldable pub subscribe : Coordinator → Next
  unfolding dispatch_ready_nodes checked build_summary
  subscribe c =
      let c' = call subscribe_run c in
      if env.subscribed c'.trace
      then checked (dispatch_ready_nodes env c', false)
      else ends (build_summary c' failure)

  unfoldable pub begin : Coordinator → Next
  unfolding rehydrate subscribe
  begin c = and_then (if c.is_rehydrate then rehydrate c else waits c) subscribe

  unfoldable pub run : Coordinator → List Event → Next
  unfolding begin run_loop
  run c events = and_then (begin c) (λ c'. run_loop c' events)
