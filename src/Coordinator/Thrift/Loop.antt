-- ===== src/Coordinator/Thrift/Loop.antt =====
-- The credit of the nodes over a whole run (coordinator/src/coordinator.rs).
use jefferies.Prelude.{
  ◌≤◌, Str, str_inst, ◌≡◌, refl, Bool, true, false, Option, none, some, List, [], ◌∷◌, get, arith,
  if◌then◌else◌,
}
use jefferies.Pipelines.{Pipeline}
use jefferies.Run.{NodeStatus, pending, is_complete}
use jefferies.RunHistory.{failure, cancelled}
use jefferies.Coordinator.State.{
  Coordinator, Config, RunContext, Env, Message, call, renew_lease, subscribe_run, node_timed_out,
  node_pod_running, node_infra_failed, node_pod_start_timed_out,
}
use jefferies.Coordinator.Records.{cancel_node_timeout}
use jefferies.Coordinator.Dispatch.{dispatch_ready_nodes}
use jefferies.Coordinator.Dispatch.Once.{dispatches}
use jefferies.Coordinator.Handlers.{read_outcomes_for_non_terminal, fold_completions_from_outcomes}
use jefferies.Coordinator.Finish.{build_summary, finish_run}
use jefferies.Coordinator.Rehydrate.{promote_started_pending_to_running, rehydrate_phase_timers}
use jefferies.Coordinator.Loop.{
  Event, pipeline_deadline, heartbeat, s3_reconcile, channel_closed, cancel, subscription_closed,
  message, node_completed, Next, waits, ends, checked, on_message, on_event, unless_ended, and_then,
  run_loop, rehydrate, subscribe, begin, run,
}
use jefferies.Coordinator.Start.{start_coordinator}
use jefferies.Coordinator.Start.Started.{LoadsMaps, start_coordinator-Started}
use jefferies.Coordinator.Thrift.{Step, no_step, steps, quiet, credit, dispatch_ready_nodes-Step}
use jefferies.Coordinator.Thrift.Handlers.{
  cancel_node_timeout-Step, handle_pod_running-Step, handle_node_infra_failed-Step,
  handle_pod_start_timed_out-Step, handle_node_completed-Step, handle_node_timed_out-Step,
  read_outcomes-Step, fold_completions-Step, reconcile-Step,
}
use jefferies.Coordinator.Thrift.Finish.{
  build_summary-Step, abort_run-Step, finish_run-Step, promote_started-Step,
  rehydrate_phase_timers-Step,
}

-- The coordinator that waits, or that has ended.
abbrev pub state_of : Next → Coordinator
state_of (waits c) = c
state_of (ends r) = r.0

module _ (env : Env) where
  checked-Step :
      (c : Coordinator) (r : Coordinator × Bool) → Step c r.0 → Step c (state_of (checked env r))
  unfolding checked
  checked-Step c (c', true) f = steps c c' _ f (abort_run-Step env c' failure)
  checked-Step c (c', false) f = pick (is_complete c'.run)
    where
      pick : (b : Bool) → Step c (state_of (if b then ends (finish_run env c') else waits c'))
      pick true = steps c c' _ f (finish_run-Step env c')
      pick false = f

  on_message-Step : (c : Coordinator) (m : Message) → Step c (state_of (on_message env c m))
  unfolding on_message
  on_message-Step c (node_timed_out n) = checked-Step c _ (handle_node_timed_out-Step env c n)
  on_message-Step c (node_pod_running n) = handle_pod_running-Step c n
  on_message-Step c (node_infra_failed n r) =
      checked-Step c _ (handle_node_infra_failed-Step env c n r)
  on_message-Step c (node_pod_start_timed_out n) =
      checked-Step c _ (handle_pod_start_timed_out-Step env c n)

  heartbeat-Step :
      (b : Bool) (c c' : Coordinator)
      → Step c c'
      → Step c (state_of (if b then waits c' else ends (build_summary c' failure)))
  heartbeat-Step true c c' f = f
  heartbeat-Step false c c' f = steps c c' _ f (build_summary-Step c' failure)

  on_event-Step : (c : Coordinator) (e : Event) → Step c (state_of (on_event env c e))
  unfolding on_event dispatches
  on_event-Step c pipeline_deadline = abort_run-Step env c failure
  on_event-Step c heartbeat =
      let c' = call (renew_lease c.server_id c.lease_version) c in
      heartbeat-Step (env.renewed c'.trace) c c' (quiet c c' refl refl (λ j. refl))
  on_event-Step c s3_reconcile = checked-Step c _ (reconcile-Step env c)
  on_event-Step c channel_closed = no_step c
  on_event-Step c (message m) = on_message-Step c m
  on_event-Step c (node_completed n b) =
      let c' = cancel_node_timeout c n in
      checked-Step c _
        (steps c c' _ (cancel_node_timeout-Step c n) (handle_node_completed-Step env c' n b))
  on_event-Step c cancel = abort_run-Step env c cancelled
  on_event-Step c subscription_closed = abort_run-Step env c failure

  unless_ended-Step :
      (c : Coordinator) (r : Coordinator × Bool)
      → Step c r.0
      → Step c (state_of (unless_ended env r))
  unless_ended-Step c (c', true) f = steps c c' _ f (abort_run-Step env c' failure)
  unless_ended-Step c (c', false) f = f

  and_then-Step :
      (c : Coordinator) (n : Next) (k : Coordinator → Next)
      → Step c (state_of n)
      → ((c' : Coordinator) → Step c' (state_of (k c')))
      → Step c (state_of (and_then env n k))
  and_then-Step c (waits c') k f g = steps c c' _ f (g c')
  and_then-Step c (ends r) k f g = f

  run_loop-Step :
      (c : Coordinator) (events : List Event) → Step c (state_of (run_loop env c events))
  unfolding run_loop
  run_loop-Step c [] = no_step c
  run_loop-Step c (e ∷ events) =
      and_then-Step c (on_event env c e) _ (on_event-Step c e) (λ c'. run_loop-Step c' events)

  rehydrate-Step : (c : Coordinator) → Step c (state_of (rehydrate env c))
  unfolding rehydrate
  rehydrate-Step c =
      let (c1, outcomes) = read_outcomes_for_non_terminal env c in
      and_then-Step c (unless_ended env (fold_completions_from_outcomes env outcomes c1)) _
        (unless_ended-Step c _
          (steps c c1 _ (read_outcomes-Step env c) (fold_completions-Step env outcomes c1)))
        λ c2.
          and_then-Step c2 (unless_ended env (promote_started_pending_to_running env c2 outcomes)) _
            (unless_ended-Step c2 _ (promote_started-Step env c2 outcomes))
            λ c3.
              checked-Step c3 (rehydrate_phase_timers env c3 outcomes, false)
                (rehydrate_phase_timers-Step env c3 outcomes)

  subscribe-Step : (c : Coordinator) → Step c (state_of (subscribe env c))
  unfolding subscribe dispatches
  subscribe-Step c =
      let c' = call subscribe_run c in
      steps c c' _ (quiet c c' refl refl (λ j. refl)) (pick (env.subscribed c'.trace) c')
    where
      pick :
          (b : Bool) (c' : Coordinator)
          → Step c' (
              state_of (
                if b
                then checked env (dispatch_ready_nodes env c', false)
                else ends (build_summary c' failure)))
      pick true c' =
          checked-Step c' (dispatch_ready_nodes env c', false) (dispatch_ready_nodes-Step env c')
      pick false c' = build_summary-Step c' failure

  begin-Step : (c : Coordinator) → Step c (state_of (begin env c))
  unfolding begin
  begin-Step c =
      and_then-Step c (if c.is_rehydrate then rehydrate env c else waits c) _ (pick c.is_rehydrate)
        (λ c'. subscribe-Step c')
    where
      pick : (b : Bool) → Step c (state_of (if b then rehydrate env c else waits c))
      pick true = rehydrate-Step c
      pick false = no_step c

  pub run-Step : (c : Coordinator) (events : List Event) → Step c (state_of (run env c events))
  unfolding run
  run-Step c events = and_then-Step c (begin env c) _ (begin-Step c) (λ c'. run_loop-Step c' events)

credit-le : (o : Option NodeStatus) → credit o ≤ 1
credit-le (some pending) = omega arith
credit-le (some s) = ground arith
credit-le none = omega arith

module _ (env : Env) (run_id server_id : Str) (pipeline : Pipeline) (config : Config)
    (has_status_reporter : Bool) (run_context : RunContext) (maps : LoadsMaps env) where
  -- Of a store that returns states with distinct keys: a coordinator that `start_coordinator` spawns
  -- hands each node to the dispatcher at most once, whatever events come in and whatever the services
  -- answer.
  pub started_dispatches-le :
      (c : Coordinator) (events : List Event) (n : Str)
      → start_coordinator env run_id server_id pipeline config has_status_reporter run_context
        ≡ some c
      → dispatches n (state_of (run env c events)).trace ≤ 1
  started_dispatches-le c events n h =
      let s =
        start_coordinator-Started env run_id server_id pipeline config has_status_reporter
          run_context maps c h in
      let thrifty =
        run-Step env c events (record { distinct = s.distinct; cache_named = s.cache_named }) in
      omega (arith, thrifty.spends n, s.dispatched_none n, credit-le (get n c.run.statuses))
