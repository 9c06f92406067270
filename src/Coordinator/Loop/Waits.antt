-- ===== src/Coordinator/Loop/Waits.antt =====
-- The state in which the loop waits for its next event (coordinator/src/coordinator.rs).
use jefferies.Prelude.{
  Str, str_inst, ◌≡◌, refl, sym, subst, Bool, true, false, some, List, [], ◌∷◌, IsMap, arith,
  is_empty, Bool-cases, inl, inr, get, any_of_get, if◌then◌else◌,
}
use jefferies.Run.{running, same_status, PipelineRun, ready_nodes, is_complete}
use jefferies.PodWatcher.{pod_start_timeout}
use jefferies.Coordinator.State.{
  Coordinator, Env, call, subscribe_run, renew_lease, Message, node_timed_out, node_pod_running,
  node_infra_failed, node_pod_start_timed_out,
}
use jefferies.Coordinator.Records.{cancel_node_timeout}
use jefferies.Coordinator.Frame.{cancel_node_timeout-run}
use jefferies.Coordinator.Dispatch.{dispatch_ready_nodes}
use jefferies.Coordinator.Dispatch.Settles.{dispatch_settles, dispatch_ready_nodes-IsMap}
use jefferies.Coordinator.Handlers.{
  handle_pod_running, handle_node_completed, read_outcomes_for_non_terminal,
  fold_completions_from_outcomes, reconcile_running_against_s3, handle_pod_start_timed_out,
}
use jefferies.Coordinator.Handlers.Settled.{
  Distinct, Settled, KeepsSettled, weaken, handle_node_completed-Settled,
  handle_node_timed_out-Settled, handle_node_infra_failed-Settled, fold-Settled,
}
use jefferies.Coordinator.Rehydrate.{promote_started_pending_to_running, rehydrate_phase_timers}
use jefferies.Coordinator.Rehydrate.Keeps.{promote-Distinct, rehydrate_phase_timers-run}
use jefferies.Coordinator.Loop.{
  Event, pipeline_deadline, heartbeat, s3_reconcile, channel_closed, cancel, subscription_closed,
  message, node_completed, Next, waits, ends, checked, on_message, on_event, run_loop, rehydrate,
  subscribe, begin, run, and_then, unless_ended,
}

-- No node is ready and the run is not complete.
abbrev Waiting : Next → Type 0
Waiting (waits c) = Distinct c × Settled c × (is_complete c.run ≡ false)
Waiting (ends r) = Unit

abbrev WaitsDistinct : Next → Type 0
WaitsDistinct (waits c) = Distinct c
WaitsDistinct (ends r) = Unit

handle_pod_running-run : (c : Coordinator) (n : Str) → (handle_pod_running c n).run ≡ c.run
unfolding handle_pod_running
handle_pod_running-run c n = ground arith

module _ (env : Env) where
  checked-Waiting :
      (c : Coordinator) (r : Coordinator × Bool)
      → KeepsSettled c r
      → Settled c
      → Waiting (checked env r)
  unfolding checked
  checked-Waiting c (c', true) k s = tt
  checked-Waiting c (c', false) k s = elim (Bool-cases (is_complete c'.run)) [
    | inl e ↦ rw e tt
    | inr e ↦ rw e (k.0, k.1 refl s, e)
  ]

  same-Waiting :
      (c c' : Coordinator)
      → c'.run ≡ c.run
      → Distinct c × Settled c × (is_complete c.run ≡ false)
      → Distinct c' × Settled c' × (is_complete c'.run ≡ false)
  same-Waiting c c' e w =
      subst
        (λ (r : PipelineRun).
          IsMap r.statuses × (is_empty (ready_nodes r) ≡ true) × (is_complete r ≡ false))
        (sym e) w

  on_message-Waiting :
      (c : Coordinator) (m : Message)
      → Distinct c × Settled c × (is_complete c.run ≡ false)
      → Waiting (on_message env c m)
  unfolding on_message handle_pod_start_timed_out
  on_message-Waiting c (node_timed_out n) w =
      checked-Waiting c _ (handle_node_timed_out-Settled env c n w.0) w.1
  on_message-Waiting c (node_pod_running n) w =
      same-Waiting c (handle_pod_running c n) (handle_pod_running-run c n) w
  on_message-Waiting c (node_infra_failed n r) w =
      checked-Waiting c _ (handle_node_infra_failed-Settled env c n r w.0) w.1
  on_message-Waiting c (node_pod_start_timed_out n) w =
      checked-Waiting c _ (handle_node_infra_failed-Settled env c n pod_start_timeout w.0) w.1

  read_outcomes-run : (c : Coordinator) → (read_outcomes_for_non_terminal env c).0.run ≡ c.run
  unfolding read_outcomes_for_non_terminal
  read_outcomes-run c = ground arith

  reconcile-Settled :
      (c : Coordinator) → Distinct c → KeepsSettled c (reconcile_running_against_s3 env c)
  unfolding reconcile_running_against_s3
  reconcile-Settled c h =
      let c' = (read_outcomes_for_non_terminal env c).0 in
      let outcomes = (read_outcomes_for_non_terminal env c).1 in
      let (d, s) =
        fold-Settled env outcomes c'
          (subst (λ (r : PipelineRun). IsMap r.statuses) (sym (read_outcomes-run c)) h) in
      (
        d,
        λ e q. s e (
            subst (λ (r : PipelineRun). is_empty (ready_nodes r) ≡ true) (sym (read_outcomes-run c))
              q),
      )

  on_event-Waiting :
      (c : Coordinator) (e : Event)
      → Distinct c × Settled c × (is_complete c.run ≡ false)
      → Waiting (on_event env c e)
  unfolding on_event
  on_event-Waiting c pipeline_deadline w = tt
  on_event-Waiting c heartbeat w =
      elim (Bool-cases (env.renewed (renew_lease c.server_id c.lease_version ∷ c.trace))) [
        | inl held ↦ rw held w
        | inr lost ↦ rw lost tt
      ]
  on_event-Waiting c s3_reconcile w =
      checked-Waiting c (reconcile_running_against_s3 env c) (reconcile-Settled c w.0) w.1
  on_event-Waiting c channel_closed w = w
  on_event-Waiting c cancel w = tt
  on_event-Waiting c subscription_closed w = tt
  on_event-Waiting c (message m) w = on_message-Waiting c m w
  on_event-Waiting c (node_completed n b) w =
      let c' = cancel_node_timeout c n in
      let r = handle_node_completed env c' n b in
      checked-Waiting c r
        (weaken c r (
          handle_node_completed-Settled env c' n b (
            subst (λ (r : PipelineRun). IsMap r.statuses) (sym (cancel_node_timeout-run c n)) w.0)))
        w.1

  and_then-Waiting :
      (n : Next) (k : Coordinator → Next)
      → Waiting n
      → ((c : Coordinator) → Distinct c × Settled c × (is_complete c.run ≡ false) → Waiting (k c))
      → Waiting (and_then env n k)
  and_then-Waiting (waits c) k w f = f c w
  and_then-Waiting (ends r) k w f = tt

  run_loop-Waiting :
      (c : Coordinator) (es : List Event)
      → Distinct c × Settled c × (is_complete c.run ≡ false)
      → Waiting (run_loop env c es)
  unfolding run_loop
  run_loop-Waiting c [] w = w
  run_loop-Waiting c (e ∷ es) w =
      and_then-Waiting (on_event env c e) (λ c'. run_loop env c' es) (on_event-Waiting c e w)
        (λ c' w'. run_loop-Waiting c' es w')

  subscribe-Waiting : (c : Coordinator) → Distinct c → Waiting (subscribe env c)
  unfolding subscribe
  subscribe-Waiting c h =
      let c' = call subscribe_run c in
      let d = dispatch_ready_nodes env c' in
      let s = dispatch_settles env c' h in
      elim (Bool-cases (env.subscribed c'.trace)) [
        | inl open_sub ↦
            rw open_sub
              (checked-Waiting d (d, false) (dispatch_ready_nodes-IsMap env c' h, λ _ x. x) s)
        | inr closed ↦ rw closed tt
      ]

  and_then-Distinct :
      (n : Next) (k : Coordinator → Next)
      → WaitsDistinct n
      → ((c : Coordinator) → Distinct c → WaitsDistinct (k c))
      → WaitsDistinct (and_then env n k)
  and_then-Distinct (waits c) k w f = f c w
  and_then-Distinct (ends r) k w f = tt

  unless_ended-Distinct :
      (r : Coordinator × Bool) → Distinct r.0 → WaitsDistinct (unless_ended env r)
  unless_ended-Distinct (c, true) d = tt
  unless_ended-Distinct (c, false) d = d

  checked-Distinct : (r : Coordinator × Bool) → Distinct r.0 → WaitsDistinct (checked env r)
  unfolding checked
  checked-Distinct (c, true) d = tt
  checked-Distinct (c, false) d = elim (Bool-cases (is_complete c.run)) [
    | inl e ↦ rw e tt
    | inr e ↦ rw e d
  ]

  rehydrate-Distinct : (c : Coordinator) → Distinct c → WaitsDistinct (rehydrate env c)
  unfolding rehydrate
  rehydrate-Distinct c h =
      let c1 = (read_outcomes_for_non_terminal env c).0 in
      let outcomes = (read_outcomes_for_non_terminal env c).1 in
      let folded = fold_completions_from_outcomes env outcomes c1 in
      let h1 : Distinct c1 =
        subst (λ (r : PipelineRun). IsMap r.statuses) (sym (read_outcomes-run c)) h in
      and_then-Distinct (unless_ended env folded) _
        (unless_ended-Distinct folded (fold-Settled env outcomes c1 h1).0)
        λ c2 h2.
          let promoted = promote_started_pending_to_running env c2 outcomes in
          and_then-Distinct (unless_ended env promoted) _
            (unless_ended-Distinct promoted (promote-Distinct env c2 outcomes h2))
            λ c3 h3.
              checked-Distinct (rehydrate_phase_timers env c3 outcomes, false)
                (subst (λ (r : PipelineRun). IsMap r.statuses)
                  (sym (rehydrate_phase_timers-run env c3 outcomes)) h3)

  subscribed-Waiting : (n : Next) → WaitsDistinct n → Waiting (and_then env n (subscribe env))
  subscribed-Waiting (waits c) h = subscribe-Waiting c h
  subscribed-Waiting (ends r) h = tt

  start-Distinct :
      (b : Bool) (c : Coordinator)
      → Distinct c
      → WaitsDistinct (if b then rehydrate env c else waits c)
  start-Distinct true c h = rehydrate-Distinct c h
  start-Distinct false c h = h

  begin-Waiting : (c : Coordinator) → Distinct c → Waiting (begin env c)
  unfolding begin
  begin-Waiting c h =
      subscribed-Waiting (if c.is_rehydrate then rehydrate env c else waits c)
        (start-Distinct c.is_rehydrate c h)

  -- Some node of a waiting coordinator is running.
  abbrev pub SomeNodeRuns : Next → Type 0
  SomeNodeRuns (waits c) = (n : Str) × (get n c.run.statuses ≡ some running)
  SomeNodeRuns (ends r) = Unit

  Waiting-SomeNodeRuns : (n : Next) → Waiting n → SomeNodeRuns n
  unfolding is_complete
  Waiting-SomeNodeRuns (ends r) w = tt
  Waiting-SomeNodeRuns (waits c) w =
      let (n, s, g, q) =
        any_of_get (λ e. same_status e.1 running) c.run.statuses w.0 (ground arith) in
      (n, ground arith)

  -- A coordinator that starts with distinct keys in its node statuses and waits for its next event
  -- has a running node, whatever events have come in and whatever the services answer.
  pub run-SomeNodeRuns :
      (c : Coordinator) (events : List Event) → Distinct c → SomeNodeRuns (run env c events)
  unfolding run
  run-SomeNodeRuns c events h = Waiting-SomeNodeRuns (run env c events) (
      and_then-Waiting (begin env c) (λ c'. run_loop env c' events) (begin-Waiting c h)
        (λ c' w. run_loop-Waiting c' events w))
