-- ===== src/Coordinator/Handlers/Settled.antt =====
-- Lemmas on the handlers (coordinator/src/coordinator.rs): which nodes are ready when a handler
-- returns, and the keys of the statuses.
use jefferies.Prelude.{
  Str, str_inst, ◌≡◌, refl, sym, subst, Bool, true, false, Option, none, some, List, [], ◌∷◌, IsMap,
  arith, is_empty, Bool-cases, inl, inr, Result, ok, err, get, insert-IsMap,
}
use jefferies.Run.{PipelineRun, ready_nodes, mark_success, mark_failed, success, failed}
use jefferies.PodWatcher.{InfraFailureReason}
use jefferies.SourceManager.{ReconcileResult, completed}
use jefferies.Coordinator.State.{Coordinator, Env, call, cancel_node}
use jefferies.Coordinator.Records.{
  PersistError, persist_state, cancel_node_timeout, notify_watcher_of_deletion,
  record_node_completed,
}
use jefferies.Coordinator.Dispatch.{dispatch_ready_nodes}
use jefferies.Coordinator.Dispatch.Settles.{dispatch_settles, dispatch_ready_nodes-IsMap}
use jefferies.Coordinator.Frame.{
  cancel_node_timeout-run, notify_watcher_of_deletion-run, persist_state-run,
  record_node_completed-run,
}
use jefferies.Coordinator.Handlers.{
  handle_node_infra_failed, handle_node_completed, fail_fast_enabled, is_done,
  handle_node_timed_out, stop_failed_node, after_failure, stopped_or, then_fold,
  fold_completions_from_outcomes,
}

-- No node of the run is ready.
abbrev pub Settled : Coordinator → Type 0
Settled c = is_empty (ready_nodes c.run) ≡ true

abbrev pub Distinct : Coordinator → Type 0
Distinct c = IsMap c.run.statuses

abbrev pub SettledUnlessEnded : Coordinator × Bool → Type 0
SettledUnlessEnded r = Distinct r.0 × (r.1 ≡ false → Settled r.0)

mark_success-Distinct :
    (run : PipelineRun) (n : Str) → IsMap run.statuses → IsMap (mark_success run n).0.statuses
unfolding mark_success
mark_success-Distinct run n h = ground (arith, insert-IsMap n success run.statuses h)

mark_failed-Distinct :
    (run : PipelineRun) (n : Str) → IsMap run.statuses → IsMap (mark_failed run n).0.statuses
unfolding mark_failed
mark_failed-Distinct run n h = ground (arith, insert-IsMap n failed run.statuses h)

stopped_or-Settled :
    (r : Coordinator × Result PersistError (Unit {0})) (k : Coordinator → Coordinator × Bool)
    → Distinct r.0
    → (Distinct r.0 → SettledUnlessEnded (k r.0))
    → SettledUnlessEnded (stopped_or r k)
stopped_or-Settled (c, err e) k h f = (h, λ p. cc)
stopped_or-Settled (c, ok u) k h f = f h

-- As above, for a handler that may also leave the state as it was.
abbrev pub KeepsSettled : Coordinator → Coordinator × Bool → Type 0
KeepsSettled c r = Distinct r.0 × (r.1 ≡ false → Settled c → Settled r.0)

pub weaken : (c : Coordinator) (r : Coordinator × Bool) → SettledUnlessEnded r → KeepsSettled c r
weaken c r (d, s) = (d, λ e _. s e)

pub then_fold-Settled :
    (c : Coordinator) (r : Coordinator × Bool) (k : Coordinator → Coordinator × Bool)
    → SettledUnlessEnded r
    → ((c' : Coordinator) → Distinct c' → KeepsSettled c' (k c'))
    → KeepsSettled c (then_fold r k)
then_fold-Settled c (c', true) k (d, s) f = (d, λ e. cc)
then_fold-Settled c (c', false) k (d, s) f = let (d', s') = f c' d in (d', λ e _. s' e (s refl))

module _ (env : Env) where
  dispatch-Settled :
      (c : Coordinator) → Distinct c → SettledUnlessEnded (dispatch_ready_nodes env c, false)
  dispatch-Settled c h = (dispatch_ready_nodes-IsMap env c h, λ _. dispatch_settles env c h)

  after_failure-Settled : (c : Coordinator) → Distinct c → SettledUnlessEnded (after_failure env c)
  unfolding after_failure
  after_failure-Settled c h = elim (Bool-cases (fail_fast_enabled c)) [
    | inl fast ↦ rw fast (h, λ p. cc)
    | inr slow ↦ rw slow (dispatch-Settled c h)
  ]

  persist_state-Distinct : (c : Coordinator) → Distinct c → Distinct (persist_state env c).0
  persist_state-Distinct c h =
      subst (λ (r : PipelineRun). IsMap r.statuses) (sym (persist_state-run env c)) h

  recorded-Distinct :
      (c : Coordinator) (n : Str) (r : Option InfraFailureReason)
      → Distinct c
      → Distinct (record_node_completed env c n r)
  recorded-Distinct c n r h =
      subst (λ (r : PipelineRun). IsMap r.statuses) (sym (record_node_completed-run env c n r)) h

  stop_failed_node-Settled :
      (c : Coordinator) (n : Str) (r : Option InfraFailureReason)
      → Distinct c
      → SettledUnlessEnded (stop_failed_node env c n r)
  unfolding stop_failed_node
  stop_failed_node-Settled c n r h =
      stopped_or-Settled (persist_state env c)
        (λ c1.
          after_failure env (
            record_node_completed env (call (cancel_node n) (notify_watcher_of_deletion c1 n)) n r))
        (persist_state-Distinct c h)
        λ d.
          let c1 = (persist_state env c).0 in
          let c2 = call (cancel_node n) (notify_watcher_of_deletion c1 n) in
          let h2 : Distinct c2 =
            subst (λ (r : PipelineRun). IsMap r.statuses)
              (sym (notify_watcher_of_deletion-run c1 n)) d in
          after_failure-Settled (record_node_completed env c2 n r) (recorded-Distinct c2 n r h2)

  pub handle_node_completed-Settled :
      (c : Coordinator) (n : Str) (succeeded : Bool)
      → Distinct c
      → SettledUnlessEnded (handle_node_completed env c n succeeded)
  unfolding handle_node_completed
  handle_node_completed-Settled c n true h =
      let c1 = record c { run = (mark_success c.run n).0 } in
      stopped_or-Settled (persist_state env c1)
        (λ c2. (dispatch_ready_nodes env (record_node_completed env c2 n none), false))
        (persist_state-Distinct c1 (mark_success-Distinct c.run n h))
        λ d.
          let c2 = (persist_state env c1).0 in
          dispatch-Settled (record_node_completed env c2 n none) (recorded-Distinct c2 n none d)
  handle_node_completed-Settled c n false h =
      let c1 = record c { run = (mark_failed c.run n).0 } in
      stopped_or-Settled (persist_state env c1)
        (λ c2. after_failure env (record_node_completed env c2 n none))
        (persist_state-Distinct c1 (mark_failed-Distinct c.run n h))
        λ d.
          let c2 = (persist_state env c1).0 in
          after_failure-Settled (record_node_completed env c2 n none)
            (recorded-Distinct c2 n none d)

  cancelled-Distinct : (c : Coordinator) (n : Str) → Distinct c → Distinct (cancel_node_timeout c n)
  cancelled-Distinct c n h =
      subst (λ (r : PipelineRun). IsMap r.statuses) (sym (cancel_node_timeout-run c n)) h

  failed_here : Coordinator → Str → Coordinator
  failed_here c n = record c { run = (mark_failed c.run n).0 }

  pub handle_node_timed_out-Settled :
      (c : Coordinator) (n : Str) → Distinct c → KeepsSettled c (handle_node_timed_out env c n)
  unfolding handle_node_timed_out failed_here
  handle_node_timed_out-Settled c n h = elim (Bool-cases (mark_failed c.run n).1) [
    | inl done ↦ rw done (
        weaken c (stop_failed_node env (failed_here c n) n none)
          (stop_failed_node-Settled (failed_here c n) n none (mark_failed-Distinct c.run n h)))
    | inr ignored ↦ rw ignored (h, λ _ s. s)
  ]

  pub handle_node_infra_failed-Settled :
      (c : Coordinator) (n : Str) (r : InfraFailureReason)
      → Distinct c
      → KeepsSettled c (handle_node_infra_failed env c n r)
  unfolding handle_node_infra_failed failed_here
  handle_node_infra_failed-Settled c n r h = elim (Bool-cases (is_done (get n c.run.statuses))) [
    | inl done ↦ rw done (h, λ _ s. s)
    | inr open_node ↦ rw open_node (elim (Bool-cases (mark_failed c.run n).1) [
      | inl done ↦
          let c1 = cancel_node_timeout (failed_here c n) n in
          rw done (
            weaken c (stop_failed_node env c1 n (some r)) (
              stop_failed_node-Settled c1 n (some r)
                (cancelled-Distinct (failed_here c n) n (mark_failed-Distinct c.run n h))))
      | inr ignored ↦ rw ignored (h, λ _ s. s)
    ])
  ]

  pub fold-Settled :
      (outcomes : List (Str × ReconcileResult)) (c : Coordinator)
      → Distinct c
      → KeepsSettled c (fold_completions_from_outcomes env outcomes c)
  unfolding fold_completions_from_outcomes
  fold-Settled [] c h = (h, λ _ s. s)
  fold-Settled ((n, completed b st fin) ∷ outcomes) c h =
      then_fold-Settled c (handle_node_completed env (cancel_node_timeout c n) n b)
        (fold_completions_from_outcomes env outcomes)
        (handle_node_completed-Settled (cancel_node_timeout c n) n b (cancelled-Distinct c n h))
        (λ c' d. fold-Settled outcomes c' d)
  fold-Settled (other ∷ outcomes) c h = fold-Settled outcomes c h
