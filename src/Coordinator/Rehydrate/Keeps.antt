-- ===== src/Coordinator/Rehydrate/Keeps.antt =====
-- Lemmas on the taking over of a run (coordinator/src/coordinator.rs): the keys of the statuses, and
-- the statuses while timers are armed.
use jefferies.Prelude.{
  Str, str_inst, ◌≡◌, refl, sym, subst, Bool, true, false, Option, none, some, List, [], ◌∷◌, IsMap,
  arith, Bool-cases, inl, inr, insert-IsMap, ℕ, ◌∙◌,
}
use jefferies.Run.{PipelineRun, running, mark_running}
use jefferies.SourceManager.{ReconcileResult}
use jefferies.PodWatcher.{pod_deleted_unexpectedly}
use jefferies.Coordinator.State.{Coordinator, Env, call, node_pod_exists, system_time}
use jefferies.Coordinator.Finish.{running_nodes}
use jefferies.Coordinator.Records.{persist_state}
use jefferies.Coordinator.Frame.{persist_state-run}
use jefferies.Coordinator.Handlers.{then_fold}
use jefferies.Coordinator.Handlers.Settled.{Distinct, handle_node_infra_failed-Settled}
use jefferies.Coordinator.Rehydrate.{
  pod_checked, promote_node, promote_nodes, promote_started_pending_to_running, rearm_node,
  rearm_nodes, rehydrate_phase_timers,
}

mark_running-Distinct :
    (run : PipelineRun) (n : Str) → IsMap run.statuses → IsMap (mark_running run n).0.statuses
unfolding mark_running
mark_running-Distinct run n h = ground (arith, insert-IsMap n running run.statuses h)

then_fold-Distinct :
    (r : Coordinator × Bool) (k : Coordinator → Coordinator × Bool)
    → Distinct r.0
    → ((c : Coordinator) → Distinct c → Distinct (k c).0)
    → Distinct (then_fold r k).0
then_fold-Distinct (c, true) k d f = d
then_fold-Distinct (c, false) k d f = f c d

module _ (env : Env) where
  pod_checked-Distinct :
      (o : Option Bool) (c : Coordinator) (n : Str)
      → Distinct c
      → Distinct (pod_checked env o c n).0
  pod_checked-Distinct (some false) c n h =
      (handle_node_infra_failed-Settled env c n pod_deleted_unexpectedly h).0
  pod_checked-Distinct (some true) c n h = h
  pod_checked-Distinct none c n h = h

  promote_node-Distinct :
      (c : Coordinator) (n : Str) → Distinct c → Distinct (promote_node env c n).0
  unfolding promote_node
  promote_node-Distinct c n h = elim (Bool-cases (mark_running c.run n).1) [
    | inl done ↦
        let c0 = record c { run = (mark_running c.run n).0 } in
        let c1 = (persist_state env c0).0 in
        let c2 = call (node_pod_exists n) c1 in
        rw done (
          pod_checked-Distinct (env.pod_exists c2.trace) c2 n (
            subst (λ (r : PipelineRun). IsMap r.statuses) (sym (persist_state-run env c0))
              (mark_running-Distinct c.run n h)))
    | inr ignored ↦ rw ignored h
  ]

  promote_nodes-Distinct :
      (ns : List Str) (c : Coordinator) → Distinct c → Distinct (promote_nodes env ns c).0
  unfolding promote_nodes
  promote_nodes-Distinct [] c h = h
  promote_nodes-Distinct (n ∷ ns) c h =
      then_fold-Distinct (promote_node env c n) (promote_nodes env ns) (promote_node-Distinct c n h)
        (λ c' d. promote_nodes-Distinct ns c' d)

  pub promote-Distinct :
      (c : Coordinator) (outcomes : List (Str × ReconcileResult))
      → Distinct c
      → Distinct (promote_started_pending_to_running env c outcomes).0
  unfolding promote_started_pending_to_running
  promote-Distinct c outcomes h = promote_nodes-Distinct _ c h

  rearm_node-run :
      (outcomes : List (Str × ReconcileResult)) (now : ℕ) (c : Coordinator) (n : Str)
      → (rearm_node env outcomes now c n).run ≡ c.run
  unfolding rearm_node
  rearm_node-run outcomes now c n = ground arith

  rearm_nodes-run :
      (outcomes : List (Str × ReconcileResult)) (now : ℕ) (ns : List Str) (c : Coordinator)
      → (rearm_nodes env outcomes now ns c).run ≡ c.run
  unfolding rearm_nodes
  rearm_nodes-run outcomes now [] c = refl
  rearm_nodes-run outcomes now (n ∷ ns) c =
      rearm_nodes-run outcomes now ns (rearm_node env outcomes now c n)
      ∙ rearm_node-run outcomes now c n

  pub rehydrate_phase_timers-run :
      (c : Coordinator) (outcomes : List (Str × ReconcileResult))
      → (rehydrate_phase_timers env c outcomes).run ≡ c.run
  unfolding rehydrate_phase_timers
  rehydrate_phase_timers-run c outcomes =
      let c' = call system_time c in
      rearm_nodes-run outcomes (env.now_ms c'.trace) (running_nodes c') c'
