-- ===== src/Coordinator/Dispatch/Settles.antt =====
-- The statuses after a dispatch of the ready nodes (`dispatch_ready_nodes` of
-- coordinator/src/coordinator.rs).
use jefferies.Prelude.{
  Str, str_inst, str_eq_iff, ◌≡◌, ◌≢◌, refl, sym, ap, ◌∙◌, subst, true, Option, none, some, List,
  [], ◌∷◌, get, contains, IsMap, arith, is_empty, Bool-cases, inl, inr, ◌⊎◌, ◌==◌,
}
use jefferies.Pipelines.{NodeInfo}
use jefferies.Run.{NodeStatus, pending, success, PipelineRun, ready_nodes}
use jefferies.Run.Marks.{
  Mark, start, succeed, fail, fail_dispatch, apply_mark, get-mark, mark-IsMap, mark-dependencies,
}
use jefferies.Run.Ready.{ready_nodes_exact, contains_of_nonempty}
use jefferies.Coordinator.State.{Coordinator, Env, call, dispatch, run_metadata}
use jefferies.Coordinator.Dispatch.{
  dispatch_success, dispatch_failure, answered, dispatch_known, dispatch_node, dispatch_nodes,
  dispatch_ready_nodes,
}
use jefferies.Coordinator.Frame.{persist_state-run}

-- What one round of the dispatch does to the statuses.
abbrev pub DispatchMark : Mark → Type 0
DispatchMark start = Unit
DispatchMark fail_dispatch = Unit
DispatchMark _ = ⊥

mark_back :
    (m : Mark) (run : PipelineRun) (n j : Str) (s : NodeStatus)
    → DispatchMark m
    → (s ≡ success) ⊎ (s ≡ pending)
    → get j (apply_mark m run n).0.statuses ≡ some s
    → get j run.statuses ≡ some s
mark_back start run n j s d k g = ground (arith, get-mark start run n j)
mark_back fail_dispatch run n j s d k g = ground (arith, get-mark fail_dispatch run n j)
mark_back succeed run n j s d k g = absurd d
mark_back fail run n j s d k g = absurd d

mark_done :
    (m : Mark) (run : PipelineRun) (n : Str)
    → DispatchMark m
    → get n (apply_mark m run n).0.statuses ≢ some pending
mark_done start run n d g = ground (arith, get-mark start run n n, str_eq_iff n n)
mark_done fail_dispatch run n d g = ground (arith, get-mark fail_dispatch run n n, str_eq_iff n n)
mark_done succeed run n d g = absurd d
mark_done fail run n d g = absurd d

module _ (env : Env) where
  dispatch_failure-run :
      (c : Coordinator) (n e : Str)
      → (dispatch_failure env c n e).run ≡ (apply_mark fail_dispatch c.run n).0
  unfolding dispatch_failure apply_mark
  dispatch_failure-run c n e = ground (arith, persist_state-run env)

  dispatch_success-run :
      (c : Coordinator) (n : Str) (node : NodeInfo)
      → (dispatch_success env c n node).run ≡ (apply_mark start c.run n).0
  unfolding dispatch_success apply_mark
  dispatch_success-run c n node = ground arith

  abbrev pub Marks : Coordinator → Str → Coordinator → Type 0
  Marks c n c' = (m : Mark) × DispatchMark m × (c'.run ≡ (apply_mark m c.run n).0)

  answered-Marks :
      (o : Option Str) (c : Coordinator) (n : Str) (node : NodeInfo)
      → Marks c n (answered env o c n node)
  answered-Marks none c n node = (start, tt, dispatch_success-run c n node)
  answered-Marks (some error) c n node = (fail_dispatch, tt, dispatch_failure-run c n error)

  known-Marks :
      (o : Option NodeInfo) (c : Coordinator) (n : Str) → Marks c n (dispatch_known env o c n)
  known-Marks none c n = (fail_dispatch, tt, dispatch_failure-run c n _)
  known-Marks (some node) c n =
      let c' = call (dispatch (run_metadata c.run_context) node) c in
      answered-Marks (env.dispatched c'.trace) c' n node

  -- One round marks its node as running or failed, and no other.
  pub dispatch_node-Marks : (c : Coordinator) (n : Str) → Marks c n (dispatch_node env c n)
  unfolding dispatch_node
  dispatch_node-Marks c n = known-Marks (get n c.node_info_cache) c n

  -- What is success after a round was success before, and what is pending was.
  round_back :
      (c : Coordinator) (n j : Str) (s : NodeStatus)
      → (s ≡ success) ⊎ (s ≡ pending)
      → get j (dispatch_node env c n).run.statuses ≡ some s
      → get j c.run.statuses ≡ some s
  round_back c n j s k g =
      let (m, d, e) = dispatch_node-Marks c n in
      mark_back m c.run n j s d k (subst (λ (r : PipelineRun). get j r.statuses ≡ some s) e g)

  -- The node of the round is not pending after it.
  round_done :
      (c : Coordinator) (n : Str) → get n (dispatch_node env c n).run.statuses ≢ some pending
  round_done c n g =
      let (m, d, e) = dispatch_node-Marks c n in
      mark_done m c.run n d (subst (λ (r : PipelineRun). get n r.statuses ≡ some pending) e g)

  round_dependencies :
      (c : Coordinator) (n : Str) → (dispatch_node env c n).run.dependencies ≡ c.run.dependencies
  round_dependencies c n =
      let (m, d, e) = dispatch_node-Marks c n in
      ap (λ (r : PipelineRun). r.dependencies) e ∙ mark-dependencies m c.run n

  round_IsMap :
      (c : Coordinator) (n : Str)
      → IsMap c.run.statuses
      → IsMap (dispatch_node env c n).run.statuses
  round_IsMap c n h =
      let (m, d, e) = dispatch_node-Marks c n in
      subst (λ (r : PipelineRun). IsMap r.statuses) (sym e) (mark-IsMap m c.run n h)

  rounds_back :
      (c : Coordinator) (ns : List Str) (j : Str) (s : NodeStatus)
      → (s ≡ success) ⊎ (s ≡ pending)
      → get j (dispatch_nodes env c ns).run.statuses ≡ some s
      → get j c.run.statuses ≡ some s
  unfolding dispatch_nodes
  rounds_back c [] j s k g = g
  rounds_back c (n ∷ ns) j s k g =
      round_back c n j s k (rounds_back (dispatch_node env c n) ns j s k g)

  rounds_done :
      (c : Coordinator) (ns : List Str) (j : Str)
      → contains ns j ≡ true
      → get j (dispatch_nodes env c ns).run.statuses ≢ some pending
  unfolding dispatch_nodes contains
  rounds_done c [] j h g = cc
  rounds_done c (n ∷ ns) j h g = elim (Bool-cases (n == j)) [
    | inl same ↦ round_done c n (
        rounds_back (dispatch_node env c n) ns n pending (inr refl) (
          subst
            (λ (x : Str).
              get x (dispatch_nodes env (dispatch_node env c n) ns).run.statuses ≡ some pending)
            (sym ((str_eq_iff n j).0 same)) g))
    | inr other ↦ rounds_done (dispatch_node env c n) ns j (ground arith) g
  ]

  pub rounds_dependencies :
      (c : Coordinator) (ns : List Str)
      → (dispatch_nodes env c ns).run.dependencies ≡ c.run.dependencies
  unfolding dispatch_nodes
  rounds_dependencies c [] = refl
  rounds_dependencies c (n ∷ ns) =
      rounds_dependencies (dispatch_node env c n) ns ∙ round_dependencies c n

  rounds_IsMap :
      (c : Coordinator) (ns : List Str)
      → IsMap c.run.statuses
      → IsMap (dispatch_nodes env c ns).run.statuses
  unfolding dispatch_nodes
  rounds_IsMap c [] h = h
  rounds_IsMap c (n ∷ ns) h = rounds_IsMap (dispatch_node env c n) ns (round_IsMap c n h)

  pub dispatch_ready_nodes-IsMap :
      (c : Coordinator) → IsMap c.run.statuses → IsMap (dispatch_ready_nodes env c).run.statuses
  unfolding dispatch_ready_nodes
  dispatch_ready_nodes-IsMap c h = rounds_IsMap c (ready_nodes c.run) h

  -- After `dispatch_ready_nodes`, on a run whose statuses have distinct keys, no node is ready,
  -- whatever the services answer.
  pub dispatch_settles :
      (c : Coordinator)
      → IsMap c.run.statuses
      → is_empty (ready_nodes (dispatch_ready_nodes env c).run) ≡ true
  unfolding dispatch_ready_nodes
  dispatch_settles c h = elim (Bool-cases (is_empty (ready_nodes done.run))) [
    | inl e ↦ e
    | inr e ↦
        let (n, r) = contains_of_nonempty (ready_nodes done.run) e in
        let (p, d) = (ready_nodes_exact done.run n (rounds_IsMap c (ready_nodes c.run) h)).0 r in
        absurd (
          rounds_done c (ready_nodes c.run) n
            ((ready_nodes_exact c.run n h).1 (
              rounds_back c (ready_nodes c.run) n pending (inr refl) p,
              λ deps found x m. rounds_back c (ready_nodes c.run) x success (inl refl) (
                  d deps
                    (subst (λ (m : List (Str × List Str)). get n m ≡ some deps)
                      (sym (rounds_dependencies c (ready_nodes c.run))) found)
                    x m),
            ))
            p)
  ]
    where
      done : Coordinator
      done = dispatch_nodes env c (ready_nodes c.run)
