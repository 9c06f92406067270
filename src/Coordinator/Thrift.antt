-- ===== src/Coordinator/Thrift.antt =====
-- Counting how often the coordinator hands a node to the dispatcher
-- (coordinator/src/coordinator.rs): a pending node has the credit of one dispatch, which is spent
-- with its status.
pub mod Handlers
pub mod Finish
pub mod Loop
use jefferies.Prelude.{
  ℕ, ◌+◌, ◌≤◌, Str, str_inst, str_eq_iff, ◌≡◌, refl, sym, ◌∙◌, subst, Bool, true, false, ◌&&◌,
  Option, none, some, List, [], ◌∷◌, get, contains, IsMap, All, arith, str_eq_refl,
}
use jefferies.Run.{
  NodeStatus, pending, same_status, deps_satisfied, ready_nodes, mark_running, mark_success,
  mark_failed,
}
use jefferies.Run.Marks.{
  Mark, start, succeed, fail, fail_dispatch, apply_mark, get-mark, mark-IsMap,
}
use jefferies.Run.Sets.{IsDistinct}
use jefferies.Run.Ready.{ready_nodes_exact}
use jefferies.Coordinator.State.{Coordinator, Env, Call}
use jefferies.Coordinator.Dispatch.{dispatch_node, dispatch_nodes, dispatch_ready_nodes}
use jefferies.Coordinator.Dispatch.Once.{
  dispatches, CacheNamed, asked, Round, dispatch_node-Round, filtered-IsDistinct,
}
use jefferies.Coordinator.Dispatch.Settles.{DispatchMark, Marks, dispatch_node-Marks}

abbrev pub credit : Option NodeStatus → ℕ
credit (some pending) = 1
credit _ = 0

-- The dispatches of a node, and the one that it may still get.
abbrev pub spent : Str → Coordinator → ℕ
spent n c = dispatches n c.trace + credit (get n c.run.statuses)

pub record Sound (c : Coordinator) : Type 0 where
  pub distinct : IsMap c.run.statuses
  pub cache_named : CacheNamed c.node_info_cache

pub record Thrifty (c c' : Coordinator) : Type 0 where
  pub sound : Sound c'
  pub spends : (n : Str) → spent n c' ≤ spent n c

-- From a sound coordinator on, no node gains a dispatch.
abbrev pub Step : Coordinator → Coordinator → Type 0
Step c c' = Sound c → Thrifty c c'

pub no_step : (c : Coordinator) → Step c c
no_step c s = record { sound = s; spends = λ n. omega arith }

pub steps : (a b c : Coordinator) → Step a b → Step b c → Step a c
steps a b c f g s =
    let first = f s in
    let second = g first.sound in
    record { sound = second.sound; spends = λ n. omega (arith, first.spends n, second.spends n) }

-- A step that changes neither the run nor the cache and dispatches nothing.
pub quiet :
    (c c' : Coordinator)
    → c'.run ≡ c.run
    → c'.node_info_cache ≡ c.node_info_cache
    → ((n : Str) → dispatches n c'.trace ≡ dispatches n c.trace)
    → Step c c'
quiet c c' r k d s = record {
  sound = record { distinct = rw r s.distinct; cache_named = rw k s.cache_named };
  spends = λ n. rw (r, d n) (omega arith);
}

credit-mark :
    (m : Mark) (c : Coordinator) (j n : Str)
    → credit (get n (apply_mark m c.run j).0.statuses) ≤ credit (get n c.run.statuses)
credit-mark start c j n = ground (arith, get-mark start c.run j n)
credit-mark succeed c j n = ground (arith, get-mark succeed c.run j n)
credit-mark fail c j n = ground (arith, get-mark fail c.run j n)
credit-mark fail_dispatch c j n = ground (arith, get-mark fail_dispatch c.run j n)

pub marked :
    (m : Mark) (c : Coordinator) (j : Str) → Step c (record c { run = (apply_mark m c.run j).0 })
marked m c j s = record {
  sound = record { distinct = mark-IsMap m c.run j s.distinct; cache_named = s.cache_named };
  spends = λ n. omega (arith, credit-mark m c j n);
}

All-contains :
    (P : Str → Type 0) (xs : List Str) → ((d : Str) → contains xs d ≡ true → P d) → All P xs
unfolding contains
All-contains P [] f = tt
All-contains P (x ∷ xs) f =
    (f x (rw (str_eq_refl x)), All-contains P xs (λ d c. f d (ground arith)))

abbrev Pending : Coordinator → Str → Type 0
Pending c n = get n c.run.statuses ≡ some pending

module _ (env : Env) where
  dispatched_spent :
      (m : Mark) (c : Coordinator) (j n : Str) (c' : Coordinator)
      → DispatchMark m
      → c'.run ≡ (apply_mark m c.run j).0
      → Pending c j
      → dispatches n c'.trace ≡ asked j n c.node_info_cache + dispatches n c.trace
      → spent n c' ≤ spent n c
  dispatched_spent start c j n c' d r p e =
      rw r (ground (arith, e, get-mark start c.run j n, str_eq_iff j n))
  dispatched_spent fail_dispatch c j n c' d r p e =
      rw r (ground (arith, e, get-mark fail_dispatch c.run j n, str_eq_iff j n))
  dispatched_spent succeed c j n c' d r p e = absurd d
  dispatched_spent fail c j n c' d r p e = absurd d

  dispatch_node-Step : (c : Coordinator) (j : Str) → Pending c j → Step c (dispatch_node env c j)
  unfolding Round
  dispatch_node-Step c j p s =
      let (m, d, r) = dispatch_node-Marks env c j in
      let (k, e) = dispatch_node-Round env c j s.cache_named in
      record {
        sound = record {
          distinct = rw r (mark-IsMap m c.run j s.distinct);
          cache_named = rw k s.cache_named;
        };
        spends = λ n. dispatched_spent m c j n (dispatch_node env c j) d r p (e n);
      }

  still-Pending :
      (c : Coordinator) (j n : Str) → (j ≡ n → ⊥) → Pending c n → Pending (dispatch_node env c j) n
  still-Pending c j n other p =
      let (m, d, r) = dispatch_node-Marks env c j in
      rw r (get-mark m c.run j n ∙ ground (arith, str_eq_iff j n))

  All-still-Pending :
      (c : Coordinator) (j : Str) (nodes : List Str)
      → contains nodes j ≡ false
      → All (Pending c) nodes
      → All (Pending (dispatch_node env c j)) nodes
  unfolding contains
  All-still-Pending c j [] a h = tt
  All-still-Pending c j (n ∷ nodes) a h = (
    still-Pending c j n (λ e. ground (arith, str_eq_iff n j)) h.0,
    All-still-Pending c j nodes (ground arith) h.1,
  )

  dispatch_nodes-Step :
      (c : Coordinator) (nodes : List Str)
      → IsDistinct nodes
      → All (Pending c) nodes
      → Step c (dispatch_nodes env c nodes)
  unfolding dispatch_nodes
  dispatch_nodes-Step c [] d h = no_step c
  dispatch_nodes-Step c (j ∷ nodes) d h =
      steps c (dispatch_node env c j) (dispatch_nodes env (dispatch_node env c j) nodes)
        (dispatch_node-Step c j h.0)
        (dispatch_nodes-Step (dispatch_node env c j) nodes d.1
          (All-still-Pending c j nodes d.0 h.1))

  ready-IsDistinct : (c : Coordinator) → IsMap c.run.statuses → IsDistinct (ready_nodes c.run)
  unfolding ready_nodes
  ready-IsDistinct c h =
      filtered-IsDistinct (λ e. same_status e.1 pending && deps_satisfied c.run e.0) c.run.statuses
        h

  pub dispatch_ready_nodes-Step : (c : Coordinator) → Step c (dispatch_ready_nodes env c)
  unfolding dispatch_ready_nodes
  dispatch_ready_nodes-Step c s =
      dispatch_nodes-Step c (ready_nodes c.run) (ready-IsDistinct c s.distinct)
        (All-contains (Pending c) (ready_nodes c.run)
          (λ n r. ((ready_nodes_exact c.run n s.distinct).0 r).0))
        s
