-- ===== src/Coordinator/Dispatch/Once.antt =====
-- Which nodes `dispatch_ready_nodes` hands to the dispatcher (coordinator/src/coordinator.rs).
use jefferies.Prelude.{
  ℕ, ◌+◌, Str, str_inst, str_eq, str_eq_iff, ◌≡◌, refl, sym, ap, ◌∙◌, Bool, true, false, ◌&&◌,
  Option, none, some, List, [], ◌∷◌, get, contains, contains_key, contains_key_of_get,
  get_of_contains_key, bytes, subst, IsMap, keys, filter, arith, if◌then◌else◌,
  contains-filter_absent, Bool-cases, inl, inr,
}
use jefferies.Pipelines.{NodeInfo}
use jefferies.Run.{NodeStatus, pending, same_status, deps_satisfied, ready_nodes}
use jefferies.Run.Sets.{IsDistinct}
use jefferies.Coordinator.State.{Coordinator, Env, Call, call, dispatch, run_metadata}
use jefferies.Coordinator.Records.{record_dispatch_failed, record_dispatched}
use jefferies.Coordinator.Dispatch.{
  arm_startup, dispatch_success, dispatch_failure, answered, dispatch_known, dispatch_node,
  dispatch_nodes, dispatch_ready_nodes,
}

-- How often a node was handed to the dispatcher.
unfoldable pub dispatches : Str → List Call → ℕ
dispatches n [] = 0
dispatches n (dispatch metadata node ∷ calls) =
    (if str_eq node.name n then 1 else 0) + dispatches n calls
dispatches n (other ∷ calls) = dispatches n calls

-- An entry of the cache is the info of its node.
abbrev pub CacheNamed : List (Str × NodeInfo) → Type 0
CacheNamed cache = (k : Str) (node : NodeInfo) → get k cache ≡ some node → node.name ≡ k

-- The two coordinators have the same cache, and the calls between them dispatch nothing.
abbrev Quiet : Coordinator → Coordinator → Type 0
Quiet c c' =
    (c'.node_info_cache ≡ c.node_info_cache)
    × ((n : Str) → dispatches n c'.trace ≡ dispatches n c.trace)

pub filtered-IsDistinct :
    (p : Str × NodeStatus → Bool) (m : List (Str × NodeStatus))
    → IsMap m
    → IsDistinct (keys (filter p m))
unfolding contains_key
filtered-IsDistinct p [] h = tt
filtered-IsDistinct p ((j, v) ∷ m) h = elim (Bool-cases (p (j, v))) [
  | inl met ↦ rw met (contains-filter_absent p j m h.0, filtered-IsDistinct p m h.1)
  | inr not_met ↦ rw not_met (filtered-IsDistinct p m h.1)
]

absent_key :
    (j : Str) (cache : List (Str × NodeInfo)) → get j cache ≡ none → contains_key j cache ≡ false
absent_key j cache absent = elim (Bool-cases (contains_key j cache)) [
  | inl there ↦ let (node, found) = get_of_contains_key j cache there in cc
  | inr not_there ↦ not_there
]

-- One round: the node goes to the dispatcher if the cache has its info.
abbrev pub asked : Str → Str → List (Str × NodeInfo) → ℕ
asked j n cache = if str_eq j n && contains_key j cache then 1 else 0

handed :
    (c : Coordinator) (j : Str) (node : NodeInfo) (n : Str)
    → node.name ≡ j
    → contains_key j c.node_info_cache ≡ true
    → dispatches n (dispatch (run_metadata c.run_context) node ∷ c.trace)
      ≡ asked j n c.node_info_cache + dispatches n c.trace
unfolding dispatches
handed c j node n name there = rw (name, there) (ground arith)

module _ (env : Env) where
  dispatch_failure-Quiet : (c : Coordinator) (n e : Str) → Quiet c (dispatch_failure env c n e)
  unfolding dispatch_failure record_dispatch_failed dispatches
  dispatch_failure-Quiet c n e = (ground arith, λ n. ground arith)

  dispatch_success-Quiet :
      (c : Coordinator) (n : Str) (node : NodeInfo) → Quiet c (dispatch_success env c n node)
  unfolding dispatch_success record_dispatched arm_startup dispatches
  dispatch_success-Quiet c n node = (ground arith, λ n. ground arith)

  answered-Quiet :
      (o : Option Str) (c : Coordinator) (n : Str) (node : NodeInfo)
      → Quiet c (answered env o c n node)
  answered-Quiet none c n node = dispatch_success-Quiet c n node
  answered-Quiet (some error) c n node = dispatch_failure-Quiet c n error

  unfoldable pub Round : Coordinator → Str → Coordinator → Type 0
  Round c j c' =
      (c'.node_info_cache ≡ c.node_info_cache)
      × ((n : Str) → dispatches n c'.trace ≡ asked j n c.node_info_cache + dispatches n c.trace)

  known-Round :
      (o : Option NodeInfo) (c : Coordinator) (j : Str)
      → get j c.node_info_cache ≡ o
      → CacheNamed c.node_info_cache
      → Round c j (dispatch_known env o c j)
  unfolding Round
  known-Round none c j absent named =
      let (same_cache, quiet) =
        dispatch_failure-Quiet c j (bytes "Node info not found in pipeline") in
      (same_cache, λ n. ground (arith, quiet n, absent_key j c.node_info_cache absent))
  known-Round (some node) c j found named =
      let c' = call (dispatch (run_metadata c.run_context) node) c in
      let (same_cache, quiet) = answered-Quiet (env.dispatched c'.trace) c' j node in
      (
        same_cache,
        λ n.
            quiet n
            ∙ handed c j node n (named j node found)
                (contains_key_of_get j {v = node} c.node_info_cache found),
      )

  pub dispatch_node-Round :
      (c : Coordinator) (j : Str) → CacheNamed c.node_info_cache → Round c j (dispatch_node env c j)
  unfolding dispatch_node
  dispatch_node-Round c j named = known-Round (get j c.node_info_cache) c j refl named

  dispatch_nodes-dispatches :
      (c : Coordinator) (nodes : List Str) (n : Str)
      → IsDistinct nodes
      → CacheNamed c.node_info_cache
      → dispatches n (dispatch_nodes env c nodes).trace
        ≡ (if contains nodes n && contains_key n c.node_info_cache then 1 else 0)
          + dispatches n c.trace
  unfolding dispatch_nodes contains Round
  dispatch_nodes-dispatches c [] n d named = omega arith
  dispatch_nodes-dispatches c (j ∷ nodes) n d named =
      let c1 = dispatch_node env c j in
      let (same_cache, round) = dispatch_node-Round c j named in
      let later =
        dispatch_nodes-dispatches c1 nodes n d.1 (subst CacheNamed (sym same_cache) named) in
      ground (arith, later, round n, ap (contains_key n) same_cache, str_eq_iff j n)

  -- `dispatch_ready_nodes`, on a run whose statuses have distinct keys and with a cache whose entries
  -- bear the names of their nodes, hands each ready node that the cache has to the dispatcher exactly
  -- once, and no other node, whatever the services answer.
  pub dispatch_ready_nodes-dispatches :
      (c : Coordinator) (n : Str)
      → IsMap c.run.statuses
      → CacheNamed c.node_info_cache
      → dispatches n (dispatch_ready_nodes env c).trace
        ≡ (if contains (ready_nodes c.run) n && contains_key n c.node_info_cache then 1 else 0)
          + dispatches n c.trace
  unfolding dispatch_ready_nodes ready_nodes
  dispatch_ready_nodes-dispatches c n h named =
      dispatch_nodes-dispatches c (ready_nodes c.run) n
        (filtered-IsDistinct (λ e. same_status e.1 pending && deps_satisfied c.run e.0)
          c.run.statuses h)
        named
