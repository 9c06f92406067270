-- ===== src/Coordinator/Start/Started.antt =====
-- What holds of a coordinator from its start on (coordinator/src/coordinator.rs).
use jefferies.Prelude.{
  ℕ, Str, str_inst, ◌≡◌, refl, Bool, Option, none, some, List, [], ◌∷◌, map, IsMap, All,
  get-collect-All, subst,
}
use jefferies.Pipelines.{Pipeline, NodeInfo}
use jefferies.Pipelines.Merge.{node_info}
use jefferies.Run.{RunState, from_run_state}
use jefferies.Run.WellFormed.{new-WellFormed}
use jefferies.Coordinator.State.{
  Config, RunContext, Call, try_acquire_lease, load_run, record_pipeline_started, Env, Coordinator,
}
use jefferies.Coordinator.Start.{
  build_pipeline_start_record, initialized, initialize_run_state, with_state, leased,
  start_coordinator,
}
use jefferies.Coordinator.Dispatch.Once.{dispatches, CacheNamed}
use jefferies.Coordinator.Handlers.Settled.{Distinct}
use jefferies.Coordinator.Loop.{Event, run}
use jefferies.Coordinator.Loop.Waits.{SomeNodeRuns, run-SomeNodeRuns}

named_entries :
    (nodes : List NodeInfo)
    → All (λ (e : Str × NodeInfo). e.1.name ≡ e.0) (map (λ n. (n.name, n)) nodes)
named_entries [] = tt
named_entries (n ∷ nodes) = (refl, named_entries nodes)

-- The states that the store returns have distinct keys, being hash maps.
abbrev pub LoadsMaps : Env → Type 0
LoadsMaps env =
    (t : List Call) (state : RunState) → env.loaded t ≡ some (some state) → IsMap state.statuses

-- What a new coordinator satisfies.
pub record Started (env : Env) (run_id server_id : Str) (c : Coordinator) : Type 0 where
  pub run_named : c.run_id ≡ run_id
  pub server_named : c.server_id ≡ server_id
  pub distinct : Distinct c
  pub cache_named : CacheNamed c.node_info_cache
  pub dispatched_none : (n : Str) → dispatches n c.trace ≡ 0
  pub lease_held : env.acquired (try_acquire_lease server_id ∷ []) ≡ some (some c.lease_version)

initialized-IsMap :
    (o : Option (Option RunState)) (nodes : List NodeInfo) (p : Pipeline) (t : List Call)
    → ((state : RunState) → o ≡ some (some state) → IsMap state.statuses)
    → IsMap (initialized o nodes p t).run.statuses
unfolding initialized from_run_state
initialized-IsMap (some (some state)) nodes p t h = h state refl
initialized-IsMap (some none) nodes p t h = (new-WellFormed nodes).statuses_map
initialized-IsMap none nodes p t h = (new-WellFormed nodes).statuses_map

initialized-dispatches :
    (o : Option (Option RunState)) (nodes : List NodeInfo) (p : Pipeline) (t : List Call) (n : Str)
    → dispatches n (initialized o nodes p t).trace ≡ dispatches n t
unfolding initialized dispatches
initialized-dispatches (some (some state)) nodes p t n = refl
initialized-dispatches (some none) nodes p t n = refl
initialized-dispatches none nodes p t n = refl

some_injective : (a b : Coordinator) → some a ≡ some b → a ≡ b
some_injective a b h = cc

module _ (env : Env) (run_id server_id : Str) (pipeline : Pipeline) (config : Config)
    (has_status_reporter : Bool) (run_context : RunContext) (maps : LoadsMaps env) where
  leased-Started :
      (o : Option (Option ℕ)) (c : Coordinator)
      → env.acquired (try_acquire_lease server_id ∷ []) ≡ o
      → leased env run_id server_id pipeline config has_status_reporter run_context o
          (try_acquire_lease server_id ∷ [])
        ≡ some c
      → Started env run_id server_id c
  unfolding leased with_state initialize_run_state dispatches
  leased-Started (some (some v)) c a h =
      let t =
        record_pipeline_started (build_pipeline_start_record run_id pipeline run_context)
        ∷ try_acquire_lease server_id
        ∷ [] in
      let initial = initialize_run_state env (node_info pipeline) pipeline t in
      let made =
        with_state env run_id server_id pipeline config has_status_reporter run_context initial v in
      subst (Started env run_id server_id) {x = made} (some_injective made c h) (record {
        run_named = refl;
        server_named = refl;
        distinct =
            initialized-IsMap (env.loaded (load_run ∷ t)) (node_info pipeline) pipeline
              (load_run ∷ t) (maps (load_run ∷ t));
        cache_named = λ k node g.
            get-collect-All (λ (e : Str × NodeInfo). e.1.name ≡ e.0) k
              (map (λ n. (n.name, n)) (node_info pipeline)) (named_entries (node_info pipeline)) g;
        dispatched_none = λ n.
            initialized-dispatches (env.loaded (load_run ∷ t)) (node_info pipeline) pipeline
              (load_run ∷ t) n;
        lease_held = a;
      })
  leased-Started (some none) c a h = cc
  leased-Started none c a h = cc

  -- Of a store that returns states with distinct keys: a coordinator that `start_coordinator` spawns
  -- has the run id and the server id that it was given and the version of the lease that the store
  -- granted to that server, has distinct keys in its node statuses and a cache whose entries bear the
  -- names of their nodes, and has dispatched no node.
  pub start_coordinator-Started :
      (c : Coordinator)
      → start_coordinator env run_id server_id pipeline config has_status_reporter run_context
        ≡ some c
      → Started env run_id server_id c
  unfolding start_coordinator
  start_coordinator-Started c h =
      leased-Started (env.acquired (try_acquire_lease server_id ∷ [])) c refl h

  -- Of a store that returns states with distinct keys: a coordinator that `start_coordinator` spawns
  -- and that waits for its next event has a running node, whatever events have come in and whatever
  -- the services answer.
  pub started-SomeNodeRuns :
      (c : Coordinator) (events : List Event)
      → start_coordinator env run_id server_id pipeline config has_status_reporter run_context
        ≡ some c
      → SomeNodeRuns env (run env c events)
  started-SomeNodeRuns c events h =
      run-SomeNodeRuns env c events (start_coordinator-Started c h).distinct
