-- ===== src/StateStore/Fencing.antt =====
-- `save_run` of the in-memory store and the version that it tests (state_store/src/lib.rs).
use jefferies.Prelude.{
  ℕ, ◌+◌, ◌≤◌, Str, str_inst, str_eq_iff, ◌≡◌, true, false, Option, none, some, List, [], ◌∷◌,
  get-insert, arith, if◌then◌else◌, ◌==◌, nat_beq,
}
use jefferies.Run.{RunState}
use jefferies.StateStore.{InMemoryStateStore, save_run, load_run}

-- The version that a save must present: that of the stored state, and 0 where none is stored.
abbrev pub expected : Option RunState → ℕ
expected none = 0
expected (some state) = state.version

-- A save is accepted exactly when it presents the expected version. Accepted, it replaces the state
-- of its run; rejected, it changes nothing. The states of other runs stay.
pub save_run_exact :
    (store : InMemoryStateStore) (run_id j : Str) (state : RunState) (version : ℕ)
    → ((save_run store run_id state version).1 ≡ nat_beq (expected (load_run store run_id)) version)
      × (load_run (save_run store run_id state version).0 j ≡ (
          if nat_beq (expected (load_run store run_id)) version
          then (if run_id == j then some state else load_run store j)
          else load_run store j))
      × ((save_run store run_id state version).0.leases ≡ store.leases)
unfolding save_run load_run
save_run_exact store run_id j state version = (
  ground arith,
  ground (arith, get-insert run_id j (record { state = state }) store.runs),
  ground arith,
)

-- The saves of the coordinators on one run, in the order in which the store runs them. Each one
-- advances the version that it presents by one.
pub record Save : Type 0 where
  pub presents : ℕ
  pub state : RunState
  pub advances : state.version ≡ presents + 1

unfoldable pub save_all : InMemoryStateStore → Str → List Save → InMemoryStateStore
unfolding save_run
save_all store run_id [] = store
save_all store run_id (s ∷ ss) = save_all (save_run store run_id s.state s.presents).0 run_id ss

save-expected-le :
    (store : InMemoryStateStore) (run_id : Str) (s : Save)
    → expected (load_run store run_id)
      ≤ expected (load_run (save_run store run_id s.state s.presents).0 run_id)
save-expected-le store run_id s = ground (
  arith,
  save_run_exact store run_id run_id s.state s.presents,
  str_eq_iff run_id run_id,
  s.advances,
)

save_all-expected-le :
    (store : InMemoryStateStore) (run_id : Str) (ss : List Save)
    → expected (load_run store run_id) ≤ expected (load_run (save_all store run_id ss) run_id)
unfolding save_all
save_all-expected-le store run_id [] = omega arith
save_all-expected-le store run_id (s ∷ ss) = omega (
  arith,
  save-expected-le store run_id s,
  save_all-expected-le (save_run store run_id s.state s.presents).0 run_id ss,
)

-- Once a save that advances the version is accepted, no later save that presents the same version
-- is, whatever saves come in between that each advance the version they present by one.
pub stale_save_rejected :
    (store : InMemoryStateStore) (run_id : Str) (first : Save) (ss : List Save) (state : RunState)
    → (save_run store run_id first.state first.presents).1 ≡ true
    → (save_run
        (save_all (save_run store run_id first.state first.presents).0 run_id ss)
        run_id
        state
        first.presents).1
      ≡ false
stale_save_rejected store run_id first ss state accepted = ground (
  arith,
  first.advances,
  str_eq_iff run_id run_id,
  save_run_exact store run_id run_id first.state first.presents,
  save_all-expected-le (save_run store run_id first.state first.presents).0 run_id ss,
  save_run_exact (save_all (save_run store run_id first.state first.presents).0 run_id ss) run_id
      run_id state first.presents,
)
