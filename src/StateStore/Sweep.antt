-- ===== src/StateStore/Sweep.antt =====
-- The two lists that the reaper sweeps (state_store/src/lib.rs).
use jefferies.Prelude.{
  Str, str_inst, ◌≡◌, not, ◌&&◌, some, get, contains, contains_key, IsMap, contains-filter-keys,
  arith,
}
use jefferies.Run.Stored.{run_state_is_terminal}
use jefferies.StateStore.{
  InMemoryRunEntry, InMemoryStateStore, get_orphaned_runs, list_terminal_unleased_runs,
}

-- Of the stored runs, which have distinct keys, a run is orphaned exactly when it is not terminal and
-- has no lease, and it is listed for the sweep exactly when it is terminal and has no lease.
pub swept_exact :
    (store : InMemoryStateStore) (run_id : Str) (e : InMemoryRunEntry)
    → IsMap store.runs
    → get run_id store.runs ≡ some e
    → (contains (get_orphaned_runs store) run_id
        ≡ (not (run_state_is_terminal e.state) && not (contains_key run_id store.leases)))
      × (contains (list_terminal_unleased_runs store) run_id
          ≡ (run_state_is_terminal e.state && not (contains_key run_id store.leases)))
unfolding get_orphaned_runs list_terminal_unleased_runs
swept_exact store run_id e h g = (
  ground (
    arith,
    contains-filter-keys
        (λ (p : Str × InMemoryRunEntry).
          not (run_state_is_terminal p.1.state) && not (contains_key p.0 store.leases))
        run_id store.runs h,
  ),
  ground (
    arith,
    contains-filter-keys
        (λ (p : Str × InMemoryRunEntry).
          run_state_is_terminal p.1.state && not (contains_key p.0 store.leases))
        run_id store.runs h,
  ),
)
