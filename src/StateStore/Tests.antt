-- ===== src/StateStore/Tests.antt =====
-- A store with one run and three servers (state_store/src/lib.rs).
use jefferies.Prelude.{
  ℕ, Str, bytes, str_eq, str_eq_iff, str_inst, nat_beq, ◌≡◌, ◌≢◌, refl, false, not, ◌&&◌, none,
  List, [], ◌∷◌, get, contains, contains_key, IsMap, ◌+◌, arith,
}
use jefferies.Pipelines.Samples.{build, test, sample_pipeline}
use jefferies.Run.{RunState, success, pending}
use jefferies.Run.Stored.{run_state_is_terminal}
use jefferies.StateStore.{
  InMemoryStateStore, save_run, try_acquire_lease, renew_lease, release_lease, get_orphaned_runs,
  list_terminal_unleased_runs,
}
use jefferies.StateStore.Fencing.{Save, save_all, stale_save_rejected}
use jefferies.StateStore.Leases.{
  LeaseOp, acquire, renew, release, lease_steps, lease_exclusive, released_lease_is_dead,
}
use jefferies.StateStore.Sweep.{swept_exact}

abbrev run_id : Str
run_id = bytes "run-1"

abbrev other_run : Str
other_run = bytes "run-2"

abbrev server_a : Str
server_a = bytes "a"

abbrev server_b : Str
server_b = bytes "b"

abbrev state_at : ℕ → RunState
state_at version = record {
  version = version;
  statuses = (build, success) ∷ (test, pending) ∷ [];
  dependencies = (build, []) ∷ (test, build ∷ []) ∷ [];
  pipeline = sample_pipeline;
}

abbrev stored : InMemoryStateStore
stored = record {
  runs = (run_id, record { state = state_at 4 }) ∷ [];
  leases = [];
  lease_counter = 6;
}

abbrev save_from : (v : ℕ) → Save
save_from v = record { presents = v; state = state_at (v + 1); advances = refl }

stale_save_rejected_example :
    (save_run
      (save_all (save_run stored run_id (state_at 5) 4).0 run_id (save_from 5 ∷ []))
      run_id
      (state_at 5)
      4).1
    ≡ false
unfolding save_run str_eq
stale_save_rejected_example =
    stale_save_rejected stored run_id (save_from 4) (save_from 5 ∷ []) (state_at 5) refl

other_run-run_id : other_run ≢ run_id
unfolding str_eq
other_run-run_id h = cc ((str_eq_iff other_run run_id).1 h)

abbrev attempts : List LeaseOp
attempts = acquire run_id server_b ∷ renew run_id server_b 1 ∷ release other_run ∷ []

lease_exclusive_example :
    let later = lease_steps (try_acquire_lease stored run_id server_a).0 attempts in
    ((try_acquire_lease later run_id server_a).1 ≡ none)
    × (renew_lease later run_id server_a 7 ≡ (str_eq server_a server_a && nat_beq 7 7))
unfolding try_acquire_lease
lease_exclusive_example =
    lease_exclusive stored run_id server_a server_a 7 7 attempts refl
      (tt, (tt, (other_run-run_id, tt)))

released_lease_is_dead_example :
    renew_lease
      (lease_steps (release_lease (try_acquire_lease stored run_id server_a).0 run_id) attempts)
      run_id
      server_a
      7
    ≡ false
unfolding try_acquire_lease
released_lease_is_dead_example =
    released_lease_is_dead stored run_id server_a server_a 7 attempts refl (omega arith)

stored-IsMap : IsMap stored.runs
unfolding contains_key
stored-IsMap = (refl, tt)

swept_exact_example :
    (contains (get_orphaned_runs stored) run_id
      ≡ (not (run_state_is_terminal (state_at 4)) && not (contains_key run_id stored.leases)))
    × (contains (list_terminal_unleased_runs stored) run_id
        ≡ (run_state_is_terminal (state_at 4) && not (contains_key run_id stored.leases)))
unfolding get str_eq
swept_exact_example = swept_exact stored run_id (record { state = state_at 4 }) stored-IsMap refl
