-- ===== src/StateStore.antt =====
-- The in-memory state store (`InMemoryStateStore` of state_store/src/lib.rs): run states behind a
-- version test, and leases with a version each. The three mutexes are held to the end of each
-- operation, so an operation is one step.
pub mod Fencing
pub mod Leases
pub mod Sweep
mod Tests
use mathlib.Core.Option
use jefferies.Prelude.{
  ℕ, ◌+◌, ◌%◌, Str, str_inst, str_eq, Bool, true, false, not, ◌&&◌, Option, none, some, List, [],
  nat_beq, if◌then◌else◌, get, contains_key, insert, remove, keys, filter,
}
use jefferies.Run.{RunState}
use jefferies.Run.Stored.{run_state_is_terminal}

pub record InMemoryRunEntry : Type 0 where
  pub state : RunState

pub record InMemoryLeaseEntry : Type 0 where
  pub server_id : Str
  pub version : ℕ

pub record InMemoryStateStore : Type 0 where
  pub runs : List (Str × InMemoryRunEntry)
  pub leases : List (Str × InMemoryLeaseEntry)
  pub lease_counter : ℕ

-- A `u64` sum.
abbrev pub u64 : ℕ → ℕ
u64 n = n % 18446744073709551616

unfoldable pub new : InMemoryStateStore
new = record { runs = []; leases = []; lease_counter = 0 }

-- The arms of the `match` in `save_run`: `false` for the two guarded ones.
abbrev may_save : Option InMemoryRunEntry → ℕ → Bool
may_save (some entry) expected_version = nat_beq entry.state.version expected_version
may_save none expected_version = nat_beq expected_version 0

unfoldable pub save_run : InMemoryStateStore → Str → RunState → ℕ → InMemoryStateStore × Bool
unfolding get insert
save_run store run_id state expected_version =
    if may_save (get run_id store.runs) expected_version
    then (record store { runs = insert run_id (record { state = state }) store.runs }, true)
    else (store, false)

unfoldable pub load_run : InMemoryStateStore → Str → Option RunState
unfolding get
load_run store run_id = Option.map (λ e. e.state) (get run_id store.runs)

unfoldable pub delete_run : InMemoryStateStore → Str → InMemoryStateStore
unfolding remove
delete_run store run_id = record store { runs = remove run_id store.runs }

unfoldable pub try_acquire_lease : InMemoryStateStore → Str → Str → InMemoryStateStore × Option ℕ
unfolding contains_key insert
try_acquire_lease store run_id server_id =
    if contains_key run_id store.leases
    then (store, none)
    else (let version = u64 (store.lease_counter + 1) in
        (
          record store {
            lease_counter = version;
            leases =
                insert run_id (record { server_id = server_id; version = version }) store.leases;
          },
          some version,
        ))

abbrev pub holds_lease : Option InMemoryLeaseEntry → Str → ℕ → Bool
holds_lease none server_id lease_version = false
holds_lease (some entry) server_id lease_version =
    str_eq entry.server_id server_id && nat_beq entry.version lease_version

unfoldable pub renew_lease : InMemoryStateStore → Str → Str → ℕ → Bool
unfolding get str_eq
renew_lease store run_id server_id lease_version =
    holds_lease (get run_id store.leases) server_id lease_version

unfoldable pub release_lease : InMemoryStateStore → Str → InMemoryStateStore
unfolding remove
release_lease store run_id = record store { leases = remove run_id store.leases }

unfoldable pub get_orphaned_runs : InMemoryStateStore → List Str
unfolding run_state_is_terminal contains_key
get_orphaned_runs store = keys (
    filter (λ e. not (run_state_is_terminal e.1.state) && not (contains_key e.0 store.leases))
      store.runs)

unfoldable pub list_terminal_unleased_runs : InMemoryStateStore → List Str
unfolding run_state_is_terminal contains_key
list_terminal_unleased_runs store = keys (
    filter (λ e. run_state_is_terminal e.1.state && not (contains_key e.0 store.leases)) store.runs)
