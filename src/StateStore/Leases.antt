-- ===== src/StateStore/Leases.antt =====
-- Who holds the lease of a run, over sequences of lease operations by any servers
-- (state_store/src/lib.rs).
use jefferies.Prelude.{
  ℕ, ◌+◌, ◌≤◌, ◌<◌, Str, str_inst, str_eq, str_eq_iff, ◌≡◌, ◌≢◌, false, ◌&&◌, none, some, List, [],
  ◌∷◌, length, get, get-insert, get-remove, All, contains_key_of_get, arith, nat_beq, inl, inr,
  Option-cases,
}
use jefferies.StateStore.{
  InMemoryStateStore, InMemoryLeaseEntry, u64, try_acquire_lease, renew_lease, release_lease,
}

pub data LeaseOp : Type 0 where
  acquire : Str → Str → LeaseOp
  renew : Str → Str → ℕ → LeaseOp
  release : Str → LeaseOp

unfoldable pub lease_step : InMemoryStateStore → LeaseOp → InMemoryStateStore
unfolding try_acquire_lease release_lease
lease_step store (acquire run_id server_id) = (try_acquire_lease store run_id server_id).0
lease_step store (renew run_id server_id version) = store
lease_step store (release run_id) = release_lease store run_id

unfoldable pub lease_steps : InMemoryStateStore → List LeaseOp → InMemoryStateStore
unfolding lease_step
lease_steps store [] = store
lease_steps store (op ∷ ops) = lease_steps (lease_step store op) ops

-- The operation does not release the lease of the run.
abbrev pub Keeps : Str → LeaseOp → Type 0
Keeps run_id (release j) = j ≢ run_id
Keeps run_id _ = Unit

-- The lease of a run after one operation.
get-lease_step :
    (store : InMemoryStateStore) (op : LeaseOp) (run_id : Str) (e : InMemoryLeaseEntry)
    → Keeps run_id op
    → get run_id store.leases ≡ some e
    → get run_id (lease_step store op).leases ≡ some e
unfolding lease_step try_acquire_lease release_lease
get-lease_step store (acquire j server_id) run_id e k g = ground (
  arith,
  get-insert j run_id (record { server_id = server_id; version = u64 (store.lease_counter + 1) })
      store.leases,
  str_eq_iff j run_id,
  contains_key_of_get run_id {v = e} store.leases,
)
get-lease_step store (renew j server_id version) run_id e k g = g
get-lease_step store (release j) run_id e k g =
    ground (arith, get-remove j run_id store.leases, str_eq_iff j run_id)

get-lease_steps :
    (store : InMemoryStateStore) (ops : List LeaseOp) (run_id : Str) (e : InMemoryLeaseEntry)
    → All (Keeps run_id) ops
    → get run_id store.leases ≡ some e
    → get run_id (lease_steps store ops).leases ≡ some e
unfolding lease_steps
get-lease_steps store [] run_id e k g = g
get-lease_steps store (op ∷ ops) run_id e k g =
    get-lease_steps (lease_step store op) ops run_id e k.1 (get-lease_step store op run_id e k.0 g)

acquired :
    (store : InMemoryStateStore) (run_id server_id : Str) (v : ℕ)
    → (try_acquire_lease store run_id server_id).1 ≡ some v
    → get run_id (try_acquire_lease store run_id server_id).0.leases
      ≡ some (record { server_id = server_id; version = v })
unfolding try_acquire_lease
acquired store run_id server_id v h = ground (
  arith,
  get-insert run_id run_id
      (record { server_id = server_id; version = u64 (store.lease_counter + 1) }) store.leases,
  str_eq_iff run_id run_id,
)

acquire_held :
    (store : InMemoryStateStore) (run_id other : Str) (e : InMemoryLeaseEntry)
    → get run_id store.leases ≡ some e
    → (try_acquire_lease store run_id other).1 ≡ none
unfolding try_acquire_lease
acquire_held store run_id other e g =
    ground (arith, contains_key_of_get run_id {v = e} store.leases)

renew_held :
    (store : InMemoryStateStore) (run_id other : Str) (w : ℕ) (e : InMemoryLeaseEntry)
    → get run_id store.leases ≡ some e
    → renew_lease store run_id other w ≡ (str_eq e.server_id other && nat_beq e.version w)
unfolding renew_lease
renew_held store run_id other w e g = rw g

-- A server that acquired a lease keeps it until a release of that run: no server, itself included,
-- acquires it again, and a renewal succeeds exactly for its own name and version.
pub lease_exclusive :
    (store : InMemoryStateStore) (run_id server_id other : Str) (v w : ℕ) (ops : List LeaseOp)
    → (try_acquire_lease store run_id server_id).1 ≡ some v
    → All (Keeps run_id) ops
    → let later = lease_steps (try_acquire_lease store run_id server_id).0 ops in
      ((try_acquire_lease later run_id other).1 ≡ none)
      × (renew_lease later run_id other w ≡ (str_eq server_id other && nat_beq v w))
lease_exclusive store run_id server_id other v w ops h k =
    let later = lease_steps (try_acquire_lease store run_id server_id).0 ops in
    let entry : InMemoryLeaseEntry = record { server_id = server_id; version = v } in
    let held =
      get-lease_steps (try_acquire_lease store run_id server_id).0 ops run_id entry k
        (acquired store run_id server_id v h) in
    (acquire_held later run_id other entry held, renew_held later run_id other w entry held)

-- Everything that a lease of the run carries from now on is newer than `v`.
record Newer (run_id : Str) (v : ℕ) (store : InMemoryStateStore) : Type 0 where
  counted : v ≤ store.lease_counter
  entries : (e : InMemoryLeaseEntry) → get run_id store.leases ≡ some e → v < e.version

lease_step-counter :
    (store : InMemoryStateStore) (op : LeaseOp)
    → store.lease_counter + 1 < 18446744073709551616
    → (store.lease_counter ≤ (lease_step store op).lease_counter)
      × ((lease_step store op).lease_counter ≤ store.lease_counter + 1)
unfolding lease_step try_acquire_lease release_lease
lease_step-counter store (acquire j s) h = ground arith
lease_step-counter store op h = ground arith

lease_step-Newer :
    (run_id : Str) (v : ℕ) (store : InMemoryStateStore) (op : LeaseOp)
    → store.lease_counter + 1 < 18446744073709551616
    → Newer run_id v store
    → Newer run_id v (lease_step store op)
unfolding lease_step try_acquire_lease release_lease
lease_step-Newer run_id v store (acquire j s) h n = record {
  counted = ground (arith, n.counted);
  entries = λ e g. ground (
    arith,
    n.counted,
    n.entries e,
    get-insert j run_id (record { server_id = s; version = u64 (store.lease_counter + 1) })
        store.leases,
  );
}
lease_step-Newer run_id v store (renew j s w) h n = n
lease_step-Newer run_id v store (release j) h n = record {
  counted = n.counted;
  entries = λ e g. ground (arith, n.entries e, get-remove j run_id store.leases);
}

lease_steps-Newer :
    (run_id : Str) (v : ℕ) (store : InMemoryStateStore) (ops : List LeaseOp)
    → store.lease_counter + length ops < 18446744073709551616
    → Newer run_id v store
    → Newer run_id v (lease_steps store ops)
unfolding lease_steps
lease_steps-Newer run_id v store [] h n = n
lease_steps-Newer run_id v store (op ∷ ops) h n =
    lease_steps-Newer run_id v (lease_step store op) ops
      (omega (arith, lease_step-counter store op))
      (lease_step-Newer run_id v store op (omega arith) n)

renew-Newer :
    (run_id server_id : Str) (v : ℕ) (store : InMemoryStateStore)
    → Newer run_id v store
    → renew_lease store run_id server_id v ≡ false
unfolding renew_lease
renew-Newer run_id server_id v store n = elim (Option-cases (get run_id store.leases)) [
  | inl absent ↦ rw absent
  | inr (e, g) ↦ rw g (ground (arith, n.entries e g))
]

release-Newer :
    (run_id server_id : Str) (v : ℕ) (store : InMemoryStateStore)
    → (try_acquire_lease store run_id server_id).1 ≡ some v
    → store.lease_counter + 1 < 18446744073709551616
    → Newer run_id v (release_lease (try_acquire_lease store run_id server_id).0 run_id)
unfolding try_acquire_lease release_lease
release-Newer run_id server_id v store h lt = record {
  counted = ground arith;
  entries = λ e g. ground (
    arith,
    get-remove run_id run_id (try_acquire_lease store run_id server_id).0.leases,
    str_eq_iff run_id run_id,
  );
}

release-counter :
    (run_id server_id : Str) (store : InMemoryStateStore)
    → store.lease_counter + 1 < 18446744073709551616
    → (release_lease (try_acquire_lease store run_id server_id).0 run_id).lease_counter
      ≤ store.lease_counter + 1
unfolding try_acquire_lease release_lease
release-counter run_id server_id store h = ground arith

-- A lease version that was released is dead: whoever acquires the lease of the run afterwards, no
-- renewal with the old version succeeds again, as long as the `u64` counter does not wrap.
pub released_lease_is_dead :
    (store : InMemoryStateStore) (run_id server_id other : Str) (v : ℕ) (ops : List LeaseOp)
    → (try_acquire_lease store run_id server_id).1 ≡ some v
    → store.lease_counter + 1 + length ops < 18446744073709551616
    → renew_lease
        (lease_steps (release_lease (try_acquire_lease store run_id server_id).0 run_id) ops)
        run_id
        other
        v
      ≡ false
released_lease_is_dead store run_id server_id other v ops h lt =
    let start = release_lease (try_acquire_lease store run_id server_id).0 run_id in
    renew-Newer run_id other v (lease_steps start ops) (
      lease_steps-Newer run_id v start ops (omega (arith, release-counter run_id server_id store))
        (release-Newer run_id server_id v store h (omega arith)))
