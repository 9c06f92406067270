-- ===== src/Run/Ready.antt =====
-- Which nodes of a run are ready, and when the run is complete (coordinator/src/run.rs).
use jefferies.Prelude.{
  ℕ, zero, suc, ◌<◌, Str, str_inst, ◌≡◌, refl, ap, ◌↔◌, Bool, true, false, ◌&&◌, Option, none, some,
  List, [], ◌∷◌, all, any, is_empty, get, contains, IsMap, contains-filter-keys, any-get,
  any_of_get, arith, Bool-cases, Option-cases, inl, inr, str_eq_refl, ◌≢◌,
}
use jefferies.Run.{
  NodeStatus, pending, running, success, failed, same_status, is_status, PipelineRun,
  deps_satisfied, ready_nodes, is_complete,
}
use jefferies.Run.Marks.{is_status-eq}

-- Every dependency of the node has succeeded; a node without an entry has none.
abbrev pub DepsSucceeded : PipelineRun → Str → Type 0
DepsSucceeded run n =
    (deps : List Str)
    → get n run.dependencies ≡ some deps
    → (d : Str) → contains deps d ≡ true
    → get d run.statuses ≡ some success

pub all-contains :
    (p : Str → Bool) (xs : List Str) (d : Str) → all p xs ≡ true → contains xs d ≡ true → p d ≡ true
unfolding contains
all-contains p [] d h c = cc
all-contains p (x ∷ xs) d h c = ground (arith, str_inst.same_iff x d, all-contains p xs d)

pub all_of_contains :
    (p : Str → Bool) (xs : List Str)
    → ((d : Str) → contains xs d ≡ true → p d ≡ true)
    → all p xs ≡ true
unfolding contains
all_of_contains p [] f = refl
all_of_contains p (x ∷ xs) f =
    rw (f x (rw (str_eq_refl x)), all_of_contains p xs (λ d c. f d (ground arith)))

pub deps_satisfied_iff :
    (run : PipelineRun) (n : Str) → (deps_satisfied run n ≡ true) ↔ DepsSucceeded run n
unfolding deps_satisfied
deps_satisfied_iff run n = elim (Option-cases (get n run.dependencies)) [
  | inl absent ↦ (λ _ deps found d c. cc, λ _. rw absent)
  | inr (ds, present) ↦ (
    λ h deps found d c.
        is_status-eq _ success
          (all-contains (λ dep. is_status (get dep run.statuses) success) deps d (ground arith) c),
    λ f. rw present (
        all_of_contains (λ dep. is_status (get dep run.statuses) success) ds
          (λ d c. rw (f ds present d c))),
  )
]

-- In a run whose statuses have distinct keys, a node is ready exactly when it is pending and all its
-- dependencies have succeeded.
pub ready_nodes_exact :
    (run : PipelineRun) (n : Str)
    → IsMap run.statuses
    → (contains (ready_nodes run) n ≡ true)
      ↔ ((get n run.statuses ≡ some pending) × DepsSucceeded run n)
unfolding ready_nodes
ready_nodes_exact run n h =
    let visits =
      contains-filter-keys (λ e. same_status e.1 pending && deps_satisfied run e.0) n run.statuses
        h in
    (
      λ c. (ground (arith, visits), (deps_satisfied_iff run n).0 (ground (arith, visits))),
      λ (p, d). ground (arith, visits, (deps_satisfied_iff run n).1 d),
    )

pub contains_of_nonempty :
    (xs : List Str) → is_empty xs ≡ false → (n : Str) × (contains xs n ≡ true)
unfolding contains
contains_of_nonempty [] h = cc
contains_of_nonempty (x ∷ xs) h = (x, rw (str_eq_refl x))

pub is_empty-contains : (xs : List Str) (n : Str) → is_empty xs ≡ true → contains xs n ≡ true → ⊥
unfolding contains
is_empty-contains [] n h c = cc
is_empty-contains (x ∷ xs) n h c = cc

-- A run whose statuses have distinct keys is complete exactly when no node is running and every
-- pending node has a dependency that has not succeeded.
pub is_complete_exact :
    (run : PipelineRun)
    → IsMap run.statuses
    → (is_complete run ≡ true) ↔ (
        ((n : Str) → get n run.statuses ≢ some running)
        × ((n : Str) → get n run.statuses ≡ some pending → ¬ DepsSucceeded run n))
unfolding is_complete
is_complete_exact run h = elim (Bool-cases (any (λ e. same_status e.1 running) run.statuses)) [
  | inl busy ↦
      let (n, s, g, q) = any_of_get (λ e. same_status e.1 running) run.statuses h busy in
      (λ c. ground arith, λ (idle, blocked). absurd (idle n (ground arith)))
  | inr idle ↦ (
    λ c. (
      λ n g. cc (any-get (λ e. same_status e.1 running) n run.statuses idle g),
      λ n p d.
          is_empty-contains (ready_nodes run) n (ground arith)
            ((ready_nodes_exact run n h).1 (p, d)),
    ),
    λ (none_runs, blocked). elim (Bool-cases (is_empty (ready_nodes run))) [
      | inl e ↦ rw (idle, e)
      | inr e ↦
          let (n, c) = contains_of_nonempty (ready_nodes run) e in
          let (p, d) = (ready_nodes_exact run n h).0 c in absurd (blocked n p d)
    ],
  )
]

-- The pipeline has no dependency cycle: a rank falls along every dependency.
abbrev pub Acyclic : PipelineRun → (Str → ℕ) → Type 0
Acyclic run rank =
    (n : Str) (deps : List Str)
    → get n run.dependencies ≡ some deps
    → (d : Str) → contains deps d ≡ true
    → rank d < rank n

-- Every dependency names a node of the run.
abbrev pub DepsKnown : PipelineRun → Type 0
DepsKnown run =
    (n : Str) (deps : List Str)
    → get n run.dependencies ≡ some deps
    → (d : Str) → contains deps d ≡ true
    → get d run.statuses ≢ none

only_success :
    (o : Option NodeStatus)
    → o ≢ none
    → ((s : NodeStatus) → o ≡ some s → s ≡ success)
    → o ≡ some success
only_success none there f = absurd (there refl)
only_success (some s) there f = ap some (f s refl)

module _ (run : PipelineRun) (rank : Str → ℕ) (acyclic : Acyclic run rank) (known : DepsKnown run)
    (distinct : IsMap run.statuses) (complete : is_complete run ≡ true)
    (unfailed : (n : Str) → get n run.statuses ≢ some failed) where
  succeeded_below :
      (k : ℕ) (n : Str) (s : NodeStatus) → rank n < k → get n run.statuses ≡ some s → s ≡ success
  succeeded_below zero n s lt g = absurd (omega arith)
  succeeded_below (suc k) n success lt g = refl
  succeeded_below (suc k) n failed lt g = absurd (unfailed n g)
  succeeded_below (suc k) n running lt g =
      absurd (((is_complete_exact run distinct).0 complete).0 n g)
  succeeded_below (suc k) n pending lt g = absurd (
      ((is_complete_exact run distinct).0 complete).1 n g λ deps found d c.
        only_success (get d run.statuses) (known n deps found d c)
          λ s h. succeeded_below k d s (omega (arith, acyclic n deps found d c)) h)

  -- In a run with no cycle of dependencies, whose dependencies are all nodes of the run and whose
  -- statuses have distinct keys: if the run is complete and no node has failed, every node has
  -- succeeded.
  pub complete_all_succeeded :
      (n : Str) (s : NodeStatus) → get n run.statuses ≡ some s → s ≡ success
  complete_all_succeeded n s g = succeeded_below (suc (rank n)) n s (omega arith) g
