-- ===== src/Run/Stored.antt =====
-- The stored form of a run: `to_run_state` and `from_run_state` (coordinator/src/run.rs) against
-- `run_state_is_terminal` (state_store/src/lib.rs).
use jefferies.Prelude.{
  ℕ, Str, str_inst, ◌≡◌, refl, sym, ◌∙◌, ◌↔◌, Bool, true, false, not, ◌&&◌, some, List, [], ◌∷◌,
  map, all, any, get, collect-IsMap_id, any-get, any_of_get, arith, if◌then◌else◌, Bool-cases, inl,
  inr, contains_key_of_get, get_of_contains_key,
}
use jefferies.Pipelines.{Pipeline}
use jefferies.Run.{
  NodeStatus, pending, running, success, same_status, is_status, RunState, PipelineRun, to_set,
  from_run_state, to_run_state, is_complete, deps_satisfied,
}
use jefferies.Run.Sets.{to_set-IsDistinct_id}
use jefferies.Run.WellFormed.{WellFormed, DepsDistinct}
use jefferies.Run.Marks.{is_status-eq}
use jefferies.Run.Ready.{DepsSucceeded, deps_satisfied_iff, is_complete_exact}

-- `run_state_is_terminal` of the state store
unfoldable pub run_state_is_terminal : RunState → Bool
unfolding get
run_state_is_terminal state =
    if any (λ e. same_status e.1 running) state.statuses
    then false
    else not (
        any
          (λ e.
            is_status (get e.0 state.statuses) pending
            && all (λ d. is_status (get d state.statuses) success) e.1)
          state.dependencies)

map-to_set : (m : List (Str × List Str)) → DepsDistinct m → map (λ e. (e.0, to_set e.1)) m ≡ m
map-to_set [] h = refl
map-to_set ((n, deps) ∷ m) h = rw (to_set-IsDistinct_id deps h.0, map-to_set m h.1)

-- A well-formed run that is stored and loaded again is the same run.
pub from-to_run_state :
    (run : PipelineRun) (version : ℕ) (pipeline : Pipeline)
    → WellFormed run
    → from_run_state (to_run_state run version pipeline) ≡ run
unfolding from_run_state to_run_state
from-to_run_state run version pipeline w =
    rw (collect-IsMap_id run.dependencies w.dependencies_map) (
      rw (map-to_set run.dependencies w.deps_distinct)
        (rw (collect-IsMap_id run.dependencies w.dependencies_map)))

-- The store's test on one entry of the dependencies.
abbrev dispatchable : List (Str × NodeStatus) → Str × List Str → Bool
dispatchable statuses e =
    is_status (get e.0 statuses) pending && all (λ d. is_status (get d statuses) success) e.1

entry_satisfied :
    (run : PipelineRun) (n : Str) (deps : List Str)
    → get n run.dependencies ≡ some deps
    → deps_satisfied run n ≡ all (λ d. is_status (get d run.statuses) success) deps
unfolding deps_satisfied
entry_satisfied run n deps g = rw g

known_of_pending :
    (run : PipelineRun) (n : Str)
    → WellFormed run
    → get n run.statuses ≡ some pending
    → (deps : List Str) × (get n run.dependencies ≡ some deps)
known_of_pending run n w g =
    get_of_contains_key n run.dependencies
      (sym (w.same_nodes n) ∙ contains_key_of_get n {v = pending} run.statuses g)

no_entry_dispatchable :
    (run : PipelineRun)
    → WellFormed run
    → (any (dispatchable run.statuses) run.dependencies ≡ false)
      ↔ ((n : Str) → get n run.statuses ≡ some pending → ¬ DepsSucceeded run n)
no_entry_dispatchable run w = (
  λ idle n g d.
      let (deps, found) = known_of_pending run n w g in
      cc (
        any-get (dispatchable run.statuses) n run.dependencies idle found,
        entry_satisfied run n deps found,
        (deps_satisfied_iff run n).1 d,
        g,
      ),
  λ blocked. elim (Bool-cases (any (dispatchable run.statuses) run.dependencies)) [
    | inr idle ↦ idle
    | inl busy ↦
        let (n, deps, found, q) =
          any_of_get (dispatchable run.statuses) run.dependencies w.dependencies_map busy in
        absurd (
          blocked n (is_status-eq (get n run.statuses) pending (ground arith))
            ((deps_satisfied_iff run n).0 (entry_satisfied run n deps found ∙ ground arith)))
  ],
)

-- The store's test for a finished run, on the stored form of a well-formed run, agrees with the
-- coordinator's test on the run.
pub run_state_is_terminal-eq-is_complete :
    (run : PipelineRun) (version : ℕ) (pipeline : Pipeline)
    → WellFormed run
    → run_state_is_terminal (to_run_state run version pipeline) ≡ is_complete run
unfolding run_state_is_terminal to_run_state
run_state_is_terminal-eq-is_complete run version pipeline w =
    rw (collect-IsMap_id run.dependencies w.dependencies_map)
      (elim (Bool-cases (any (λ e. same_status e.1 running) run.statuses)) [
        | inl busy ↦ rw busy (sym (unfold is_complete in rw busy))
        | inr idle ↦ rw idle (elim (Bool-cases (any (dispatchable run.statuses) run.dependencies)) [
          | inl more ↦ rw more (
              sym (
                not_complete (λ c. cc (
                  (no_entry_dispatchable run w).1 ((is_complete_exact run w.statuses_map).0 c).1))))
          | inr nothing ↦ rw nothing (
              sym (
                (is_complete_exact run w.statuses_map).1 (
                  λ n g. cc (any-get (λ e. same_status e.1 running) n run.statuses idle g),
                  (no_entry_dispatchable run w).0 nothing,
                )))
        ])
      ])
  where
    not_complete : (is_complete run ≡ true → ⊥) → is_complete run ≡ false
    not_complete f = elim (Bool-cases (is_complete run)) [ inl c ↦ absurd (f c) | inr c ↦ c ]
