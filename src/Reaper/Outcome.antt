-- ===== src/Reaper/Outcome.antt =====
-- The two ways in which the reaper finds the final status of a run (`outcome_status_for` and
-- `reconcile_postgres_in_progress_run` of coordinator/src/reaper.rs).
use mathlib.Core.Option
use jefferies.Prelude.{
  Str, str_inst, ◌≡◌, refl, sym, ap, ◌∙◌, Bool, true, false, Option, none, some, List, map, all,
  get, contains_key_of_get, get_of_contains_key, all-get, all_of_get, arith, if◌then◌else◌,
}
use jefferies.Pipelines.{Pipeline}
use jefferies.Pipelines.Merge.{node_info}
use jefferies.Run.{NodeStatus, same_status, is_status, from_run_state}
use jefferies.Run
use jefferies.Run.Ready.{all-contains, all_of_contains}
use jefferies.RunHistory.{RunStatus, NodeRunRow}
use jefferies.RunHistory
use jefferies.Reaper.{Env, outcome_status_for}
use jefferies.Reaper.Postgres.{
  known_success, status_of, status_of_row, reconstruct_run_state_from_postgres, is_true,
  reconciled_status,
}
use jefferies.Reaper.Resumed.{resumed_run, node_names, has_status, status-FromRow, statuses-IsMap}

row_success :
    (o : Option NodeRunRow) (s : NodeStatus)
    → s ≡ status_of_row o
    → same_status s Run.success ≡ is_true (Option.bind o (λ nr. nr.success))
unfolding Option.bind
row_success none s h = rw h refl
row_success (some nr) s h = rw h (known nr.success)
  where
    known : (b : Option Bool) → same_status (status_of b) Run.success ≡ is_true b
    known none = refl
    known (some true) = refl
    known (some false) = refl

same_bool : (a b : Bool) → (a ≡ true → b ≡ true) → (b ≡ true → a ≡ true) → a ≡ b
same_bool a b f g = ground arith

module _ (env : Env) (id : Str) (p : Pipeline) (m : List (Str × NodeRunRow)) where
  abbrev names : List Str
  names = node_names p

  all_statuses :
      all (λ e. same_status e.1 Run.success) (resumed_run p m).statuses
      ≡ all (λ n. is_true (known_success m n)) names
  all_statuses =
      same_bool _ _
        (λ h.
          all_of_contains (λ n. is_true (known_success m n)) names
            λ n c.
              let (s, found) =
                get_of_contains_key n (resumed_run p m).statuses (has_status p m n ∙ c) in
              sym (row_success (get n m) s (status-FromRow p m n s found))
              ∙ all-get (λ e. same_status e.1 Run.success) n (resumed_run p m).statuses h found)
        (λ h.
          all_of_get (λ e. same_status e.1 Run.success) (resumed_run p m).statuses
            (statuses-IsMap p m)
            λ k s found.
              row_success (get k m) s (status-FromRow p m k s found)
              ∙ all-contains (λ n. is_true (known_success m n)) names k h
                  (sym (has_status p m k) ∙ contains_key_of_get k (resumed_run p m).statuses found))

  -- The status that the reaper writes for a run from the rows of its nodes is the one that it would
  -- write from the state that is rebuilt from these rows.
  pub reconciled_status-eq-outcome_status_for :
      reconciled_status env id (map (λ n. n.name) (node_info p)) m
      ≡ outcome_status_for (reconstruct_run_state_from_postgres p m)
  unfolding reconciled_status outcome_status_for reconstruct_run_state_from_postgres from_run_state
  reconciled_status-eq-outcome_status_for =
      ap (λ b. if b then RunHistory.success else RunHistory.failure) (sym all_statuses)
