-- ===== src/Reaper/Checked.antt =====
-- The check of the rows against S3 (the loop of `reconcile_postgres_in_progress_run` in
-- coordinator/src/reaper.rs).
use mathlib.Core.Option
use jefferies.Prelude.{
  ℕ, Str, str_eq, str_eq_iff, str_inst, ◌≡◌, refl, subst, Bool, true, false, Option, none, some,
  is_some, List, [], ◌∷◌, get, insert, get-insert, if◌then◌else◌, Bool-cases, inl, inr,
}
use jefferies.RunHistory.{NodeRunRow}
use jefferies.SourceManager.{NodeOutcome}
use jefferies.Reaper.{Env, get_node_outcome}
use jefferies.Reaper.Postgres.{
  known_success, Rows, written, finished, read, check_row, check_node, check_nodes,
}

module _ (env : Env) (id : Str) where
  -- The row of one node after a check of another, or of itself.
  abbrev Keeps : Rows → Rows → Type 0
  Keeps before after =
      (k : Str) (b : Bool) → known_success before.1 k ≡ some b → known_success after.1 k ≡ some b

  insert-keeps :
      (n : Str) (nr nr' : NodeRunRow) (m : List (Str × NodeRunRow))
      → get n m ≡ some nr
      → nr.success ≡ none
      → (k : Str) (b : Bool) → known_success m k ≡ some b
      → known_success (insert n nr' m) k ≡ some b
  unfolding Option.bind
  insert-keeps n nr nr' m found open_ k b known = elim (Bool-cases (str_eq n k)) [
    | inl same ↦
        let here : get k m ≡ some nr =
          subst (λ x. get x m ≡ some nr) ((str_eq_iff n k).0 same) found in
        let clash : nr.success ≡ some b =
          subst (λ o. Option.bind o (λ r. r.success) ≡ some b) here known in
        cc
    | inr differ ↦ rw (get-insert n k nr' m, differ) known
  ]

  pick :
      (c : Bool) (m' m : List (Str × NodeRunRow)) (k : Str) (b : Bool)
      → known_success m' k ≡ some b
      → known_success m k ≡ some b
      → known_success (if c then m' else m) k ≡ some b
  pick true m' m k b p q = p
  pick false m' m k b p q = q

  written-Keeps :
      (n : Str) (nr : NodeRunRow) (s : Bool) (f g : Option ℕ) (rows : Rows)
      → get n rows.1 ≡ some nr
      → nr.success ≡ none
      → Keeps rows (written env id n nr s f g rows)
  written-Keeps n nr s f g (t, m) found open_ k b known =
      pick (env.recorded _)
        (insert n (record nr { success = some s; started_at = f; completed_at = g }) m) m k b
        (insert-keeps n nr _ m found open_ k b known) known

  finished-Keeps :
      (n : Str) (nr : NodeRunRow) (s : Option Bool) (f g : Option ℕ) (rows : Rows)
      → get n rows.1 ≡ some nr
      → nr.success ≡ none
      → Keeps rows (finished env id n nr s f g rows)
  finished-Keeps n nr (some s) (some f) g rows found open_ k b known =
      written-Keeps n nr s _ _ rows found open_ k b known
  finished-Keeps n nr (some s) none g rows found open_ k b known = known
  finished-Keeps n nr none f g rows found open_ k b known = known

  read-Keeps :
      (n : Str) (nr : NodeRunRow) (o : Option (Option NodeOutcome)) (rows : Rows)
      → get n rows.1 ≡ some nr
      → nr.success ≡ none
      → Keeps rows (read env id n nr o rows)
  read-Keeps n nr (some (some o)) rows found open_ k b known =
      finished-Keeps n nr o.success o.finished_at o.started_at rows found open_ k b known
  read-Keeps n nr (some none) rows found open_ k b known = known
  read-Keeps n nr none rows found open_ k b known = known

  not_known : (o : Option Bool) → is_some o ≡ false → o ≡ none
  not_known none h = refl
  not_known (some b) h = cc

  check_row-Keeps :
      (n : Str) (o : Option NodeRunRow) (rows : Rows)
      → get n rows.1 ≡ o
      → Keeps rows (check_row env id n o rows)
  check_row-Keeps n none rows found k b known = known
  check_row-Keeps n (some nr) (t, m) found k b known = elim (Bool-cases (is_some nr.success)) [
    | inl done ↦ rw done known
    | inr open_ ↦ rw open_ (
        read-Keeps n nr (env.outcome (get_node_outcome id n ∷ t)) (get_node_outcome id n ∷ t, m)
          found (not_known nr.success open_) k b known)
  ]

  -- The check of the rows against S3 changes no success that the history already knows, whatever S3
  -- and the history answer.
  pub check_nodes-keeps :
      (nodes : List Str) (rows : Rows) (k : Str) (b : Bool)
      → known_success rows.1 k ≡ some b
      → known_success (check_nodes env id nodes rows).1 k ≡ some b
  unfolding check_nodes check_node
  check_nodes-keeps [] rows k b known = known
  check_nodes-keeps (n ∷ nodes) rows k b known =
      check_nodes-keeps nodes (check_node env id n rows) k b
        (check_row-Keeps n (get n rows.1) rows refl k b known)
