-- ===== src/Reaper/Rows.antt =====
-- The evidence below each step of the sweep over the rows of the history (coordinator/src/reaper.rs).
use jefferies.Prelude.{
  ℕ, Str, str_inst, str_eq_refl, Bool, true, false, Option, none, some, is_some, List, [], ◌∷◌, ◌≡◌,
  refl, map, if◌then◌else◌, collect, Result, ok, err, Bool-cases, inl, inr, get,
}
use jefferies.Run.{RunState}
use jefferies.Pipelines.{Pipeline}
use jefferies.Pipelines.Merge.{node_info}
use jefferies.Pipelines.Validate.{PipelineError, from_yaml}
use jefferies.RunHistory.{PipelineRunRow, NodeRunRow}
use jefferies.SourceManager.{NodeOutcome}
use jefferies.Reaper.{Call, get_node_outcome, save_run, Env, run_context_from_row}
use jefferies.Reaper.Postgres.{
  Rows, finished, read, check_row, check_node, check_nodes, all_known, finalize, started, resume,
  with_rows, with_pipeline, reconcile_postgres_in_progress_run, unless_stored,
}
use jefferies.Reaper.Evidence.{agreed, backs, sometime, justified, Fine, start_run-Fine}

module _ (env : Env) where
  pub if-Fine :
      (b : Bool) (x y : List Call) → Fine env x → Fine env y → Fine env (if b then x else y)
  if-Fine true x y p q = p
  if-Fine false x y p q = q

  pub started-Fine :
      (id : Str) (o : Option Bool) (row : PipelineRunRow) (p : Pipeline) (t : List Call)
      → Fine env t
      → (agreed o ≡ true → sometime (backs env id) t ≡ true)
      → Fine env (started env id o row p t)
  started-Fine id (some true) row p t h b =
      start_run-Fine env id p (run_context_from_row row) t h (b refl)
  started-Fine id (some false) row p t h b = h
  started-Fine id none row p t h b = h

  module _ (id : Str) where
    pub finished-Fine :
        (n : Str) (nr : NodeRunRow) (s : Option Bool) (f g : Option ℕ) (rows : Rows)
        → Fine env rows.0
        → Fine env (finished env id n nr s f g rows).0
    unfolding justified
    finished-Fine n nr (some s) (some f) g rows h = h
    finished-Fine n nr (some s) none g rows h = h
    finished-Fine n nr none f g rows h = h

    pub read-Fine :
        (n : Str) (nr : NodeRunRow) (o : Option (Option NodeOutcome)) (rows : Rows)
        → Fine env rows.0
        → Fine env (read env id n nr o rows).0
    read-Fine n nr (some (some o)) rows h =
        finished-Fine n nr o.success o.finished_at o.started_at rows h
    read-Fine n nr (some none) rows h = h
    read-Fine n nr none rows h = h

    pub check_row-Fine :
        (n : Str) (o : Option NodeRunRow) (rows : Rows)
        → Fine env rows.0
        → Fine env (check_row env id n o rows).0
    unfolding justified
    check_row-Fine n none rows h = h
    check_row-Fine n (some nr) (t, m) h = elim (Bool-cases (is_some nr.success)) [
      | inl known ↦ rw known h
      | inr open_ ↦ rw open_ (
          read-Fine n nr (env.outcome (get_node_outcome id n ∷ t)) (get_node_outcome id n ∷ t, m) h)
    ]

    pub check_nodes-Fine :
        (nodes : List Str) (rows : Rows)
        → Fine env rows.0
        → Fine env (check_nodes env id nodes rows).0
    unfolding check_nodes check_node
    check_nodes-Fine [] rows h = h
    check_nodes-Fine (n ∷ nodes) rows h =
        check_nodes-Fine nodes (check_node env id n rows) (check_row-Fine n (get n rows.1) rows h)

    pub resume-Fine :
        (row : PipelineRunRow) (p : Pipeline) (rows : Rows)
        → Fine env rows.0
        → Fine env (resume env id row p rows)
    unfolding resume justified sometime
    resume-Fine row p (t, m) h =
        started-Fine id (env.saved (save_run id _ 0 ∷ t)) row p (save_run id _ 0 ∷ t) h
          (λ b. rw (b, str_eq_refl id) refl)

    pub with_rows-Fine :
        (row : PipelineRunRow) (p : Pipeline) (o : Option (List NodeRunRow)) (t : List Call)
        → Fine env t
        → Fine env (with_rows env id row p o t)
    unfolding finalize justified
    with_rows-Fine row p none t h = h
    with_rows-Fine row p (some rs) t h =
        let expected = map (λ n. n.name) (node_info p) in
        let rows = check_nodes env id expected (t, collect (map (λ nr. (nr.node_name, nr)) rs)) in
        let fine = check_nodes-Fine expected (t, collect (map (λ nr. (nr.node_name, nr)) rs)) h in
        if-Fine (all_known env id expected rows.1) (finalize env id expected rows)
          (resume env id row p rows) fine (resume-Fine row p rows fine)

    pub with_pipeline-Fine :
        (row : PipelineRunRow) (r : Result PipelineError Pipeline) (t : List Call)
        → Fine env t
        → Fine env (with_pipeline env id row r t)
    unfolding justified
    with_pipeline-Fine row (err e) t h = h
    with_pipeline-Fine row (ok p) t h = with_rows-Fine row p (env.node_runs _) _ h

  pub unless_stored-Fine :
      (row : PipelineRunRow) (o : Option (Option RunState)) (t : List Call)
      → Fine env t
      → Fine env (unless_stored env row o t)
  unfolding reconcile_postgres_in_progress_run
  unless_stored-Fine row (some none) t h =
      with_pipeline-Fine row.run_id row (from_yaml env.parse row.pipeline_definition) t h
  unless_stored-Fine row (some (some s)) t h = h
  unless_stored-Fine row none t h = h
