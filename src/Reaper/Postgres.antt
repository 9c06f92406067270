-- ===== src/Reaper/Postgres.antt =====
-- `sweep_postgres_in_progress_runs` and what it calls (coordinator/src/reaper.rs).
use mathlib.Core.Option
use jefferies.Prelude.{
  ℕ, Str, str_inst, Bool, true, false, Option, none, some, is_some, List, [], ◌∷◌, all, map, get,
  insert, collect, Result, ok, err, if◌then◌else◌,
}
use jefferies.Pipelines.{Pipeline}
use jefferies.Pipelines.Merge.{node_info}
use jefferies.Pipelines.Validate.{PipelineError, from_yaml}
use jefferies.Run.{NodeStatus, pending, running, failed, RunState}
use jefferies.Run
use jefferies.RunHistory.{RunStatus, success, failure, PipelineRunRow, NodeRunRow}
use jefferies.SourceManager.{NodeOutcome}
use jefferies.Reaper.{
  Call, list_in_progress_runs, load_run, list_node_runs, get_node_outcome, record_node_run, utc_now,
  finalize_status, cleanup_run, save_run, Env, each, each_listed, run_context_from_row,
  ms_to_datetime, start_run,
}

-- `by_name.get(n).and_then(|nr| nr.success)`
abbrev pub known_success : List (Str × NodeRunRow) → Str → Option Bool
known_success by_name node_name = Option.bind (get node_name by_name) (λ nr. nr.success)

-- `… == Some(true)`
abbrev pub is_true : Option Bool → Bool
is_true (some b) = b
is_true none = false

abbrev pub status_of : Option Bool → NodeStatus
status_of (some true) = Run.success
status_of (some false) = failed
status_of none = running

abbrev pub status_of_row : Option NodeRunRow → NodeStatus
status_of_row none = pending
status_of_row (some nr) = status_of nr.success

unfoldable pub reconstruct_run_state_from_postgres : Pipeline → List (Str × NodeRunRow) → RunState
unfolding node_info get collect
reconstruct_run_state_from_postgres pipeline node_runs_by_name = record {
  version = 0;
  statuses =
      collect
        (map (λ n. (n.name, status_of_row (get n.name node_runs_by_name))) (node_info pipeline));
  dependencies = collect (map (λ n. (n.name, n.dependencies)) (node_info pipeline));
  pipeline = pipeline;
}

-- The trace and the map of the rows.
abbrev pub Rows : Type 0
Rows = List Call × List (Str × NodeRunRow)

module _ (env : Env) (run_id : Str) where
  module _ (node_name : Str) where
    -- The row is changed only when the record was written.
    abbrev pub written : NodeRunRow → Bool → Option ℕ → Option ℕ → Rows → Rows
    written nr node_success started_at completed_at (t, m) =
        let t' =
          record_node_run (record {
            run_id = run_id;
            node_name = node_name;
            node_definition = nr.node_definition;
            success = node_success;
            created_at = nr.created_at;
            started_at = started_at;
            completed_at = completed_at;
            output_log = none;
            failure_reason = none;
          })
          ∷ t in
        let nr' = record nr {
          success = some node_success;
          started_at = started_at;
          completed_at = completed_at;
        } in
        (t', if env.recorded t' then insert node_name nr' m else m)

    abbrev pub finished : NodeRunRow → Option Bool → Option ℕ → Option ℕ → Rows → Rows
    finished nr (some node_success) (some finished_ms) started rows =
        written nr node_success (Option.bind started (ms_to_datetime env))
          (ms_to_datetime env finished_ms) rows
    finished nr _ _ started rows = rows

    abbrev pub read : NodeRunRow → Option (Option NodeOutcome) → Rows → Rows
    read nr (some (some o)) rows = finished nr o.success o.finished_at o.started_at rows
    read nr _ rows = rows

    abbrev pub check_row : Option NodeRunRow → Rows → Rows
    check_row none rows = rows
    check_row (some nr) (t, m) =
        let t' = get_node_outcome run_id node_name ∷ t in
        if is_some nr.success then (t, m) else read nr (env.outcome t') (t', m)

    unfoldable pub check_node : Rows → Rows
    unfolding get insert ms_to_datetime
    check_node (t, m) = check_row (get node_name m) (t, m)

  unfoldable pub check_nodes : List Str → Rows → Rows
  unfolding check_node
  check_nodes [] rows = rows
  check_nodes (node_name ∷ nodes) rows = check_nodes nodes (check_node node_name rows)

  unfoldable pub all_known : List Str → List (Str × NodeRunRow) → Bool
  unfolding get
  all_known expected m = all (λ n. is_some (known_success m n)) expected

  unfoldable pub reconciled_status : List Str → List (Str × NodeRunRow) → RunStatus
  unfolding get
  reconciled_status expected m =
      if all (λ n. is_true (known_success m n)) expected then success else failure

  unfoldable pub finalize : List Str → Rows → List Call
  unfolding reconciled_status
  finalize expected (t, m) =
      let t' = utc_now ∷ t in
      cleanup_run run_id ∷ finalize_status run_id (reconciled_status expected m) (env.now t') ∷ t'

  -- Only a state that was stored is resumed.
  abbrev pub started : Option Bool → PipelineRunRow → Pipeline → List Call → List Call
  started (some true) row pipeline t = start_run env run_id pipeline (run_context_from_row row) t
  started (some false) row pipeline t = t
  started none row pipeline t = t

  unfoldable pub resume : PipelineRunRow → Pipeline → Rows → List Call
  unfolding reconstruct_run_state_from_postgres run_context_from_row
  resume row pipeline (t, m) =
      let t' = save_run run_id (reconstruct_run_state_from_postgres pipeline m) 0 ∷ t in
      started (env.saved t') row pipeline t'

  abbrev pub decide : PipelineRunRow → Pipeline → List Str → Rows → List Call
  decide row pipeline expected rows =
      if all_known expected rows.1 then finalize expected rows else resume row pipeline rows

  abbrev pub with_rows :
      PipelineRunRow → Pipeline → Option (List NodeRunRow) → List Call → List Call
  with_rows row pipeline none t = t
  with_rows row pipeline (some node_runs) t =
      let expected = map (λ n. n.name) (node_info pipeline) in
      decide row pipeline expected
        (check_nodes expected (t, collect (map (λ nr. (nr.node_name, nr)) node_runs)))

  abbrev pub with_pipeline : PipelineRunRow → Result PipelineError Pipeline → List Call → List Call
  with_pipeline row (err e) t = t
  with_pipeline row (ok pipeline) t =
      let t' = list_node_runs run_id ∷ t in with_rows row pipeline (env.node_runs t') t'

  unfoldable pub reconcile_postgres_in_progress_run : PipelineRunRow → List Call → List Call
  unfolding from_yaml node_info collect check_nodes all_known finalize resume
  reconcile_postgres_in_progress_run row t =
      with_pipeline row (from_yaml env.parse row.pipeline_definition) t

module _ (env : Env) (row : PipelineRunRow) where
  abbrev pub unless_stored : Option (Option RunState) → List Call → List Call
  unless_stored (some none) t = reconcile_postgres_in_progress_run env row.run_id row t
  unless_stored (some (some state)) t = t
  unless_stored none t = t

  unfoldable pub sweep_row : List Call → List Call
  unfolding reconcile_postgres_in_progress_run
  sweep_row t = let t' = load_run row.run_id ∷ t in unless_stored (env.loaded t') t'

unfoldable pub sweep_postgres_in_progress_runs : Env → List Call → List Call
unfolding each sweep_row
sweep_postgres_in_progress_runs env t =
    let t' = list_in_progress_runs ∷ t in each_listed (sweep_row env) (env.in_progress_runs t') t'
