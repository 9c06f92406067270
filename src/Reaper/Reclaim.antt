-- ===== src/Reaper/Reclaim.antt =====
-- `reclaim_orphaned_runs` and `finalize_unrecoverable_orphan` (coordinator/src/reaper.rs).
use jefferies.Prelude.{Str, Option, none, some, List, ◌∷◌}
use jefferies.Run.{RunState}
use jefferies.RunHistory.{PipelineRunRow}
use jefferies.Reaper.{
  Call, get_orphaned_runs, load_run, get_pipeline_run, cleanup_run, release_lease, delete_run, Env,
  each, each_listed, run_context_from_row, start_run,
}

unfoldable pub finalize_unrecoverable_orphan : Str → List Call → List Call
finalize_unrecoverable_orphan run_id t =
    delete_run run_id ∷ release_lease run_id ∷ cleanup_run run_id ∷ t

module _ (env : Env) (run_id : Str) where
  abbrev pub resumed : Option (Option RunState) → PipelineRunRow → List Call → List Call
  resumed (some (some state)) row t =
      start_run env run_id state.pipeline (run_context_from_row row) t
  resumed (some none) row t = t
  resumed none row t = t

  abbrev pub with_row : Option (Option PipelineRunRow) → List Call → List Call
  with_row (some (some row)) t = let t' = load_run run_id ∷ t in resumed (env.loaded t') row t'
  with_row (some none) t = finalize_unrecoverable_orphan run_id t
  with_row none t = t

  -- A state that is not there and one that cannot be loaded are one here.
  abbrev pub with_state : Option (Option RunState) → List Call → List Call
  with_state (some (some state)) t =
      let t' = get_pipeline_run run_id ∷ t in with_row (env.pipeline_run t') t'
  with_state (some none) t = t
  with_state none t = t

  unfoldable pub reclaim_run : List Call → List Call
  unfolding finalize_unrecoverable_orphan run_context_from_row
  reclaim_run t = let t' = load_run run_id ∷ t in with_state (env.loaded t') t'

unfoldable pub reclaim_orphaned_runs : Env → List Call → List Call
unfolding each reclaim_run
reclaim_orphaned_runs env t =
    let t' = get_orphaned_runs ∷ t in each_listed (reclaim_run env) (env.orphaned t') t'
