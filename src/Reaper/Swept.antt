-- ===== src/Reaper/Swept.antt =====
-- The evidence below each step of the sweeps over stored runs (coordinator/src/reaper.rs).
use jefferies.Prelude.{
  Str, str_inst, str_eq_refl, Bool, true, Option, none, some, is_some, List, ◌∷◌, ◌≡◌, refl, arith,
}
use jefferies.Run.{RunState}
use jefferies.RunHistory.{PipelineRunRow}
use jefferies.Reaper.{
  Call, load_run, get_pipeline_run, finalize_status, utc_now, Env, outcome_status_for,
  run_context_from_row,
}
use jefferies.Reaper.Reclaim.{
  finalize_unrecoverable_orphan, resumed, with_row, with_state, reclaim_run,
}
use jefferies.Reaper.Sweep.{reaped, reaped_if, terminal, reap_terminal, orphan, reap_orphan}
use jefferies.Reaper.Evidence.{clears, sometime, justified, Fine, start_run-Fine}

module _ (env : Env) where
  pub reaped-Fine :
      (id : Str) (t : List Call)
      → Fine env t
      → sometime (clears env id) t ≡ true
      → Fine env (reaped env id t)
  unfolding justified sometime
  reaped-Fine id t h c = ground arith

  pub reaped_if-Fine :
      (id : Str) (o : Option Bool) (t : List Call)
      → Fine env t
      → (is_some o ≡ true → sometime (clears env id) t ≡ true)
      → Fine env (reaped_if env id o t)
  reaped_if-Fine id none t h c = h
  reaped_if-Fine id (some changed) t h c = reaped-Fine id t h (c refl)

  pub terminal-Fine :
      (id : Str) (o : Option (Option RunState)) (t : List Call)
      → env.loaded (load_run id ∷ t) ≡ o
      → Fine env t
      → Fine env (terminal env id o (load_run id ∷ t))
  unfolding justified sometime
  terminal-Fine id none t eq h = h
  terminal-Fine id (some none) t eq h =
      reaped-Fine id (load_run id ∷ t) h (rw (eq, str_eq_refl id) refl)
  terminal-Fine id (some (some state)) t eq h =
      let t1 = utc_now ∷ load_run id ∷ t in
      let t2 = finalize_status id (outcome_status_for state) (env.now t1) ∷ t1 in
      reaped_if-Fine id (env.finalized t2) t2 h (λ f. rw (f, str_eq_refl id) refl)

  pub reap_terminal-Fine :
      (id : Str) (t : List Call) → Fine env t → Fine env (reap_terminal env id t)
  unfolding reap_terminal
  reap_terminal-Fine id t h = terminal-Fine id (env.loaded (load_run id ∷ t)) t refl h

  pub orphan-Fine :
      (id : Str) (o : Option (Option RunState)) (t : List Call)
      → env.loaded (load_run id ∷ t) ≡ o
      → Fine env t
      → Fine env (orphan env id o (load_run id ∷ t))
  unfolding justified sometime
  orphan-Fine id (some (some state)) t eq h = h
  orphan-Fine id (some none) t eq h = h
  orphan-Fine id none t eq h = rw (eq, str_eq_refl id) h

  pub reap_orphan-Fine : (id : Str) (t : List Call) → Fine env t → Fine env (reap_orphan env id t)
  unfolding reap_orphan
  reap_orphan-Fine id t h = orphan-Fine id (env.loaded (load_run id ∷ t)) t refl h

  pub resumed-Fine :
      (id : Str) (o : Option (Option RunState)) (row : PipelineRunRow) (t : List Call)
      → env.loaded (load_run id ∷ t) ≡ o
      → Fine env t
      → Fine env (resumed env id o row (load_run id ∷ t))
  unfolding justified sometime
  resumed-Fine id (some (some state)) row t eq h =
      start_run-Fine env id state.pipeline (run_context_from_row row) (load_run id ∷ t) h
        (rw (eq, str_eq_refl id) refl)
  resumed-Fine id (some none) row t eq h = h
  resumed-Fine id none row t eq h = h

  pub with_row-Fine :
      (id : Str) (o : Option (Option PipelineRunRow)) (t : List Call)
      → env.pipeline_run (get_pipeline_run id ∷ t) ≡ o
      → Fine env t
      → Fine env (with_row env id o (get_pipeline_run id ∷ t))
  unfolding justified sometime finalize_unrecoverable_orphan
  with_row-Fine id (some (some row)) t eq h =
      resumed-Fine id (env.loaded (load_run id ∷ get_pipeline_run id ∷ t)) row
        (get_pipeline_run id ∷ t) refl h
  with_row-Fine id (some none) t eq h = rw (eq, str_eq_refl id) h
  with_row-Fine id none t eq h = h

  pub with_state-Fine :
      (id : Str) (o : Option (Option RunState)) (t : List Call)
      → Fine env t
      → Fine env (with_state env id o t)
  with_state-Fine id (some (some state)) t h =
      with_row-Fine id (env.pipeline_run (get_pipeline_run id ∷ t)) t refl h
  with_state-Fine id (some none) t h = h
  with_state-Fine id none t h = h

  pub reclaim_run-Fine : (id : Str) (t : List Call) → Fine env t → Fine env (reclaim_run env id t)
  unfolding reclaim_run justified
  reclaim_run-Fine id t h = with_state-Fine id (env.loaded (load_run id ∷ t)) (load_run id ∷ t) h
