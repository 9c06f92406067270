-- ===== src/Reaper/Sweep.antt =====
-- The sweeps over terminal runs and over orphan resources, and the loop of the reaper
-- (coordinator/src/reaper.rs).
use jefferies.Prelude.{Str, Bool, Option, none, some, List, [], ◌∷◌}
use jefferies.Run.{RunState}
use jefferies.Reaper.{
  Call, list_terminal_unleased_runs, list_managed_run_ids, load_run, cleanup_run, release_lease,
  delete_run, utc_now, finalize_status, Env, each, each_listed, outcome_status_for,
}
use jefferies.Reaper.Reclaim.{reclaim_orphaned_runs}
use jefferies.Reaper.Postgres.{sweep_postgres_in_progress_runs}

module _ (env : Env) (run_id : Str) where
  abbrev pub reaped : List Call → List Call
  reaped t = delete_run run_id ∷ release_lease run_id ∷ cleanup_run run_id ∷ t

  -- A status that cannot be written defers the cleanup.
  abbrev pub reaped_if : Option Bool → List Call → List Call
  reaped_if none t = t
  reaped_if (some changed) t = reaped t

  abbrev pub terminal : Option (Option RunState) → List Call → List Call
  terminal none t = t
  terminal (some none) t = reaped t
  terminal (some (some state)) t =
      let t1 = utc_now ∷ t in
      let t2 = finalize_status run_id (outcome_status_for state) (env.now t1) ∷ t1 in
      reaped_if (env.finalized t2) t2

  unfoldable pub reap_terminal : List Call → List Call
  unfolding outcome_status_for
  reap_terminal t = let t' = load_run run_id ∷ t in terminal (env.loaded t') t'

  -- A state that cannot be loaded is deleted, one that can be keeps its resources.
  abbrev pub orphan : Option (Option RunState) → List Call → List Call
  orphan (some (some state)) t = t
  orphan (some none) t = cleanup_run run_id ∷ t
  orphan none t = delete_run run_id ∷ cleanup_run run_id ∷ t

  unfoldable pub reap_orphan : List Call → List Call
  reap_orphan t = let t' = load_run run_id ∷ t in orphan (env.loaded t') t'

module _ (env : Env) where
  unfoldable pub sweep_terminal_redis_runs : List Call → List Call
  unfolding each reap_terminal
  sweep_terminal_redis_runs t =
      let t' = list_terminal_unleased_runs ∷ t in
      each_listed (reap_terminal env) (env.terminal_unleased t') t'

  unfoldable pub sweep_orphan_kube_resources : List Call → List Call
  unfolding each reap_orphan
  sweep_orphan_kube_resources t =
      let t' = list_managed_run_ids ∷ t in each_listed (reap_orphan env) (env.managed t') t'

  unfoldable pub sweep_stranded_resources : List Call → List Call
  unfolding sweep_terminal_redis_runs sweep_postgres_in_progress_runs sweep_orphan_kube_resources
  sweep_stranded_resources t =
      sweep_orphan_kube_resources
        (sweep_postgres_in_progress_runs env (sweep_terminal_redis_runs t))

-- The two intervals; a list of ticks stands for what `select!` takes.
pub data Tick : Type 0 where
  lease_tick sweep_tick : Tick

module _ (env : Env) where
  unfoldable pub on_tick : Tick → List Call → List Call
  unfolding reclaim_orphaned_runs sweep_stranded_resources
  on_tick lease_tick t = reclaim_orphaned_runs env t
  on_tick sweep_tick t = sweep_stranded_resources env t

  unfoldable pub ticks : List Tick → List Call → List Call
  unfolding on_tick
  ticks [] t = t
  ticks (tick ∷ rest) t = ticks rest (on_tick tick t)

  -- The startup sweep, and then the loop.
  unfoldable pub start_reaper : List Tick → List Call
  unfolding ticks
  start_reaper rest = ticks rest (sweep_stranded_resources env (reclaim_orphaned_runs env []))
