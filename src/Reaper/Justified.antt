-- ===== src/Reaper/Justified.antt =====
-- The evidence over the whole life of the reaper (coordinator/src/reaper.rs).
use jefferies.Prelude.{str_inst, true, List, [], ◌∷◌, ◌≡◌, refl}
use jefferies.Reaper.{
  Call, list_terminal_unleased_runs, list_in_progress_runs, list_managed_run_ids, load_run, Env,
}
use jefferies.Reaper.Reclaim.{reclaim_run, reclaim_orphaned_runs}
use jefferies.Reaper.Postgres.{sweep_row, sweep_postgres_in_progress_runs}
use jefferies.Reaper.Sweep.{
  reap_terminal, reap_orphan, sweep_terminal_redis_runs, sweep_orphan_kube_resources,
  sweep_stranded_resources, Tick, lease_tick, sweep_tick, on_tick, ticks, start_reaper,
}
use jefferies.Reaper.Evidence.{justified, Fine, each_listed-Fine}
use jefferies.Reaper.Swept.{reap_terminal-Fine, reap_orphan-Fine, reclaim_run-Fine}
use jefferies.Reaper.Rows.{unless_stored-Fine}

module _ (env : Env) where
  reclaim-Fine : (t : List Call) → Fine env t → Fine env (reclaim_orphaned_runs env t)
  unfolding reclaim_orphaned_runs justified
  reclaim-Fine t h =
      each_listed-Fine env (reclaim_run env) (reclaim_run-Fine env) (env.orphaned _) _ h

  sweep-Fine : (t : List Call) → Fine env t → Fine env (sweep_stranded_resources env t)
  unfolding sweep_stranded_resources sweep_terminal_redis_runs sweep_postgres_in_progress_runs
      sweep_orphan_kube_resources sweep_row justified
  sweep-Fine t h =
      let first =
        each_listed-Fine env (reap_terminal env) (reap_terminal-Fine env) (env.terminal_unleased _)
          (list_terminal_unleased_runs ∷ t) h in
      let second =
        each_listed-Fine env (sweep_row env)
          (λ row u g.
            unless_stored-Fine env row (env.loaded (load_run row.run_id ∷ u))
              (load_run row.run_id ∷ u) g)
          (env.in_progress_runs _) (list_in_progress_runs ∷ sweep_terminal_redis_runs env t)
          first in
      each_listed-Fine env (reap_orphan env) (reap_orphan-Fine env) (env.managed _)
        (list_managed_run_ids
          ∷ sweep_postgres_in_progress_runs env (sweep_terminal_redis_runs env t))
        second

  on_tick-Fine : (tick : Tick) (t : List Call) → Fine env t → Fine env (on_tick env tick t)
  unfolding on_tick
  on_tick-Fine lease_tick t h = reclaim-Fine t h
  on_tick-Fine sweep_tick t h = sweep-Fine t h

  ticks-Fine : (ts : List Tick) (t : List Call) → Fine env t → Fine env (ticks env ts t)
  unfolding ticks
  ticks-Fine [] t h = h
  ticks-Fine (tick ∷ ts) t h = ticks-Fine ts (on_tick env tick t) (on_tick-Fine tick t h)

-- Whatever the services answer and in whatever order its timers fire, the reaper deletes the state of
-- a run only after the store answered that there is none or that it cannot be read, the history
-- answered the write of its final status without an error (whether or not a row was changed), or the
-- history answered that it does not know the run; and it starts a coordinator only after the store
-- answered with a state of that run or accepted one at version 0.
pub start_reaper-justified :
    (env : Env) (rest : List Tick) → justified env (start_reaper env rest) ≡ true
unfolding start_reaper justified
start_reaper-justified env rest =
    ticks-Fine env rest _ (sweep-Fine env _ (reclaim-Fine env [] refl))
