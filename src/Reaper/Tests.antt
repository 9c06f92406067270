-- ===== src/Reaper/Tests.antt =====
-- The reaper on a run of two nodes (coordinator/src/reaper.rs).
use mathlib.Core.Option
use jefferies.Prelude.{
  Str, bytes, str_eq, str_inst, ◌≡◌, refl, true, false, none, some, List, [], ◌∷◌, map, contains,
  get, ok,
}
use jefferies.Pipelines.Samples.{sample_pipeline}
use jefferies.Pipelines.Merge.{node_info}
use jefferies.Run.{ready_nodes, from_run_state}
use jefferies.RunHistory.{NodeRunRow}
use jefferies.Reaper.{Env, outcome_status_for}
use jefferies.Reaper.Evidence.{justified}
use jefferies.Reaper.Sweep.{lease_tick, sweep_tick, start_reaper}
use jefferies.Reaper.Justified.{start_reaper-justified}
use jefferies.Reaper.Postgres.{
  known_success, check_nodes, reconciled_status, reconstruct_run_state_from_postgres,
}
use jefferies.Reaper.Checked.{check_nodes-keeps}
use jefferies.Reaper.Resumed.{resumed_run}
use jefferies.Reaper.Outcome.{reconciled_status-eq-outcome_status_for}

abbrev run_id : Str
run_id = bytes "run-1"

abbrev build : Str
build = bytes "build"

abbrev test : Str
test = bytes "test"

-- Services of which the store has one orphan without a state.
abbrev sample_env : Env
sample_env = record {
  orphaned = λ _. some (run_id ∷ []);
  loaded = λ _. some none;
  pipeline_run = λ _. some none;
  in_progress_runs = λ _. none;
  node_runs = λ _. some [];
  outcome = λ _. some none;
  recorded = λ _. true;
  finalized = λ _. some true;
  saved = λ _. some true;
  terminal_unleased = λ _. some (run_id ∷ []);
  managed = λ _. some [];
  now = λ _. 1000;
  has_factory = false;
  from_timestamp = λ secs nanos. some secs;
  parse = λ yaml. ok sample_pipeline;
}

abbrev row_of : Str → NodeRunRow
row_of name = record {
  id = 1;
  run_id = run_id;
  node_name = name;
  node_definition = [];
  success = some true;
  created_at = 1;
  started_at = none;
  completed_at = none;
  failure_reason = none;
}

abbrev rows : List (Str × NodeRunRow)
rows = (build, row_of build) ∷ []

start_reaper-justified_example :
    justified sample_env (start_reaper sample_env (sweep_tick ∷ lease_tick ∷ [])) ≡ true
start_reaper-justified_example = start_reaper-justified sample_env (sweep_tick ∷ lease_tick ∷ [])

check_nodes-keeps_example :
    known_success (check_nodes sample_env run_id (build ∷ test ∷ []) ([], rows)).1 build ≡ some true
unfolding get str_eq Option.bind
check_nodes-keeps_example =
    check_nodes-keeps sample_env run_id (build ∷ test ∷ []) ([], rows) build true refl

test_is_ready : contains (ready_nodes (resumed_run sample_pipeline rows)) test ≡ true
unfolding ready_nodes from_run_state reconstruct_run_state_from_postgres str_eq get
test_is_ready = refl

reconciled_status-eq-outcome_status_for_example :
    reconciled_status sample_env run_id (map (λ n. n.name) (node_info sample_pipeline)) rows
    ≡ outcome_status_for (reconstruct_run_state_from_postgres sample_pipeline rows)
reconciled_status-eq-outcome_status_for_example =
    reconciled_status-eq-outcome_status_for sample_env run_id sample_pipeline rows
