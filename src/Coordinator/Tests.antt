-- ===== src/Coordinator/Tests.antt =====
-- A coordinator with one running node (coordinator/src/coordinator.rs), and services that answer
-- every call alike.
use jefferies.Prelude.{
  Str, bytes, str_eq, str_inst, ◌≡◌, ◌↔◌, refl, true, false, none, some, List, [], ◌∷◌, IsMap,
  is_empty, get, contains, str_eq_iff, arith, if◌then◌else◌, ◌&&◌, ◌+◌, ◌≤◌, contains_key,
}
use jefferies.Pipelines.Samples.{build, test, sample_node, sample_pipeline}
use jefferies.Run.{NodeStatus, pending, running, success, ready_nodes}
use jefferies.RunHistory.{RunStatus, failure}
use jefferies.Coordinator.State.{
  Coordinator, Config, RunContext, Env, record_pipeline_started, try_acquire_lease,
}
use jefferies.Coordinator.Start.{
  build_pipeline_start_record, initialize_run_state, with_state, start_coordinator,
}
use jefferies.Coordinator.Start.Started.{
  LoadsMaps, Started, start_coordinator-Started, started-SomeNodeRuns,
}
use jefferies.Coordinator.Dispatch.{dispatch_ready_nodes}
use jefferies.Pipelines.Merge.{node_info_of, node_info}
use jefferies.Coordinator.Dispatch.Once.{CacheNamed, dispatches, dispatch_ready_nodes-dispatches}
use jefferies.Coordinator.Dispatch.Settles.{dispatch_settles}
use jefferies.Coordinator.Finish.{abort_run, finish_run}
use jefferies.Coordinator.Finish.Ends.{cancels, recorded, ended}
use jefferies.Coordinator.Finish.Abort.{abort_run_records, abort_run-cancels_none, finish_run_exact}
use jefferies.Coordinator.Loop.{Event, heartbeat, s3_reconcile, node_completed, run}
use jefferies.Coordinator.Thrift.Loop.{state_of, started_dispatches-le}
use jefferies.Coordinator.Loop.Waits.{SomeNodeRuns, run-SomeNodeRuns}

abbrev sample_env : Env
sample_env = record {
  saved = λ _. some true;
  renewed = λ _. true;
  dispatched = λ _. none;
  pod_exists = λ _. some true;
  outcomes = λ _. some [];
  outcome = λ _. some none;
  log = λ _. some none;
  node_run = λ _. none;
  now = λ _. 1000;
  now_ms = λ _. 1000;
  acquired = λ _. some (some 1);
  loaded = λ _. some none;
  watcher_started = λ _. true;
  subscribed = λ _. true;
  node_json = λ _. none;
  from_timestamp = λ secs nanos. some secs;
}

abbrev sample_config : Config
sample_config = record {
  default_pipeline_timeout_secs = 3600;
  default_node_timeout_secs = 600;
  default_node_startup_timeout_secs = 60;
  default_fail_fast = true;
}

abbrev sample_context : RunContext
sample_context = record {
  owner = bytes "the-conn";
  repo = bytes "jefferies";
  sha = bytes "c0ffee";
  branch = some (bytes "main");
  target_branch = none;
  tag = none;
  pr_number = none;
  trigger = bytes "push";
  pipeline_yaml = bytes "name: ci";
  created_at = 1;
  retry_of = none;
  tenant_slug = none;
  github_check_run_id = none;
}

abbrev with_statuses : NodeStatus → NodeStatus → Coordinator
with_statuses s t = record {
  run_id = bytes "run-1";
  run = record {
    statuses = (build, s) ∷ (test, t) ∷ [];
    dependencies = (build, []) ∷ (test, build ∷ []) ∷ [];
  };
  pipeline = sample_pipeline;
  config = sample_config;
  node_info_cache = (build, node_info_of sample_pipeline (sample_node build [])) ∷ [];
  node_phase_handles = [];
  state_version = 1;
  lease_version = 1;
  server_id = bytes "a";
  run_context = sample_context;
  has_status_reporter = true;
  has_pod_watcher = true;
  has_signal_relay = true;
  has_watcher_cmd = true;
  is_rehydrate = false;
  next_timer = 0;
  trace = [];
}

with_statuses-IsMap : (s t : NodeStatus) → IsMap (with_statuses s t).run.statuses
unfolding contains_key str_eq
with_statuses-IsMap s t = (refl, (refl, tt))

abbrev events : List Event
events = heartbeat ∷ node_completed build true ∷ s3_reconcile ∷ []

abbrev first_events : List Event
first_events = heartbeat ∷ s3_reconcile ∷ []

-- The coordinator dispatches the first node and waits while it runs.
first_runs :
    get build (state_of (run sample_env (with_statuses pending pending) first_events)).run.statuses
    ≡ some running
unfolding get run dispatch_ready_nodes str_eq
first_runs = refl

run-SomeNodeRuns_example :
    SomeNodeRuns sample_env (run sample_env (with_statuses pending pending) first_events)
run-SomeNodeRuns_example =
    run-SomeNodeRuns sample_env (with_statuses pending pending) first_events
      (with_statuses-IsMap pending pending)

dispatch_settles_example :
    is_empty (ready_nodes (dispatch_ready_nodes sample_env (with_statuses success pending)).run)
    ≡ true
dispatch_settles_example =
    dispatch_settles sample_env (with_statuses success pending)
      (with_statuses-IsMap success pending)

abort_run_records_example :
    ((abort_run sample_env (with_statuses running pending) failure).1.status ≡ failure)
    × (recorded (abort_run sample_env (with_statuses running pending) failure).0.trace
        ≡ failure ∷ recorded (with_statuses running pending).trace)
    × (get build (abort_run sample_env (with_statuses running pending) failure).1.node_statuses
        ≡ ended (get build (with_statuses running pending).run.statuses))
abort_run_records_example =
    abort_run_records sample_env (with_statuses running pending) failure build
      (with_statuses-IsMap running pending)

abort_run-cancels_none_example :
    cancels (abort_run sample_env (with_statuses running pending) failure).0.trace
    ≡ cancels (with_statuses running pending).trace
abort_run-cancels_none_example =
    abort_run-cancels_none sample_env (with_statuses running pending) failure
      (with_statuses-IsMap running pending)

finish_run_exact_example :
    (((finish_run sample_env (with_statuses success success)).1.status ≡ RunStatus.success) ↔ (
      (j : Str) (s : NodeStatus)
      → get j (with_statuses success success).run.statuses ≡ some s
      → s ≡ success))
    × (recorded (finish_run sample_env (with_statuses success success)).0.trace
        ≡ (finish_run sample_env (with_statuses success success)).1.status
          ∷ recorded (with_statuses success success).trace)
finish_run_exact_example =
    finish_run_exact sample_env (with_statuses success success)
      (with_statuses-IsMap success success)

sample-CacheNamed : CacheNamed (with_statuses pending pending).node_info_cache
unfolding get node_info_of
sample-CacheNamed k node g = ground (arith, str_eq_iff build k)

dispatch_ready_nodes-dispatches_example :
    dispatches build (dispatch_ready_nodes sample_env (with_statuses pending pending)).trace
    ≡ (if contains (ready_nodes (with_statuses pending pending).run) build
          && contains_key build (with_statuses pending pending).node_info_cache
        then 1
        else 0)
      + dispatches build (with_statuses pending pending).trace
dispatch_ready_nodes-dispatches_example =
    dispatch_ready_nodes-dispatches sample_env (with_statuses pending pending) build
      (with_statuses-IsMap pending pending) sample-CacheNamed

sample_env-LoadsMaps : LoadsMaps sample_env
sample_env-LoadsMaps t state h = cc

abbrev started : Coordinator
started =
    with_state sample_env (bytes "run-1") (bytes "a") sample_pipeline sample_config true
      sample_context
      (initialize_run_state sample_env (node_info sample_pipeline) sample_pipeline (
        record_pipeline_started
          (build_pipeline_start_record (bytes "run-1") sample_pipeline sample_context)
        ∷ try_acquire_lease (bytes "a")
        ∷ []))
      1

started-eq :
    start_coordinator sample_env
      (bytes "run-1")
      (bytes "a")
      sample_pipeline
      sample_config
      true
      sample_context
    ≡ some started
unfolding start_coordinator
started-eq = refl

start_coordinator-Started_example : Started sample_env (bytes "run-1") (bytes "a") started
start_coordinator-Started_example =
    start_coordinator-Started sample_env (bytes "run-1") (bytes "a") sample_pipeline sample_config
      true sample_context sample_env-LoadsMaps started started-eq

started-SomeNodeRuns_example : SomeNodeRuns sample_env (run sample_env started events)
started-SomeNodeRuns_example =
    started-SomeNodeRuns sample_env (bytes "run-1") (bytes "a") sample_pipeline sample_config true
      sample_context sample_env-LoadsMaps started events started-eq

started_dispatches-le_example :
    dispatches build (state_of (run sample_env started events)).trace ≤ 1
started_dispatches-le_example =
    started_dispatches-le sample_env (bytes "run-1") (bytes "a") sample_pipeline sample_config true
      sample_context sample_env-LoadsMaps started events build started-eq
