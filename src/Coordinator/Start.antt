-- ===== src/Coordinator/Start.antt =====
-- The start of a coordinator (`start_coordinator` and what it calls in
-- coordinator/src/coordinator.rs): the lease, the record of the start, the state of the run and the
-- pod watcher.
pub mod Started
use jefferies.Prelude.{
  ℕ, Str, str_inst, Bool, true, false, Option, none, some, List, [], ◌∷◌, map, keys, filter,
  collect,
}
use jefferies.Pipelines.{Pipeline, NodeInfo}
use jefferies.Pipelines.Merge.{node_info}
use jefferies.Run.{PipelineRun, RunState, running, same_status, new, from_run_state, to_run_state}
use jefferies.RunHistory.{PipelineStartRecord}
use jefferies.PodWatcher.{PodSignal, pod_running, infra_failure}
use jefferies.Coordinator.State.{
  Config, RunContext, Message, node_pod_running, node_infra_failed, Call, try_acquire_lease,
  record_pipeline_started, load_run, save_run, start_pod_watcher, Env, Coordinator,
}

unfoldable pub build_pipeline_start_record : Str → Pipeline → RunContext → PipelineStartRecord
build_pipeline_start_record run_id pipeline run_context = record {
  run_id = run_id;
  pipeline_name = pipeline.name;
  owner = run_context.owner;
  repo = run_context.repo;
  sha = run_context.sha;
  branch = run_context.branch;
  target_branch = run_context.target_branch;
  tag = run_context.tag;
  pr_number = run_context.pr_number;
  trigger = run_context.trigger;
  pipeline_definition = run_context.pipeline_yaml;
  created_at = run_context.created_at;
  retry_of = run_context.retry_of;
  tenant_slug = run_context.tenant_slug;
  github_check_run_id = run_context.github_check_run_id;
}

-- The task that relays the signals of the pod watcher to the internal channel, for one signal.
unfoldable pub relay : PodSignal → Message
relay (pod_running node_name pod_uid) = node_pod_running node_name
relay (infra_failure node_name pod_uid reason) = node_infra_failed node_name reason

-- The result of `initialize_run_state`, with the calls up to it.
pub record InitialState : Type 0 where
  pub run : PipelineRun
  pub state_version : ℕ
  pub is_rehydrate : Bool
  pub trace : List Call

-- The arms of its `match`: a failure to load starts fresh and saves nothing, and a failure to save
-- is only logged.
unfoldable pub initialized :
    Option (Option RunState) → List NodeInfo → Pipeline → List Call → InitialState
unfolding new from_run_state to_run_state
initialized (some (some existing)) node_infos pipeline trace = record {
  run = from_run_state existing;
  state_version = existing.version;
  is_rehydrate = true;
  trace = trace;
}
initialized (some none) node_infos pipeline trace = record {
  run = new node_infos;
  state_version = 0;
  is_rehydrate = false;
  trace = save_run (to_run_state (new node_infos) 0 pipeline) 0 ∷ trace;
}
initialized none node_infos pipeline trace = record {
  run = new node_infos;
  state_version = 0;
  is_rehydrate = false;
  trace = trace;
}

module _ (env : Env) where
  unfoldable pub initialize_run_state : List NodeInfo → Pipeline → List Call → InitialState
  unfolding initialized
  initialize_run_state node_infos pipeline trace =
      let t = load_run ∷ trace in initialized (env.loaded t) node_infos pipeline t

  -- What `start_coordinator` is given; the id of the server is random.
  module _ (run_id server_id : Str) (pipeline : Pipeline) (config : Config)
      (has_status_reporter : Bool) (run_context : RunContext) where
    -- `spawn_pod_watcher` and the new coordinator. The dispatcher has a watcher, or not, and with it
    -- come the relay and the channel of its commands.
    unfoldable pub with_state : InitialState → ℕ → Coordinator
    unfolding collect node_info
    with_state initial lease_version =
        let seed_running = keys (filter (λ e. same_status e.1 running) initial.run.statuses) in
        let t = start_pod_watcher seed_running ∷ initial.trace in
        let watched = env.watcher_started t in
        record {
          run_id = run_id;
          run = initial.run;
          pipeline = pipeline;
          config = config;
          node_info_cache = collect (map (λ n. (n.name, n)) (node_info pipeline));
          node_phase_handles = [];
          state_version = initial.state_version;
          lease_version = lease_version;
          server_id = server_id;
          run_context = run_context;
          has_status_reporter = has_status_reporter;
          has_pod_watcher = watched;
          has_signal_relay = watched;
          has_watcher_cmd = watched;
          is_rehydrate = initial.is_rehydrate;
          next_timer = 0;
          trace = t;
        }

    -- No coordinator without the lease, whether another server holds it or the store fails.
    unfoldable pub leased : Option (Option ℕ) → List Call → Option Coordinator
    unfolding build_pipeline_start_record initialize_run_state with_state node_info
    leased (some (some lease_version)) trace =
        let t =
          record_pipeline_started (build_pipeline_start_record run_id pipeline run_context)
          ∷ trace in
        some (with_state (initialize_run_state (node_info pipeline) pipeline t) lease_version)
    leased (some none) trace = none
    leased none trace = none

    -- The coordinator whose task is spawned, if there is one.
    unfoldable pub start_coordinator : Option Coordinator
    unfolding leased
    start_coordinator = let t = try_acquire_lease server_id ∷ [] in leased (env.acquired t) t
