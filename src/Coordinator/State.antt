-- ===== src/Coordinator/State.antt =====
-- The state of a coordinator, its calls of the services, and the services' answers
-- (coordinator/src/coordinator.rs and coordinator/src/message.rs).
use jefferies.Prelude.{ℕ, suc, ◌*◌, ◌/◌, ◌%◌, Str, str_inst, Bool, Option, List, ◌∷◌}
use jefferies.Pipelines.{Pipeline, NodeInfo}
use jefferies.Run.{PipelineRun, RunState}
use jefferies.RunHistory.{
  RunStatus, NodeRunRecord, NodeDispatchRecord, PipelineRunRecord, PipelineStartRecord,
}
use jefferies.PodWatcher.{WatcherCommand, InfraFailureReason}
use jefferies.SourceManager.{NodeOutcome, ReconcileResult}

-- The settings of app_config that the coordinator reads.
pub record Config : Type 0 where
  pub default_pipeline_timeout_secs : ℕ
  pub default_node_timeout_secs : ℕ
  pub default_node_startup_timeout_secs : ℕ
  pub default_fail_fast : Bool

pub record RunContext : Type 0 where
  pub owner : Str
  pub repo : Str
  pub sha : Str
  pub branch : Option Str
  pub target_branch : Option Str
  pub tag : Option Str
  pub pr_number : Option ℕ
  pub trigger : Str
  pub pipeline_yaml : Str
  pub created_at : ℕ
  pub retry_of : Option Str
  pub tenant_slug : Option Str
  pub github_check_run_id : Option ℕ

pub record RunMetadata : Type 0 where
  pub owner : Str
  pub repo : Str
  pub sha : Str
  pub branch : Option Str
  pub target_branch : Option Str
  pub tag : Option Str
  pub pr_number : Option ℕ
  pub trigger : Str

unfoldable pub run_metadata : RunContext → RunMetadata
run_metadata c = record {
  owner = c.owner;
  repo = c.repo;
  sha = c.sha;
  branch = c.branch;
  target_branch = c.target_branch;
  tag = c.tag;
  pr_number = c.pr_number;
  trigger = c.trigger;
}

pub data TimerPhase : Type 0 where
  startup runtime : TimerPhase

-- A timer task is known by its number.
pub record PhaseTimer : Type 0 where
  pub phase : TimerPhase
  pub handle : ℕ

-- The messages of the internal channel (coordinator/src/message.rs).
pub data Message : Type 0 where
  node_timed_out : Str → Message
  node_pod_running : Str → Message
  node_infra_failed : Str → InfraFailureReason → Message
  node_pod_start_timed_out : Str → Message

-- The calls that the coordinator makes, one constructor for each method of a service.
pub data Call : Type 0 where
  try_acquire_lease : Str → Call
  load_run : Call
  save_run : RunState → ℕ → Call
  renew_lease : Str → ℕ → Call
  dispatch : RunMetadata → NodeInfo → Call
  cancel_node : Str → Call
  node_pod_exists : Str → Call
  read_outcomes : List Str → Call
  get_node_outcome : Str → Call
  get_node_log : Str → Call
  get_node_run : Str → Call
  utc_now : Call
  system_time : Call
  notify_watcher : WatcherCommand → Call
  spawn_timer : ℕ → ℕ → Message → Call
  abort_timer : ℕ → Call
  abort_relay : Call
  abort_watcher : Call
  record_node_dispatched : NodeDispatchRecord → Call
  record_node_run : NodeRunRecord → Call
  record_pipeline_run : PipelineRunRecord → Call
  report_completed : RunStatus → Call
  record_pipeline_started : PipelineStartRecord → Call
  start_pod_watcher : List Str → Call
  subscribe_run : Call
  cleanup_run : Call
  release_lease : Call
  delete_run : Call

-- The answers of the services to the last call of a trace, which is given newest first: nothing is
-- assumed of them, and two equal calls may be answered differently. An error that the coordinator
-- only logs is no answer. `none` outside stands for an error or, of `outcomes`, for a timeout; `now`
-- counts nanoseconds since the epoch.
pub record Env : Type 0 where
  pub saved : List Call → Option Bool
  pub renewed : List Call → Bool
  pub dispatched : List Call → Option Str
  pub pod_exists : List Call → Option Bool
  pub outcomes : List Call → Option (List (Str × ReconcileResult))
  pub outcome : List Call → Option (Option NodeOutcome)
  pub log : List Call → Option (Option Str)
  pub node_run : List Call → Option ℕ
  pub now : List Call → ℕ
  pub now_ms : List Call → ℕ
  pub acquired : List Call → Option (Option ℕ)
  pub loaded : List Call → Option (Option RunState)
  pub watcher_started : List Call → Bool
  pub subscribed : List Call → Bool
  -- serde_json, and chrono's `DateTime::from_timestamp`
  pub node_json : NodeInfo → Option Str
  pub from_timestamp : ℕ → ℕ → Option ℕ

pub record Coordinator : Type 0 where
  pub run_id : Str
  pub run : PipelineRun
  pub pipeline : Pipeline
  pub config : Config
  pub node_info_cache : List (Str × NodeInfo)
  pub node_phase_handles : List (Str × PhaseTimer)
  pub state_version : ℕ
  pub lease_version : ℕ
  pub server_id : Str
  pub run_context : RunContext
  pub has_status_reporter : Bool
  pub has_pod_watcher : Bool
  pub has_signal_relay : Bool
  pub has_watcher_cmd : Bool
  pub is_rehydrate : Bool
  pub next_timer : ℕ
  pub trace : List Call

abbrev pub call : Call → Coordinator → Coordinator
call e c = record c { trace = e ∷ c.trace }

-- The spawned task sleeps and sends its message; the handle is its number.
abbrev pub spawn : ℕ → Message → Coordinator → Coordinator
spawn secs msg c = record c {
  trace = spawn_timer c.next_timer secs msg ∷ c.trace;
  next_timer = suc c.next_timer;
}

abbrev pub u64 : ℕ → ℕ
u64 n = n % 18446744073709551616

-- The cast to `i64` is taken as its bit pattern.
unfoldable pub ms_to_datetime : Env → ℕ → Option ℕ
ms_to_datetime env ms = env.from_timestamp (u64 (ms / 1000)) ((ms % 1000) * 1000000 % 4294967296)
