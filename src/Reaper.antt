-- ===== src/Reaper.antt =====
-- The reaper (coordinator/src/reaper.rs): its calls of the services and their answers, which are
-- functions of the calls so far, newest first, so that nothing is assumed of them.
pub mod Reclaim
pub mod Postgres
pub mod Sweep
pub mod Evidence
pub mod Swept
pub mod Rows
pub mod Justified
pub mod Checked
pub mod Resumed
pub mod Outcome
mod Tests
use jefferies.Prelude.{
  ℕ, ◌*◌, ◌/◌, ◌%◌, ◌^◌, Str, Bool, true, false, Option, none, some, List, [], ◌∷◌, all, Result,
  ltb, if◌then◌else◌,
}
use jefferies.Pipelines.{Pipeline}
use jefferies.Run.{RunState, same_status}
use jefferies.Run
use jefferies.RunHistory.{RunStatus, success, failure, PipelineRunRow, NodeRunRow, NodeRunRecord}
use jefferies.SourceManager.{NodeOutcome}
use jefferies.Coordinator.State.{RunContext}

-- One constructor for each method that the reaper calls; `start` is `start_coordinator`.
pub data Call : Type 0 where
  get_orphaned_runs list_in_progress_runs list_terminal_unleased_runs list_managed_run_ids : Call
  load_run get_pipeline_run list_node_runs cleanup_run release_lease delete_run : Str → Call
  get_node_outcome : Str → Str → Call
  record_node_run : NodeRunRecord → Call
  utc_now : Call
  finalize_status : Str → RunStatus → ℕ → Call
  save_run : Str → RunState → ℕ → Call
  for_run : RunContext → Call
  start : Str → Pipeline → RunContext → Call

-- The answers. `none` outside stands for an error; errors that are only logged are no answers.
pub record Env : Type 0 where
  pub orphaned : List Call → Option (List Str)
  pub loaded : List Call → Option (Option RunState)
  pub pipeline_run : List Call → Option (Option PipelineRunRow)
  pub in_progress_runs : List Call → Option (List PipelineRunRow)
  pub node_runs : List Call → Option (List NodeRunRow)
  pub outcome : List Call → Option (Option NodeOutcome)
  pub recorded : List Call → Bool
  pub finalized : List Call → Option Bool
  pub saved : List Call → Option Bool
  pub terminal_unleased : List Call → Option (List Str)
  pub managed : List Call → Option (List Str)
  pub now : List Call → ℕ
  pub has_factory : Bool
  -- chrono's `DateTime::from_timestamp`, and the YAML parser
  pub from_timestamp : ℕ → ℕ → Option ℕ
  pub parse : Str → Result Str Pipeline

-- An error of the list call ends a sweep; otherwise the runs are taken one after the other.
unfoldable pub each {ℓ} :
    {A : Type ℓ} → (A → List Call → List Call) → List A → List Call → List Call
each body [] t = t
each body (x ∷ xs) t = each body xs (body x t)

abbrev pub each_listed {ℓ} :
    {A : Type ℓ} → (A → List Call → List Call) → Option (List A) → List Call → List Call
each_listed body none t = t
each_listed body (some xs) t = each body xs t

unfoldable pub run_context_from_row : PipelineRunRow → RunContext
run_context_from_row row = record {
  owner = row.owner;
  repo = row.repo;
  sha = row.sha;
  branch = row.branch;
  target_branch = row.target_branch;
  tag = row.tag;
  pr_number = row.pr_number;
  trigger = row.trigger;
  pipeline_yaml = row.pipeline_definition;
  created_at = row.created_at;
  retry_of = row.retry_of;
  tenant_slug = row.tenant_slug;
  github_check_run_id = row.github_check_run_id;
}

-- The seconds must fit an `i64`; the nanoseconds always fit a `u32`.
unfoldable pub ms_to_datetime : Env → ℕ → Option ℕ
ms_to_datetime env ms =
    if ltb (ms / 1000) (2 ^ 63)
    then env.from_timestamp (ms / 1000) ((ms % 1000) * 1000000)
    else none

unfoldable pub outcome_status_for : RunState → RunStatus
outcome_status_for state =
    if all (λ e. same_status e.1 Run.success) state.statuses then success else failure

-- The status reporter, if there is a factory, and the coordinator. The task that awaits its handle
-- only logs.
abbrev pub start_run : Env → Str → Pipeline → RunContext → List Call → List Call
start_run env run_id pipeline context t =
    start run_id pipeline context ∷ (if env.has_factory then for_run context ∷ t else t)
