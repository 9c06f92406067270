-- ===== src/Coordinator/Records.antt =====
-- Saving the state and writing the history of the nodes (coordinator/src/coordinator.rs).
use mathlib.Core.Option
use jefferies.Prelude.{
  ℕ, ◌+◌, Str, bytes, str_inst, Bool, true, false, Option, none, some, [], get, remove, ◌++◌,
  unwrap_or, if◌then◌else◌, Result, ok, err, is_some,
}
use jefferies.Pipelines.{NodeInfo}
use jefferies.Run.{is_status, success, to_run_state}
use jefferies.PodWatcher.{InfraFailureReason, dispatch_failed, stable_code, expect_deletion}
use jefferies.SourceManager.{NodeOutcome}
use jefferies.Coordinator.State.{
  Coordinator, Env, PhaseTimer, call, save_run, notify_watcher, abort_timer, get_node_outcome,
  get_node_log, utc_now, record_node_run, record_node_dispatched, ms_to_datetime, u64,
}

-- `Err` of `persist_state`: the store failed, or it rejected the version.
pub data PersistError : Type 0 where
  store_failed version_fenced : PersistError

abbrev or_none {ℓ} : {A : Type ℓ} → Option (Option A) → Option A
or_none none = none
or_none (some o) = o

abbrev aborted : Option PhaseTimer → Str → Coordinator → Coordinator
aborted none node_name c = c
aborted (some timer) node_name c =
    call (abort_timer timer.handle)
      (record c { node_phase_handles = remove node_name c.node_phase_handles })

unfoldable pub cancel_node_timeout : Coordinator → Str → Coordinator
unfolding get remove
cancel_node_timeout c node_name = aborted (get node_name c.node_phase_handles) node_name c

unfoldable pub notify_watcher_of_deletion : Coordinator → Str → Coordinator
notify_watcher_of_deletion c node_name =
    if c.has_watcher_cmd then call (notify_watcher (expect_deletion node_name)) c else c

module _ (env : Env) where
  abbrev persisted : Option Bool → ℕ → Coordinator → Coordinator × Result PersistError (Unit {0})
  persisted none version c = (c, err store_failed)
  persisted (some true) version c = (record c { state_version = version }, ok tt)
  persisted (some false) version c = (c, err version_fenced)

  unfoldable pub persist_state : Coordinator → Coordinator × Result PersistError (Unit {0})
  unfolding to_run_state
  persist_state c =
      let new_version = u64 (c.state_version + 1) in
      let c' = call (save_run (to_run_state c.run new_version c.pipeline) c.state_version) c in
      persisted (env.saved c'.trace) new_version c'

  -- The definition of a node in the history: its JSON, or the empty text.
  unfoldable pub node_definition : Coordinator → Str → Str
  unfolding get
  node_definition c node_name =
      unwrap_or (Option.bind (get node_name c.node_info_cache) env.node_json) []

  unfoldable pub record_dispatch_failed : Coordinator → Str → Str → Coordinator
  unfolding node_definition
  record_dispatch_failed c node_name error =
      let c' = call utc_now c in
      let now = env.now c'.trace in
      call
        (record_node_run (record {
          run_id = c.run_id;
          node_name = node_name;
          node_definition = node_definition c node_name;
          success = false;
          created_at = now;
          started_at = none;
          completed_at = some now;
          output_log = some (bytes "Dispatch failed: " ++ error);
          failure_reason = some (stable_code (dispatch_failed error));
        }))
        c'

  -- `Ok(o) => o, Err(_) => None` on the node's outcome
  fetch_outcome : Coordinator → Str → Coordinator × Option NodeOutcome
  fetch_outcome c node_name =
      let c' = call (get_node_outcome node_name) c in (c', or_none (env.outcome c'.trace))

  fetch_log : Coordinator → Str → Coordinator × Option Str
  fetch_log c node_name =
      let c' = call (get_node_log node_name) c in (c', or_none (env.log c'.trace))

  -- `outcome.as_ref().and_then(|o| o.started_at).and_then(ms_to_datetime)`, and the same of
  -- `finished_at`
  abbrev timestamp : (NodeOutcome → Option ℕ) → Option NodeOutcome → Option ℕ
  timestamp field o = Option.bind (Option.bind o field) (ms_to_datetime env)

  -- `t.or_else(|| wanted.then(Utc::now))`
  or_now : Option ℕ → Bool → Coordinator → Coordinator × Option ℕ
  or_now (some t) wanted c = (c, some t)
  or_now none true c = let c' = call utc_now c in (c', some (env.now c'.trace))
  or_now none false c = (c, none)

  abbrev write_node_run :
      Str → Str → Bool → Option ℕ → Option ℕ → Option Str → Option Str → Coordinator → Coordinator
  write_node_run node_name definition node_success started_at completed_at output_log failure_reason
        c =
      let c' = call utc_now c in
      call
        (record_node_run (record {
          run_id = c.run_id;
          node_name = node_name;
          node_definition = definition;
          success = node_success;
          created_at = env.now c'.trace;
          started_at = started_at;
          completed_at = completed_at;
          output_log = output_log;
          failure_reason = failure_reason;
        }))
        c'

  unfoldable pub record_node_completed : Coordinator → Str → Option InfraFailureReason → Coordinator
  unfolding node_definition fetch_outcome fetch_log or_now get
  record_node_completed c node_name failure_reason =
      let node_success = is_status (get node_name c.run.statuses) success in
      let definition = node_definition c node_name in
      let (c1, outcome) = fetch_outcome c node_name in
      let started_at = timestamp (λ o. o.started_at) outcome in
      let (c2, completed_at) =
        or_now (timestamp (λ o. o.finished_at) outcome) (is_some failure_reason) c1 in
      let (c3, output_log) = fetch_log c2 node_name in
      write_node_run node_name definition node_success started_at completed_at output_log
        (Option.map stable_code failure_reason) c3

  unfoldable pub record_running_node_terminated : Coordinator → Str → Coordinator
  unfolding node_definition fetch_outcome fetch_log or_now
  record_running_node_terminated c node_name =
      let definition = node_definition c node_name in
      let (c1, outcome) = fetch_outcome c node_name in
      let started_at = timestamp (λ o. o.started_at) outcome in
      let (c2, completed_at) = or_now (timestamp (λ o. o.finished_at) outcome) true c1 in
      let succeeded = unwrap_or (Option.bind outcome (λ o. o.success)) false in
      let (c3, output_log) = fetch_log c2 node_name in
      write_node_run node_name definition succeeded started_at completed_at output_log none c3

  unfoldable pub record_dispatched : Coordinator → Str → NodeInfo → Coordinator
  record_dispatched c node_name node =
      let c' = call utc_now c in
      call
        (record_node_dispatched (record {
          run_id = c.run_id;
          node_name = node_name;
          node_definition = unwrap_or (env.node_json node) [];
          created_at = env.now c'.trace;
        }))
        c'
