-- ===== src/Coordinator/Thrift/Handlers.antt =====
-- The credit of the nodes over the handlers (coordinator/src/coordinator.rs).
use jefferies.Prelude.{
  Str, str_inst, Bool, true, false, Option, none, some, List, [], ◌∷◌, arith, if◌then◌else◌, Result,
  ok, err,
}
use jefferies.Run.{mark_success, mark_failed}
use jefferies.Run.Marks.{succeed, fail, apply_mark}
use jefferies.PodWatcher.{InfraFailureReason, pod_start_timeout}
use jefferies.SourceManager.{ReconcileResult, completed}
use jefferies.Coordinator.State.{Coordinator, Env, call, cancel_node}
use jefferies.Coordinator.Records.{
  PersistError, persist_state, cancel_node_timeout, notify_watcher_of_deletion,
  record_node_completed,
}
use jefferies.Coordinator.Dispatch.{dispatch_ready_nodes, arm_runtime}
use jefferies.Coordinator.Dispatch.Once.{dispatches}
use jefferies.Coordinator.Frame.{
  persist_state-run, cancel_node_timeout-run, record_node_completed-run,
}
use jefferies.Coordinator.Handlers.{
  fail_fast_enabled, handle_pod_running, then_fold, stopped_or, after_failure, stop_failed_node,
  handle_node_infra_failed, handle_pod_start_timed_out, handle_node_completed,
  handle_node_timed_out, read_outcomes_for_non_terminal, fold_completions_from_outcomes,
  reconcile_running_against_s3,
}
use jefferies.Coordinator.Thrift.{Step, no_step, steps, quiet, marked, dispatch_ready_nodes-Step}

pub cancel_node_timeout-Step : (c : Coordinator) (n : Str) → Step c (cancel_node_timeout c n)
unfolding cancel_node_timeout dispatches
cancel_node_timeout-Step c n =
    quiet c (cancel_node_timeout c n) (cancel_node_timeout-run c n) (ground arith)
      (λ j. ground arith)

pub handle_pod_running-Step : (c : Coordinator) (n : Str) → Step c (handle_pod_running c n)
unfolding handle_pod_running dispatches arm_runtime cancel_node_timeout
handle_pod_running-Step c n =
    quiet c (handle_pod_running c n) (ground arith) (ground arith) (λ j. ground arith)

stop_calls-Step :
    (c : Coordinator) (n : Str) → Step c (call (cancel_node n) (notify_watcher_of_deletion c n))
unfolding notify_watcher_of_deletion dispatches
stop_calls-Step c n =
    quiet c (call (cancel_node n) (notify_watcher_of_deletion c n)) (ground arith) (ground arith)
      (λ j. ground arith)

pub either :
    (c : Coordinator) (b : Bool) (x y : Coordinator × Bool)
    → Step c x.0
    → Step c y.0
    → Step c (if b then x else y).0
either c true x y f g = f
either c false x y f g = g

stopped-Step :
    (c : Coordinator) (r : Coordinator × Result PersistError (Unit {0}))
    (k : Coordinator → Coordinator × Bool)
    → Step c r.0
    → ((c1 : Coordinator) → Step c1 (k c1).0)
    → Step c (stopped_or r k).0
stopped-Step c (c1, err e) k f g = f
stopped-Step c (c1, ok u) k f g = steps c c1 (k c1).0 f (g c1)

pub then_fold-Step :
    (c : Coordinator) (r : Coordinator × Bool) (k : Coordinator → Coordinator × Bool)
    → Step c r.0
    → ((c1 : Coordinator) → Step c1 (k c1).0)
    → Step c (then_fold r k).0
then_fold-Step c (c1, true) k f g = f
then_fold-Step c (c1, false) k f g = steps c c1 (k c1).0 f (g c1)

marked_success : (c : Coordinator) (n : Str) → Step c (record c { run = (mark_success c.run n).0 })
unfolding apply_mark
marked_success c n = marked succeed c n

pub marked_failed :
    (c : Coordinator) (n : Str) → Step c (record c { run = (mark_failed c.run n).0 })
unfolding apply_mark
marked_failed c n = marked fail c n

module _ (env : Env) where
  pub persist_state-Step : (c : Coordinator) → Step c (persist_state env c).0
  unfolding persist_state dispatches
  persist_state-Step c =
      quiet c (persist_state env c).0 (persist_state-run env c) (ground arith) (λ j. ground arith)

  record_node_completed-Step :
      (c : Coordinator) (n : Str) (r : Option InfraFailureReason)
      → Step c (record_node_completed env c n r)
  unfolding record_node_completed dispatches
  record_node_completed-Step c n r =
      quiet c (record_node_completed env c n r) (record_node_completed-run env c n r) (ground arith)
        (λ j. ground arith)

  after_failure-Step : (c : Coordinator) → Step c (after_failure env c).0
  unfolding after_failure
  after_failure-Step c =
      either c (fail_fast_enabled c) (c, true) (dispatch_ready_nodes env c, false) (no_step c)
        (dispatch_ready_nodes-Step env c)

  stop_failed_node-Step :
      (c : Coordinator) (n : Str) (r : Option InfraFailureReason)
      → Step c (stop_failed_node env c n r).0
  unfolding stop_failed_node
  stop_failed_node-Step c n r = stopped-Step c (persist_state env c) _ (persist_state-Step c) λ c1.
      let c2 = call (cancel_node n) (notify_watcher_of_deletion c1 n) in
      let c3 = record_node_completed env c2 n r in
      steps c1 c2 (after_failure env c3).0 (stop_calls-Step c1 n) (
        steps c2 c3 (after_failure env c3).0 (record_node_completed-Step c2 n r)
          (after_failure-Step c3))

  pub handle_node_infra_failed-Step :
      (c : Coordinator) (n : Str) (r : InfraFailureReason)
      → Step c (handle_node_infra_failed env c n r).0
  unfolding handle_node_infra_failed
  handle_node_infra_failed-Step c n r =
      let failed_run = record c { run = (mark_failed c.run n).0 } in
      let stopped = cancel_node_timeout failed_run n in
      either c _ (c, false) _ (no_step c)
        (either c (mark_failed c.run n).1 (stop_failed_node env stopped n (some r)) (c, false)
          (steps c failed_run _ (marked_failed c n) (
            steps failed_run stopped _ (cancel_node_timeout-Step failed_run n)
              (stop_failed_node-Step stopped n (some r))))
          (no_step c))

  pub handle_pod_start_timed_out-Step :
      (c : Coordinator) (n : Str) → Step c (handle_pod_start_timed_out env c n).0
  unfolding handle_pod_start_timed_out
  handle_pod_start_timed_out-Step c n = handle_node_infra_failed-Step c n pod_start_timeout

  pub handle_node_completed-Step :
      (c : Coordinator) (n : Str) (b : Bool) → Step c (handle_node_completed env c n b).0
  unfolding handle_node_completed
  handle_node_completed-Step c n true =
      let c0 = record c { run = (mark_success c.run n).0 } in
      steps c c0 _ (marked_success c n) (
        stopped-Step c0 (persist_state env c0) _ (persist_state-Step c0) λ c1.
          let c2 = record_node_completed env c1 n none in
          steps c1 c2 (dispatch_ready_nodes env c2) (record_node_completed-Step c1 n none)
            (dispatch_ready_nodes-Step env c2))
  handle_node_completed-Step c n false =
      let c0 = record c { run = (mark_failed c.run n).0 } in
      steps c c0 _ (marked_failed c n) (
        stopped-Step c0 (persist_state env c0) _ (persist_state-Step c0) λ c1.
          let c2 = record_node_completed env c1 n none in
          steps c1 c2 (after_failure env c2).0 (record_node_completed-Step c1 n none)
            (after_failure-Step c2))

  pub handle_node_timed_out-Step :
      (c : Coordinator) (n : Str) → Step c (handle_node_timed_out env c n).0
  unfolding handle_node_timed_out
  handle_node_timed_out-Step c n =
      let failed_run = record c { run = (mark_failed c.run n).0 } in
      either c (mark_failed c.run n).1 (stop_failed_node env failed_run n none) (c, false)
        (steps c failed_run _ (marked_failed c n) (stop_failed_node-Step failed_run n none))
        (no_step c)

  pub read_outcomes-Step : (c : Coordinator) → Step c (read_outcomes_for_non_terminal env c).0
  unfolding read_outcomes_for_non_terminal dispatches
  read_outcomes-Step c =
      quiet c (read_outcomes_for_non_terminal env c).0 (ground arith) (ground arith)
        (λ j. ground arith)

  pub fold_completions-Step :
      (outcomes : List (Str × ReconcileResult)) (c : Coordinator)
      → Step c (fold_completions_from_outcomes env outcomes c).0
  unfolding fold_completions_from_outcomes
  fold_completions-Step [] c = no_step c
  fold_completions-Step ((n, completed succeeded started finished) ∷ outcomes) c =
      let c1 = cancel_node_timeout c n in
      then_fold-Step c (handle_node_completed env c1 n succeeded) _
        (steps c c1 _ (cancel_node_timeout-Step c n) (handle_node_completed-Step c1 n succeeded))
        (λ c2. fold_completions-Step outcomes c2)
  fold_completions-Step ((n, other) ∷ outcomes) c = fold_completions-Step outcomes c

  pub reconcile-Step : (c : Coordinator) → Step c (reconcile_running_against_s3 env c).0
  unfolding reconcile_running_against_s3
  reconcile-Step c =
      let (c', outcomes) = read_outcomes_for_non_terminal env c in
      steps c c' _ (read_outcomes-Step c) (fold_completions-Step outcomes c')
