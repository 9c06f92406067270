-- ===== src/Coordinator/Finish/Abort.antt =====
-- A run that is cut short, and a run that is complete (coordinator/src/coordinator.rs): what the
-- summary and the history say, and the calls of `cancel_node`.
use jefferies.Prelude.{
  Str, str_inst, ◌≡◌, ◌≢◌, ◌↔◌, refl, sym, subst, ap, ◌∙◌, true, Option, none, some, List, [], ◌∷◌,
  IsMap, arith, is_empty, Bool-cases, inl, inr, get, keys, filter, contains-filter-keys, all-get,
  all_of_get,
}
use jefferies.Run.{NodeStatus, running, same_status, PipelineRun}
use jefferies.Run.Ready.{contains_of_nonempty}
use jefferies.RunHistory.{RunStatus, success}
use jefferies.Coordinator.State.{Coordinator, Env, PhaseTimer, call, abort_timer}
use jefferies.Coordinator.Finish.{
  outcome_status, running_nodes, shutdown_pod_watcher, build_summary, abort_timers,
  terminate_running_nodes, cleanup, record_history, finalize_run, abort_run, finish_run,
}
use jefferies.Coordinator.Finish.Ends.{
  cancels, recorded, ended, get-record_history, record_history-recorded, record_history-cancels,
  record_history-IsMap,
}

is_empty-nil : (xs : List Str) → is_empty xs ≡ true → xs ≡ []
is_empty-nil [] h = refl
is_empty-nil (x ∷ xs) h = cc

no_running_nodes :
    (c : Coordinator)
    → IsMap c.run.statuses
    → ((j : Str) → get j c.run.statuses ≢ some running)
    → running_nodes c ≡ []
no_running_nodes c h f = elim (Bool-cases (is_empty (running_nodes c))) [
  | inl e ↦ is_empty-nil (running_nodes c) e
  | inr e ↦
      let (n, m) = contains_of_nonempty (running_nodes c) e in
      absurd (
        f n (
          ground (
            arith,
            contains-filter-keys (λ (e : Str × NodeStatus). same_status e.1 running) n
                c.run.statuses h,
          )))
]

shutdown-run : (c : Coordinator) → (shutdown_pod_watcher c).run ≡ c.run
unfolding shutdown_pod_watcher
shutdown-run c = ground arith

shutdown-cancels : (c : Coordinator) → cancels (shutdown_pod_watcher c).trace ≡ cancels c.trace
unfolding shutdown_pod_watcher cancels
shutdown-cancels c = ground arith

shutdown-recorded : (c : Coordinator) → recorded (shutdown_pod_watcher c).trace ≡ recorded c.trace
unfolding shutdown_pod_watcher recorded
shutdown-recorded c = ground arith

abort_timers-run :
    (timers : List (Str × PhaseTimer)) (c : Coordinator) → (abort_timers timers c).run ≡ c.run
unfolding abort_timers
abort_timers-run [] c = refl
abort_timers-run ((n, t) ∷ timers) c = abort_timers-run timers (call (abort_timer t.handle) c)

abort_timers-cancels :
    (timers : List (Str × PhaseTimer)) (c : Coordinator)
    → cancels (abort_timers timers c).trace ≡ cancels c.trace
unfolding abort_timers cancels
abort_timers-cancels [] c = refl
abort_timers-cancels ((n, t) ∷ timers) c =
    abort_timers-cancels timers (call (abort_timer t.handle) c)

abort_timers-recorded :
    (timers : List (Str × PhaseTimer)) (c : Coordinator)
    → recorded (abort_timers timers c).trace ≡ recorded c.trace
unfolding abort_timers recorded
abort_timers-recorded [] c = refl
abort_timers-recorded ((n, t) ∷ timers) c =
    abort_timers-recorded timers (call (abort_timer t.handle) c)

-- Where no node is running, the termination calls `cancel_node` for none.
terminate_idle :
    (c : Coordinator) (s : RunStatus)
    → IsMap c.run.statuses
    → ((j : Str) → get j c.run.statuses ≢ some running)
    → ((terminate_running_nodes c s).1.node_statuses ≡ c.run.statuses)
      × (cancels (terminate_running_nodes c s).0.trace ≡ cancels c.trace)
      × (recorded (terminate_running_nodes c s).0.trace ≡ recorded c.trace)
unfolding terminate_running_nodes
terminate_idle c s h f =
    let c0 = record c { node_phase_handles = [] } in
    let c1 = abort_timers c.node_phase_handles c0 in
    let same = abort_timers-run c.node_phase_handles c0 in
    let idle : running_nodes c1 ≡ [] = ap running_of same ∙ no_running_nodes c h f in
    rw idle (
      ap (λ r. r.statuses) (shutdown-run c1 ∙ same),
      shutdown-cancels c1 ∙ abort_timers-cancels c.node_phase_handles c0,
      shutdown-recorded c1 ∙ abort_timers-recorded c.node_phase_handles c0,
    )
  where
    running_of : PipelineRun → List Str
    running_of r = keys (filter (λ e. same_status e.1 running) r.statuses)

not_running : (o : Option NodeStatus) → ended o ≢ some running
not_running (some running) e = cc
not_running none e = cc
not_running (some s) e = ground arith

module _ (env : Env) where
  finalize_run-run :
      (c : Coordinator) (s : RunStatus) → (finalize_run env c s).run ≡ (record_history env c s).run
  unfolding finalize_run
  finalize_run-run c s = ground arith

  finalize_run-recorded :
      (c : Coordinator) (s : RunStatus)
      → recorded (finalize_run env c s).trace ≡ s ∷ recorded c.trace
  unfolding finalize_run recorded
  finalize_run-recorded c s = ground (arith, record_history-recorded env c s)

  finalize_run-cancels :
      (c : Coordinator) (s : RunStatus) → cancels (finalize_run env c s).trace ≡ cancels c.trace
  unfolding finalize_run cancels
  finalize_run-cancels c s = ground (arith, record_history-cancels env c s)

  cleanup-recorded : (c : Coordinator) → recorded (cleanup c).trace ≡ recorded c.trace
  unfolding cleanup recorded
  cleanup-recorded c = refl

  cleanup-cancels : (c : Coordinator) → cancels (cleanup c).trace ≡ cancels c.trace
  unfolding cleanup cancels
  cleanup-cancels c = refl

  cleanup-run : (c : Coordinator) → (cleanup c).run ≡ c.run
  unfolding cleanup
  cleanup-run c = refl

  finalized-run :
      (c : Coordinator) (s : RunStatus)
      → (cleanup (finalize_run env c s)).run ≡ (record_history env c s).run
  finalized-run c s = cleanup-run (finalize_run env c s) ∙ finalize_run-run c s

  finalized-idle :
      (c : Coordinator) (s : RunStatus) (j : Str)
      → IsMap c.run.statuses
      → get j (cleanup (finalize_run env c s)).run.statuses ≢ some running
  finalized-idle c s j h g = not_running (get j c.run.statuses) (
      sym (get-record_history env c s j h)
      ∙ sym (ap (λ (r : PipelineRun). get j r.statuses) (finalized-run c s))
      ∙ g)

  aborted :
      (c : Coordinator) (s : RunStatus)
      → IsMap c.run.statuses
      → ((abort_run env c s).1.node_statuses ≡ (cleanup (finalize_run env c s)).run.statuses)
        × (cancels (abort_run env c s).0.trace ≡ cancels (cleanup (finalize_run env c s)).trace)
        × (recorded (abort_run env c s).0.trace ≡ recorded (cleanup (finalize_run env c s)).trace)
  unfolding abort_run
  aborted c s h =
      terminate_idle (cleanup (finalize_run env c s)) s
        (subst (λ (r : PipelineRun). IsMap r.statuses) (sym (finalized-run c s))
          (record_history-IsMap env c s h))
        (λ j. finalized-idle c s j h)

  abort_run-status : (c : Coordinator) (s : RunStatus) → (abort_run env c s).1.status ≡ s
  unfolding abort_run terminate_running_nodes
  abort_run-status c s = refl

  -- A run that is cut short with a status, its node statuses having distinct keys, has that status in
  -- its summary and gets one more record in the history with it, and in the summary every running
  -- node has failed and no other status has changed.
  pub abort_run_records :
      (c : Coordinator) (s : RunStatus) (j : Str)
      → IsMap c.run.statuses
      → ((abort_run env c s).1.status ≡ s)
        × (recorded (abort_run env c s).0.trace ≡ s ∷ recorded c.trace)
        × (get j (abort_run env c s).1.node_statuses ≡ ended (get j c.run.statuses))
  abort_run_records c s j h =
      let (same, cancelled, written) = aborted c s h in
      (
        abort_run-status c s,
        written ∙ cleanup-recorded (finalize_run env c s) ∙ finalize_run-recorded c s,
        ap (get j) same
            ∙ ap (λ (r : PipelineRun). get j r.statuses) (finalized-run c s)
            ∙ get-record_history env c s j h,
      )

  -- A run that is cut short, its node statuses having distinct keys, adds no call of the dispatcher's
  -- `cancel_node` to its trace, whichever nodes are running. What `cleanup_run` deletes is not counted.
  pub abort_run-cancels_none :
      (c : Coordinator) (s : RunStatus)
      → IsMap c.run.statuses
      → cancels (abort_run env c s).0.trace ≡ cancels c.trace
  abort_run-cancels_none c s h =
      let (same, cancelled, written) = aborted c s h in
      cancelled ∙ cleanup-cancels (finalize_run env c s) ∙ finalize_run-cancels c s

  outcome_iff :
      (c : Coordinator)
      → IsMap c.run.statuses
      → (outcome_status c ≡ success)
        ↔ ((j : Str) (s : NodeStatus) → get j c.run.statuses ≡ some s → s ≡ NodeStatus.success)
  unfolding outcome_status
  outcome_iff c h = (
    λ e j s g.
        same_success s
          (all-get (λ e. same_status e.1 NodeStatus.success) j c.run.statuses (ground arith) g),
    λ f. rw (
        all_of_get (λ e. same_status e.1 NodeStatus.success) c.run.statuses h
          (λ k v g. ap (λ s. same_status s NodeStatus.success) (f k v g))),
  )
    where
      same_success :
          (s : NodeStatus) → same_status s NodeStatus.success ≡ true → s ≡ NodeStatus.success
      same_success s e = ground arith

  finish_run-status : (c : Coordinator) → (finish_run env c).1.status ≡ outcome_status c
  unfolding finish_run build_summary
  finish_run-status c = refl

  finish_run-recorded :
      (c : Coordinator) → recorded (finish_run env c).0.trace ≡ outcome_status c ∷ recorded c.trace
  unfolding finish_run build_summary
  finish_run-recorded c =
      shutdown-recorded (cleanup (finalize_run env c (outcome_status c)))
      ∙ cleanup-recorded (finalize_run env c (outcome_status c))
      ∙ finalize_run-recorded c (outcome_status c)

  -- A run that is finished, its node statuses having distinct keys, is reported as a success exactly
  -- when every node has succeeded, and the history gets one more record, with the status that is
  -- reported.
  pub finish_run_exact :
      (c : Coordinator)
      → IsMap c.run.statuses
      → (((finish_run env c).1.status ≡ success)
          ↔ ((j : Str) (s : NodeStatus) → get j c.run.statuses ≡ some s → s ≡ NodeStatus.success))
        × (recorded (finish_run env c).0.trace ≡ (finish_run env c).1.status ∷ recorded c.trace)
  finish_run_exact c h =
      (rw (finish_run-status c) (outcome_iff c h), rw (finish_run-status c) (finish_run-recorded c))
