-- ===== src/Coordinator/Finish/Ends.antt =====
-- What the end of a run leaves behind (coordinator/src/coordinator.rs): the statuses of the summary,
-- the record in the history, and the nodes that are cancelled.
use jefferies.Prelude.{
  Str, str_inst, str_eq_iff, ◌≡◌, refl, sym, subst, ap, ◌∙◌, Bool, Option, some, List, [], ◌∷◌,
  IsMap, arith, get, contains, contains-filter-keys, ◌==◌, if◌then◌else◌, ◌||◌,
}
use jefferies.Run.{NodeStatus, pending, running, failed, same_status, PipelineRun, mark_failed}
use jefferies.Run.Marks.{fail, apply_mark, get-mark, mark-IsMap}
use jefferies.RunHistory.{RunStatus}
use jefferies.Coordinator.State.{Coordinator, Env, Call, cancel_node, record_pipeline_run}
use jefferies.Coordinator.Frame.{record_running_node_terminated-run}
use jefferies.Coordinator.Records.{record_running_node_terminated}
use jefferies.Coordinator.Finish.{running_nodes, record_terminated, record_history}

-- The nodes that a trace cancels, and the statuses under which it records the pipeline run.
unfoldable pub cancels : List Call → List Str
cancels [] = []
cancels (cancel_node n ∷ calls) = n ∷ cancels calls
cancels (other ∷ calls) = cancels calls

unfoldable pub recorded : List Call → List RunStatus
recorded [] = []
recorded (record_pipeline_run r ∷ calls) = r.status ∷ recorded calls
recorded (other ∷ calls) = recorded calls

-- A running node ends as failed, any other as it is.
abbrev pub ended : Option NodeStatus → Option NodeStatus
ended (some running) = some failed
ended o = o

mark_failed-eq : (run : PipelineRun) (n : Str) → (mark_failed run n).0 ≡ (apply_mark fail run n).0
unfolding apply_mark
mark_failed-eq run n = refl

abbrev demoted : Option NodeStatus → Option NodeStatus
demoted (some pending) = some failed
demoted (some running) = some failed
demoted o = o

get-mark_failed :
    (run : PipelineRun) (n j : Str)
    → get j (mark_failed run n).0.statuses
      ≡ (if n == j then demoted (get j run.statuses) else get j run.statuses)
get-mark_failed run n j = ground (
  arith,
  str_eq_iff n j,
  ap (λ (r : PipelineRun). get j r.statuses) (mark_failed-eq run n),
  get-mark fail run n j,
)

mark_failed-IsMap :
    (run : PipelineRun) (n : Str) → IsMap run.statuses → IsMap (mark_failed run n).0.statuses
mark_failed-IsMap run n h =
    subst (λ (r : PipelineRun). IsMap r.statuses) (sym (mark_failed-eq run n))
      (mark-IsMap fail run n h)

terminated_cases :
    (here there : Bool) (o : Option NodeStatus) {a b : Option NodeStatus}
    → a ≡ (if there then demoted b else b)
    → b ≡ (if here then demoted o else o)
    → a ≡ (if here || there then demoted o else o)
terminated_cases here there o p q = ground arith

module _ (env : Env) where
  terminated : Coordinator → Str → Coordinator
  terminated c n =
      let c' = record_running_node_terminated env c n in
      record c' { run = (mark_failed c'.run n).0 }

  terminated-cancels :
      (c : Coordinator) (n : Str) → cancels (terminated c n).trace ≡ cancels c.trace
  unfolding cancels terminated record_running_node_terminated
  terminated-cancels c n = ground arith

  terminated-recorded :
      (c : Coordinator) (n : Str) → recorded (terminated c n).trace ≡ recorded c.trace
  unfolding recorded terminated record_running_node_terminated
  terminated-recorded c n = ground arith

  terminated-run : (c : Coordinator) (n : Str) → (terminated c n).run ≡ (mark_failed c.run n).0
  unfolding terminated
  terminated-run c n = ap (λ r. (mark_failed r n).0) (record_running_node_terminated-run env c n)

  record_terminated-cancels :
      (ns : List Str) (c : Coordinator)
      → cancels (record_terminated env ns c).trace ≡ cancels c.trace
  unfolding record_terminated terminated
  record_terminated-cancels [] c = refl
  record_terminated-cancels (n ∷ ns) c =
      record_terminated-cancels ns (terminated c n) ∙ terminated-cancels c n

  record_terminated-recorded :
      (ns : List Str) (c : Coordinator)
      → recorded (record_terminated env ns c).trace ≡ recorded c.trace
  unfolding record_terminated terminated
  record_terminated-recorded [] c = refl
  record_terminated-recorded (n ∷ ns) c =
      record_terminated-recorded ns (terminated c n) ∙ terminated-recorded c n

  get-terminated :
      (ns : List Str) (c : Coordinator) (j : Str)
      → get j (record_terminated env ns c).run.statuses
        ≡ (if contains ns j then demoted (get j c.run.statuses) else get j c.run.statuses)
  unfolding record_terminated terminated contains
  get-terminated [] c j = refl
  get-terminated (n ∷ ns) c j =
      let ih = get-terminated ns (terminated c n) j in
      let step =
        ap (λ (r : PipelineRun). get j r.statuses) (terminated-run c n)
        ∙ get-mark_failed c.run n j in
      terminated_cases (n == j) (contains ns j) (get j c.run.statuses) ih step

  pub get-record_history :
      (c : Coordinator) (s : RunStatus) (j : Str)
      → IsMap c.run.statuses
      → get j (record_history env c s).run.statuses ≡ ended (get j c.run.statuses)
  unfolding record_history
  get-record_history c s j h =
      get-terminated (running_nodes c) c j
      ∙ ground (
        arith,
        contains-filter-keys (λ (e : Str × NodeStatus). same_status e.1 running) j c.run.statuses h,
      )

  pub record_history-recorded :
      (c : Coordinator) (s : RunStatus)
      → recorded (record_history env c s).trace ≡ s ∷ recorded c.trace
  unfolding record_history recorded
  record_history-recorded c s = ap (λ l. s ∷ l) (record_terminated-recorded (running_nodes c) c)

  pub record_history-cancels :
      (c : Coordinator) (s : RunStatus) → cancels (record_history env c s).trace ≡ cancels c.trace
  unfolding record_history cancels
  record_history-cancels c s = record_terminated-cancels (running_nodes c) c

  record_terminated-IsMap :
      (ns : List Str) (c : Coordinator)
      → IsMap c.run.statuses
      → IsMap (record_terminated env ns c).run.statuses
  unfolding record_terminated terminated
  record_terminated-IsMap [] c h = h
  record_terminated-IsMap (n ∷ ns) c h = record_terminated-IsMap ns (terminated c n) (
      subst (λ (r : PipelineRun). IsMap r.statuses) (sym (terminated-run c n))
        (mark_failed-IsMap c.run n h))

  pub record_history-IsMap :
      (c : Coordinator) (s : RunStatus)
      → IsMap c.run.statuses
      → IsMap (record_history env c s).run.statuses
  unfolding record_history
  record_history-IsMap c s h = record_terminated-IsMap (running_nodes c) c h
