-- ===== src/Run/Tests.antt =====
-- Runs of a small pipeline (coordinator/src/run.rs).
use jefferies.Prelude.{
  ℕ, ◌≤◌, ◌*◌, Str, str_eq, str_eq_iff, str_inst, ◌≡◌, ◌≢◌, subst, ◌↔◌, refl, true, some, List, [],
  ◌∷◌, get, contains, length, arith, if◌then◌else◌, IsMap, contains_key,
}
use jefferies.Pipelines.Samples.{build, test, sample_pipeline}
use jefferies.Pipelines.Merge.{node_info}
use jefferies.Run.{
  NodeStatus, pending, running, success, failed, PipelineRun, new, ready_nodes, is_complete,
  from_run_state, to_run_state,
}
use jefferies.Run.Marks.{
  Mark, start, succeed, fail, run_marks, terminal_stays, accepted_for, room, marks_accepted-le,
}
use jefferies.Run.Ready.{
  DepsSucceeded, Acyclic, DepsKnown, ready_nodes_exact, is_complete_exact, complete_all_succeeded,
}
use jefferies.Run.WellFormed.{WellFormed, new-WellFormed, marks-WellFormed}
use jefferies.Run.Stored.{
  from-to_run_state, run_state_is_terminal, run_state_is_terminal-eq-is_complete,
}

abbrev sample_run : PipelineRun
sample_run = record {
  statuses = (build, pending) ∷ (test, pending) ∷ [];
  dependencies = (build, []) ∷ (test, build ∷ []) ∷ [];
}

abbrev built_run : PipelineRun
built_run = record {
  statuses = (build, success) ∷ (test, pending) ∷ [];
  dependencies = (build, []) ∷ (test, build ∷ []) ∷ [];
}

abbrev done_run : PipelineRun
done_run = record {
  statuses = (build, success) ∷ (test, success) ∷ [];
  dependencies = (build, []) ∷ (test, build ∷ []) ∷ [];
}

abbrev build_marks : List (Mark × Str)
build_marks = (start, build) ∷ (succeed, build) ∷ (fail, build) ∷ (start, test) ∷ []

new-sample : new (node_info sample_pipeline) ≡ sample_run
unfolding new node_info
new-sample = refl

sample_run-IsMap : IsMap sample_run.statuses
unfolding contains_key str_eq
sample_run-IsMap = (refl, (refl, tt))

done_run-IsMap : IsMap done_run.statuses
unfolding contains_key str_eq
done_run-IsMap = (refl, (refl, tt))

abbrev depth : Str → ℕ
depth n = if str_eq n test then 1 else 0

done_run-Acyclic : Acyclic done_run depth
unfolding get contains str_eq
done_run-Acyclic n deps found d c = ground (arith, str_eq_iff test n, str_eq_iff build d)

done_run-DepsKnown : DepsKnown done_run
unfolding get contains
done_run-DepsKnown n deps found d c = ground arith

done_run-is_complete : is_complete done_run ≡ true
unfolding is_complete
done_run-is_complete = refl

done_run-unfailed : (n : Str) → get n done_run.statuses ≢ some failed
unfolding get
done_run-unfailed n g = ground arith

complete_all_succeeded_example : ◌≡◌ {A = NodeStatus} success success
unfolding get str_eq
complete_all_succeeded_example =
    complete_all_succeeded done_run depth done_run-Acyclic done_run-DepsKnown done_run-IsMap
      done_run-is_complete done_run-unfailed test success refl

ready_nodes_exact_example :
    (contains (ready_nodes sample_run) build ≡ true)
    ↔ ((get build sample_run.statuses ≡ some pending) × DepsSucceeded sample_run build)
ready_nodes_exact_example = ready_nodes_exact sample_run build sample_run-IsMap

is_complete_exact_example : (is_complete done_run ≡ true) ↔ (
    ((n : Str) → get n done_run.statuses ≢ some running)
    × ((n : Str) → get n done_run.statuses ≡ some pending → ¬ DepsSucceeded done_run n))
is_complete_exact_example = is_complete_exact done_run done_run-IsMap

terminal_stays_example : get build (run_marks built_run build_marks).0.statuses ≡ some success
unfolding get str_eq
terminal_stays_example = terminal_stays built_run build_marks build success refl refl

marks_accepted-le_example :
    (accepted_for build sample_run build_marks ≤ room (get build sample_run.statuses))
    × ((run_marks sample_run build_marks).1 ≤ 2 * length sample_run.statuses)
marks_accepted-le_example = marks_accepted-le sample_run build_marks build

sample_run-WellFormed : WellFormed sample_run
sample_run-WellFormed = subst WellFormed new-sample (new-WellFormed (node_info sample_pipeline))

marks-WellFormed_example : WellFormed (run_marks sample_run build_marks).0
marks-WellFormed_example = marks-WellFormed sample_run build_marks sample_run-WellFormed

from-to_run_state_example : from_run_state (to_run_state sample_run 3 sample_pipeline) ≡ sample_run
from-to_run_state_example = from-to_run_state sample_run 3 sample_pipeline sample_run-WellFormed

run_state_is_terminal-eq-is_complete_example :
    run_state_is_terminal (to_run_state sample_run 3 sample_pipeline) ≡ is_complete sample_run
run_state_is_terminal-eq-is_complete_example =
    run_state_is_terminal-eq-is_complete sample_run 3 sample_pipeline sample_run-WellFormed
