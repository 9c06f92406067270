-- ===== src/Run.antt =====
-- One run of a pipeline: the statuses of its nodes and their dependencies
-- (coordinator/src/run.rs), and its stored form (`NodeStatus` and `RunState` of
-- state_store/src/lib.rs).
pub mod Marks
pub mod Ready
pub mod Sets
pub mod Stored
pub mod WellFormed
mod Tests
use jefferies.Prelude.{
  ℕ, Str, Bool, true, false, ◌&&◌, ◌||◌, Option, none, some, List, [], ◌∷◌, ◌++◌, map, all, any,
  filter, is_empty, unwrap_or, if◌then◌else◌, get, insert, collect, contains, keys, ◌==◌, str_inst,
}
use mathlib.Core.Option
use jefferies.Pipelines.{Pipeline, NodeInfo}

pub data NodeStatus : Type 0 where
  pending running success failed : NodeStatus

abbrev pub same_status : NodeStatus → NodeStatus → Bool
same_status pending pending = true
same_status running running = true
same_status success success = true
same_status failed failed = true
same_status _ _ = false

-- `self.statuses.get(node) == Some(&status)`
abbrev pub is_status : Option NodeStatus → NodeStatus → Bool
is_status none t = false
is_status (some s) t = same_status s t

pub record RunState : Type 0 where
  pub version : ℕ
  pub statuses : List (Str × NodeStatus)
  pub dependencies : List (Str × List Str)
  pub pipeline : Pipeline

pub record PipelineRun : Type 0 where
  pub statuses : List (Str × NodeStatus)
  pub dependencies : List (Str × List Str)

-- `iter.collect::<HashSet<_>>()`
unfoldable pub to_set_from : List Str → List Str → List Str
to_set_from seen [] = seen
to_set_from seen (x ∷ xs) = to_set_from (if contains seen x then seen else seen ++ x ∷ []) xs

unfoldable pub to_set : List Str → List Str
unfolding to_set_from contains
to_set = to_set_from []

unfoldable pub new : List NodeInfo → PipelineRun
unfolding to_set collect
new nodes = record {
  statuses = collect (map (λ n. (n.name, pending)) nodes);
  dependencies = collect (map (λ n. (n.name, to_set n.dependencies)) nodes);
}

unfoldable pub deps_satisfied : PipelineRun → Str → Bool
unfolding get
deps_satisfied run node =
    unwrap_or
      (Option.map (λ deps. all (λ dep. is_status (get dep run.statuses) success) deps)
        (get node run.dependencies))
      true

unfoldable pub ready_nodes : PipelineRun → List Str
unfolding deps_satisfied
ready_nodes run =
    keys (filter (λ e. same_status e.1 pending && deps_satisfied run e.0) run.statuses)

abbrev set_status : PipelineRun → Str → NodeStatus → PipelineRun
set_status run node s = record run { statuses = insert node s run.statuses }

unfoldable pub mark_running : PipelineRun → Str → PipelineRun × Bool
unfolding get insert
mark_running run node =
    if is_status (get node run.statuses) pending
    then (set_status run node running, true)
    else (run, false)

unfoldable pub mark_success : PipelineRun → Str → PipelineRun × Bool
unfolding get insert
mark_success run node =
    if is_status (get node run.statuses) running || is_status (get node run.statuses) pending
    then (set_status run node success, true)
    else (run, false)

unfoldable pub mark_failed : PipelineRun → Str → PipelineRun × Bool
unfolding get insert
mark_failed run node =
    if is_status (get node run.statuses) running || is_status (get node run.statuses) pending
    then (set_status run node failed, true)
    else (run, false)

unfoldable pub mark_dispatch_failed : PipelineRun → Str → PipelineRun × Bool
unfolding get insert
mark_dispatch_failed run node =
    if is_status (get node run.statuses) pending
    then (set_status run node failed, true)
    else (run, false)

unfoldable pub is_complete : PipelineRun → Bool
unfolding ready_nodes
is_complete run =
    if any (λ e. same_status e.1 running) run.statuses then false else is_empty (ready_nodes run)

unfoldable pub from_run_state : RunState → PipelineRun
unfolding to_set collect
from_run_state state = record {
  statuses = state.statuses;
  dependencies = collect (map (λ e. (e.0, to_set e.1)) state.dependencies);
}

unfoldable pub to_run_state : PipelineRun → ℕ → Pipeline → RunState
unfolding collect
to_run_state run version pipeline = record {
  version = version;
  statuses = run.statuses;
  dependencies = collect run.dependencies;
  pipeline = pipeline;
}
