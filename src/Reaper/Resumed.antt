-- ===== src/Reaper/Resumed.antt =====
-- The state that is rebuilt from the rows of the history (`reconstruct_run_state_from_postgres` and
-- the check of the rows against S3 in coordinator/src/reaper.rs), and what is ready in it.
use mathlib.Core.Option
use jefferies.Prelude.{
  Str, str_inst, ◌≡◌, refl, Option, some, List, [], ◌∷◌, map, All, get, collect-IsMap, IsMap,
  contains, get-collect-All, ◌∙◌, contains_key, contains_key-collect,
}
use jefferies.Pipelines.{Pipeline, NodeInfo}
use jefferies.Pipelines.Merge.{node_info}
use jefferies.Run.{NodeStatus, running, failed, PipelineRun, RunState, from_run_state, to_set}
use jefferies.Run
use jefferies.RunHistory.{NodeRunRow}
use jefferies.Reaper.Postgres.{status_of_row, reconstruct_run_state_from_postgres}

-- The run that a coordinator takes over from the rebuilt state.
abbrev pub resumed_run : Pipeline → List (Str × NodeRunRow) → PipelineRun
resumed_run p m = from_run_state (reconstruct_run_state_from_postgres p m)

abbrev FromRow : List (Str × NodeRunRow) → Str × NodeStatus → Type 0
FromRow m e = e.1 ≡ status_of_row (get e.0 m)

entries-FromRow :
    (m : List (Str × NodeRunRow)) (nodes : List NodeInfo)
    → All (FromRow m) (map (λ n. (n.name, status_of_row (get n.name m))) nodes)
entries-FromRow m [] = tt
entries-FromRow m (n ∷ nodes) = (refl, entries-FromRow m nodes)

abbrev pub node_names : Pipeline → List Str
node_names p = map (λ n. n.name) (node_info p)

names_known :
    (nodes : List NodeInfo) (f : Str → NodeStatus) (k : Str)
    → contains_key k (map (λ n. (n.name, f n.name)) nodes) ≡ contains (map (λ n. n.name) nodes) k
unfolding contains_key contains
names_known [] f k = refl
names_known (n ∷ nodes) f k = rw (names_known nodes f k) refl

pub has_status :
    (p : Pipeline) (m : List (Str × NodeRunRow)) (k : Str)
    → contains_key k (resumed_run p m).statuses ≡ contains (node_names p) k
unfolding from_run_state reconstruct_run_state_from_postgres
has_status p m k =
    contains_key-collect k (map (λ n. (n.name, status_of_row (get n.name m))) (node_info p))
    ∙ names_known (node_info p) (λ n. status_of_row (get n m)) k

pub status-FromRow :
    (p : Pipeline) (m : List (Str × NodeRunRow)) (n : Str) (s : NodeStatus)
    → get n (resumed_run p m).statuses ≡ some s
    → s ≡ status_of_row (get n m)
unfolding from_run_state reconstruct_run_state_from_postgres
status-FromRow p m n s found =
    get-collect-All (FromRow m) n _ (entries-FromRow m (node_info p)) found

pub statuses-IsMap : (p : Pipeline) (m : List (Str × NodeRunRow)) → IsMap (resumed_run p m).statuses
unfolding from_run_state reconstruct_run_state_from_postgres
statuses-IsMap p m = collect-IsMap (map (λ n. (n.name, status_of_row (get n.name m))) (node_info p))
