-- ===== src/Run/WellFormed.antt =====
-- The well-formedness of a run (coordinator/src/run.rs): distinct keys in its two maps, the same
-- nodes in both, and sets of dependencies.
use jefferies.Prelude.{
  Str, str_inst, ◌≡◌, refl, List, [], ◌∷◌, map, sym, ◌∙◌, contains_key, insert, collect_from,
  collect, IsMap, arith, collect-IsMap, contains_key-collect, contains_key-insert,
  contains_key_of_get,
}
use jefferies.Pipelines.{NodeInfo}
use jefferies.Run.{pending, running, success, failed, PipelineRun, to_set, new}
use jefferies.Run.Marks.{Mark, start, succeed, apply_mark, mark-IsMap, mark-dependencies, run_marks}
use jefferies.Run.Sets.{IsDistinct, to_set-IsDistinct}

abbrev pub DepsDistinct : List (Str × List Str) → Type 0
DepsDistinct [] = Unit
DepsDistinct ((n, deps) ∷ m) = IsDistinct deps × DepsDistinct m

pub record WellFormed (run : PipelineRun) : Type 0 where
  pub statuses_map : IsMap run.statuses
  pub dependencies_map : IsMap run.dependencies
  pub deps_distinct : DepsDistinct run.dependencies
  pub same_nodes : (n : Str) → contains_key n run.statuses ≡ contains_key n run.dependencies

-- Every list that stands in the map is distinct, also after a write.
insert-DepsDistinct :
    (n : Str) (deps : List Str) (m : List (Str × List Str))
    → IsDistinct deps
    → DepsDistinct m
    → DepsDistinct (insert n deps m)
unfolding insert
insert-DepsDistinct n deps [] d h = (d, tt)
insert-DepsDistinct n deps ((j, w) ∷ m) d h = ground (arith, insert-DepsDistinct n deps m d h.1)

abbrev deps_entries : List NodeInfo → List (Str × List Str)
deps_entries = map (λ n. (n.name, to_set n.dependencies))

collect-DepsDistinct :
    (m : List (Str × List Str)) (nodes : List NodeInfo)
    → DepsDistinct m
    → DepsDistinct (collect_from m (deps_entries nodes))
unfolding collect_from
collect-DepsDistinct m [] h = h
collect-DepsDistinct m (n ∷ nodes) h =
    collect-DepsDistinct (insert n.name (to_set n.dependencies) m) nodes
      (insert-DepsDistinct n.name _ m (to_set-IsDistinct n.dependencies) h)

same_names :
    (k : Str) (nodes : List NodeInfo)
    → contains_key k (map (λ n. (n.name, pending)) nodes) ≡ contains_key k (deps_entries nodes)
unfolding contains_key
same_names k [] = refl
same_names k (n ∷ nodes) = ground (arith, same_names k nodes)

-- A new run is well formed, whatever the list of nodes, duplicate names included.
pub new-WellFormed : (nodes : List NodeInfo) → WellFormed (new nodes)
unfolding new collect
new-WellFormed nodes = record {
  statuses_map = collect-IsMap (map (λ n. (n.name, pending)) nodes);
  dependencies_map = collect-IsMap (deps_entries nodes);
  deps_distinct = collect-DepsDistinct [] nodes tt;
  same_nodes = λ k.
      contains_key-collect k (map (λ n. (n.name, pending)) nodes)
      ∙ same_names k nodes
      ∙ sym (contains_key-collect k (deps_entries nodes));
}

-- A mark adds no node.
contains_key-mark :
    (m : Mark) (run : PipelineRun) (node j : Str)
    → contains_key j (apply_mark m run node).0.statuses ≡ contains_key j run.statuses
unfolding apply_mark
contains_key-mark start run node j = ground (
  arith,
  contains_key-insert node j running run.statuses,
  str_inst.same_iff node j,
  contains_key_of_get node {v = pending} run.statuses,
)
contains_key-mark succeed run node j = ground (
  arith,
  contains_key-insert node j success run.statuses,
  str_inst.same_iff node j,
  contains_key_of_get node {v = pending} run.statuses,
  contains_key_of_get node {v = running} run.statuses,
)
contains_key-mark m run node j = ground (
  arith,
  contains_key-insert node j failed run.statuses,
  str_inst.same_iff node j,
  contains_key_of_get node {v = pending} run.statuses,
  contains_key_of_get node {v = running} run.statuses,
)

mark-WellFormed :
    (m : Mark) (run : PipelineRun) (node : Str)
    → WellFormed run
    → WellFormed (apply_mark m run node).0
mark-WellFormed m run node w = record {
  statuses_map = mark-IsMap m run node w.statuses_map;
  dependencies_map = rw (mark-dependencies m run node) w.dependencies_map;
  deps_distinct = rw (mark-dependencies m run node) w.deps_distinct;
  same_nodes =
      λ j. rw (mark-dependencies m run node, contains_key-mark m run node j) (w.same_nodes j);
}

-- Every sequence of marks keeps a run well formed.
pub marks-WellFormed :
    (run : PipelineRun) (ms : List (Mark × Str)) → WellFormed run → WellFormed (run_marks run ms).0
unfolding run_marks
marks-WellFormed run [] w = w
marks-WellFormed run ((m, node) ∷ ms) w =
    marks-WellFormed (apply_mark m run node).0 ms (mark-WellFormed m run node w)
