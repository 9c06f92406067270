-- ===== src/Run/Marks.antt =====
-- The four `mark_*` methods of a run (coordinator/src/run.rs) as one family, and what a sequence
-- of them can do to the statuses.
use jefferies.Prelude.{
  ℕ, suc, ◌+◌, ◌*◌, ◌≤◌, ◌<◌, Str, str_inst, str_eq_iff, ◌≡◌, refl, Bool, true, false, ◌&&◌, Option,
  none, some, List, [], ◌∷◌, all, all_mono, get, insert, ◌==◌, IsMap, get-insert, insert-IsMap,
  arith, if◌then◌else◌, length, ◌⊎◌, inl, inr, Option-cases,
}
use jefferies.Run.{
  NodeStatus, pending, running, success, failed, is_status, PipelineRun, mark_running, mark_success,
  mark_failed, mark_dispatch_failed, deps_satisfied,
}

pub data Mark : Type 0 where
  start succeed fail fail_dispatch : Mark

unfoldable pub apply_mark : Mark → PipelineRun → Str → PipelineRun × Bool
unfolding mark_running mark_success mark_failed mark_dispatch_failed
apply_mark start = mark_running
apply_mark succeed = mark_success
apply_mark fail = mark_failed
apply_mark fail_dispatch = mark_dispatch_failed

-- The moves of the life cycle that a mark makes, as a table over the current status.
abbrev pub accepts : Mark → Option NodeStatus → Bool
accepts start (some pending) = true
accepts succeed (some pending) = true
accepts succeed (some running) = true
accepts fail (some pending) = true
accepts fail (some running) = true
accepts fail_dispatch (some pending) = true
accepts _ _ = false

abbrev pub target : Mark → NodeStatus
target start = running
target succeed = success
target fail = failed
target fail_dispatch = failed

pub mark_accepted :
    (m : Mark) (run : PipelineRun) (node : Str)
    → (apply_mark m run node).1 ≡ accepts m (get node run.statuses)
unfolding apply_mark
mark_accepted start run node = ground arith
mark_accepted m run node = ground arith

-- The four marks follow one table of moves: an accepted mark sets the status of its node to its
-- target, and every other status stays.
pub get-mark :
    (m : Mark) (run : PipelineRun) (node j : Str)
    → get j (apply_mark m run node).0.statuses ≡ (
        if accepts m (get node run.statuses) && node == j
        then some (target m)
        else get j run.statuses)
unfolding apply_mark
get-mark start run node j = ground (arith, get-insert node j running run.statuses)
get-mark succeed run node j = ground (arith, get-insert node j success run.statuses)
get-mark m run node j = ground (arith, get-insert node j failed run.statuses)

-- A sequence of marks, with the number of those that a method accepted.
unfoldable pub run_marks : PipelineRun → List (Mark × Str) → PipelineRun × ℕ
unfolding apply_mark
run_marks run [] = (run, 0)
run_marks run ((m, node) ∷ ms) =
    let (run', done) = apply_mark m run node in
    let (last, n) = run_marks run' ms in (last, if done then suc n else n)

-- A mark changes no dependency.
pub mark-dependencies :
    (m : Mark) (run : PipelineRun) (node : Str)
    → (apply_mark m run node).0.dependencies ≡ run.dependencies
unfolding apply_mark
mark-dependencies start run node = ground arith
mark-dependencies m run node = ground arith

pub mark-IsMap :
    (m : Mark) (run : PipelineRun) (node : Str)
    → IsMap run.statuses
    → IsMap (apply_mark m run node).0.statuses
unfolding apply_mark
mark-IsMap start run node h = ground (arith, insert-IsMap node running run.statuses h)
mark-IsMap succeed run node h = ground (arith, insert-IsMap node success run.statuses h)
mark-IsMap m run node h = ground (arith, insert-IsMap node failed run.statuses h)

-- Success and failure are final for one mark, and success is what a dependency waits for.
abbrev pub is_terminal : NodeStatus → Bool
is_terminal success = true
is_terminal failed = true
is_terminal _ = false

mark_terminal :
    (m : Mark) (run : PipelineRun) (node j : Str) (s : NodeStatus)
    → is_terminal s ≡ true
    → get j run.statuses ≡ some s
    → get j (apply_mark m run node).0.statuses ≡ some s
mark_terminal m run node j s t g = ground (arith, get-mark m run node j, str_eq_iff node j)

-- A node that has succeeded or failed keeps that status, whatever marks follow.
pub terminal_stays :
    (run : PipelineRun) (ms : List (Mark × Str)) (j : Str) (s : NodeStatus)
    → is_terminal s ≡ true
    → get j run.statuses ≡ some s
    → get j (run_marks run ms).0.statuses ≡ some s
unfolding run_marks
terminal_stays run [] j s t g = g
terminal_stays run ((m, node) ∷ ms) j s t g =
    terminal_stays (apply_mark m run node).0 ms j s t (mark_terminal m run node j s t g)

-- What a status still allows: two marks of a pending node, one of a running node.
abbrev pub budget_of : NodeStatus → ℕ
budget_of pending = 2
budget_of running = 1
budget_of _ = 0

unfoldable pub budget : List (Str × NodeStatus) → ℕ
budget [] = 0
budget ((node, s) ∷ m) = budget_of s + budget m

budget-insert :
    (node : Str) (s t : NodeStatus) (m : List (Str × NodeStatus))
    → get node m ≡ some s
    → budget_of t < budget_of s
    → budget (insert node t m) < budget m
unfolding budget insert get
budget-insert node s t [] g lt = cc
budget-insert node s t ((j, u) ∷ m) g lt = ground (arith, budget-insert node s t m)

budget-le : (m : List (Str × NodeStatus)) → budget m ≤ 2 * length m
unfolding budget
budget-le [] = omega arith
budget-le ((j, pending) ∷ m) = omega (arith, budget-le m)
budget-le ((j, s) ∷ m) = omega (arith, budget-le m)

mark-budget :
    (m : Mark) (run : PipelineRun) (node : Str)
    → ((apply_mark m run node).1 ≡ false) × ((apply_mark m run node).0 ≡ run)
      ⊎ (budget (apply_mark m run node).0.statuses < budget run.statuses)
unfolding apply_mark
mark-budget start run node = ground (arith, budget-insert node pending running run.statuses)
mark-budget succeed run node = ground (
  arith,
  budget-insert node pending success run.statuses,
  budget-insert node running success run.statuses,
)
mark-budget m run node = ground (
  arith,
  budget-insert node pending failed run.statuses,
  budget-insert node running failed run.statuses,
)

marks-budget :
    (run : PipelineRun) (ms : List (Mark × Str)) → (run_marks run ms).1 ≤ budget run.statuses
unfolding run_marks
marks-budget run [] = omega arith
marks-budget run ((m, node) ∷ ms) =
    let run' = (apply_mark m run node).0 in
    ground (arith, mark-budget m run node, marks-budget run' ms)

-- The marks of one node that a method accepted.
unfoldable pub accepted_for : Str → PipelineRun → List (Mark × Str) → ℕ
unfolding apply_mark
accepted_for j run [] = 0
accepted_for j run ((m, node) ∷ ms) =
    let (run', done) = apply_mark m run node in
    let n = accepted_for j run' ms in if done && node == j then suc n else n

-- What a node's entry still allows.
abbrev pub room : Option NodeStatus → ℕ
room none = 0
room (some s) = budget_of s

accepts-room :
    (m : Mark) (o : Option NodeStatus) → accepts m o ≡ true → budget_of (target m) < room o
accepts-room start (some pending) h = omega arith
accepts-room succeed (some pending) h = omega arith
accepts-room succeed (some running) h = omega arith
accepts-room fail (some pending) h = omega arith
accepts-room fail (some running) h = omega arith
accepts-room fail_dispatch (some pending) h = omega arith
accepts-room m o h = ground arith

accepted_for-le :
    (j : Str) (run : PipelineRun) (ms : List (Mark × Str))
    → accepted_for j run ms ≤ room (get j run.statuses)
unfolding accepted_for
accepted_for-le j run [] = omega arith
accepted_for-le j run ((m, node) ∷ ms) =
    let run' = (apply_mark m run node).0 in
    ground (
      arith,
      mark_accepted m run node,
      get-mark m run node j,
      str_eq_iff node j,
      accepts-room m (get node run.statuses),
      accepted_for-le j run' ms,
    )

-- However many marks are tried, at most two of a pending node are accepted, at most one of a running
-- node and none of any other, and in all at most twice as many as the run has statuses.
pub marks_accepted-le :
    (run : PipelineRun) (ms : List (Mark × Str)) (j : Str)
    → (accepted_for j run ms ≤ room (get j run.statuses))
      × ((run_marks run ms).1 ≤ 2 * length run.statuses)
marks_accepted-le run ms j =
    (accepted_for-le j run ms, omega (arith, marks-budget run ms, budget-le run.statuses))

pub is_status-eq : (o : Option NodeStatus) (s : NodeStatus) → is_status o s ≡ true → o ≡ some s
is_status-eq none s h = cc
is_status-eq (some t) s h = ground arith

succeeded_stays :
    (m : Mark) (run : PipelineRun) (node d : Str)
    → is_status (get d run.statuses) success ≡ true
    → is_status (get d (apply_mark m run node).0.statuses) success ≡ true
succeeded_stays m run node d h =
    rw (mark_terminal m run node d success refl (is_status-eq _ success h))

mark-deps :
    (m : Mark) (run : PipelineRun) (node : Str) (deps : List Str)
    → all (λ dep. is_status (get dep run.statuses) success) deps ≡ true
    → all (λ dep. is_status (get dep (apply_mark m run node).0.statuses) success) deps ≡ true
mark-deps m run node deps = all_mono _ _ deps (succeeded_stays m run node)

mark-deps_satisfied :
    (m : Mark) (run : PipelineRun) (node n : Str)
    → deps_satisfied run n ≡ true
    → deps_satisfied (apply_mark m run node).0 n ≡ true
unfolding deps_satisfied
mark-deps_satisfied m run node n h = elim (Option-cases (get n run.dependencies)) [
  | inl absent ↦ rw (mark-dependencies m run node, absent)
  | inr (deps, found) ↦
      rw (mark-dependencies m run node, found) (mark-deps m run node deps (ground arith))
]

-- Satisfied dependencies stay satisfied, whatever marks follow.
deps_satisfied_stays :
    (run : PipelineRun) (ms : List (Mark × Str)) (n : Str)
    → deps_satisfied run n ≡ true
    → deps_satisfied (run_marks run ms).0 n ≡ true
unfolding run_marks
deps_satisfied_stays run [] n h = h
deps_satisfied_stays run ((m, node) ∷ ms) n h =
    deps_satisfied_stays (apply_mark m run node).0 ms n (mark-deps_satisfied m run node n h)
