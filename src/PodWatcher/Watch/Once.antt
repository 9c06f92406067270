-- ===== src/PodWatcher/Watch/Once.antt =====
-- How often the watcher sends one signal (coordinator/src/pod_watcher.rs). Signals are one if they are
-- of one kind, node and pod.
use jefferies.Prelude.{
  ℕ, ◌+◌, ◌≤◌, Str, str_inst, str_eq, str_eq_iff, ◌≡◌, refl, Bool, true, false, not, ◌&&◌, ◌||◌,
  Option, none, some, List, [], ◌∷◌, ◌++◌, map, contains, get-insert, unwrap_or, arith,
  if◌then◌else◌,
}
use jefferies.PodWatcher.{
  PodSignal, pod_running, infra_failure, expect_deletion, shutdown, pod_deleted_unexpectedly,
}
use jefferies.PodWatcher.Classify.{node_name_for, classify_pod}
use jefferies.PodWatcher.Watch.{
  WatcherState, uids_of, add_uid, set_insert, reported, was_running, deletion_was_expected, expect,
  record_init_observation, take_missing_after_init, emit, emit_all, emit_some, deleted, observed,
  missing_signal, emit_presence_diff, handle_delete, Event, init, init_done, init_apply, apply,
  delete, handle_event, Input, command, event, commands_closed, stream_error, stream_ended,
  on_input, watch, seeded, run,
}

abbrev pub same_signal : PodSignal → PodSignal → Bool
same_signal (pod_running n u) (pod_running m v) = str_eq n m && str_eq u v
same_signal (infra_failure n u r) (infra_failure m v q) = str_eq n m && str_eq u v
same_signal _ _ = false

unfoldable pub times : PodSignal → List PodSignal → ℕ
times k [] = 0
times k (g ∷ gs) = (if same_signal g k then 1 else 0) + times k gs

-- What the watcher may still send of a signal.
abbrev right : PodSignal → WatcherState → ℕ
right (pod_running n u) s = if reported s.reported_running_uids n u then 0 else 1
right (infra_failure n u r) s = if reported s.reported_failure_uids n u then 0 else 1

times-append :
    (k : PodSignal) (xs ys : List PodSignal) → times k (xs ++ ys) ≡ times k xs + times k ys
unfolding times
times-append k [] ys = omega arith
times-append k (x ∷ xs) ys = omega (arith, times-append k xs ys)

pub reported-add_uid :
    (n u m v : Str) (uids : List (Str × List Str))
    → reported (add_uid n u uids) m v ≡ ((str_eq n m && str_eq u v) || reported uids m v)
unfolding contains
reported-add_uid n u m v uids =
    ground
      (arith, get-insert n m (set_insert u (uids_of uids n)) uids, str_eq_iff n m, str_eq_iff u v)

abbrev Spends : WatcherState → WatcherState × List PodSignal → Type 0
Spends s r = (k : PodSignal) → times k r.1 + right k r.0 ≤ right k s

emit-Spends : (s : WatcherState) (g : PodSignal) → Spends s (emit s g)
unfolding emit times
emit-Spends s (pod_running n u) (pod_running m v) =
    ground (arith, reported-add_uid n u m v s.reported_running_uids, str_eq_iff n m, str_eq_iff u v)
emit-Spends s (pod_running n u) (infra_failure m v r) = ground arith
emit-Spends s (infra_failure n u q) (pod_running m v) = ground arith
emit-Spends s (infra_failure n u q) (infra_failure m v r) =
    ground (arith, reported-add_uid n u m v s.reported_failure_uids, str_eq_iff n m, str_eq_iff u v)

emit_all-Spends : (s : WatcherState) (gs : List PodSignal) → Spends s (emit_all s gs)
unfolding emit_all times
emit_all-Spends s [] k = omega arith
emit_all-Spends s (g ∷ gs) k =
    let (s1, sent) = emit s g in
    omega
      (arith, emit-Spends s g k, emit_all-Spends s1 gs k, times-append k sent (emit_all s1 gs).1)

-- A step that sends nothing and reports nothing.
silent :
    (s s' : WatcherState)
    → s'.reported_running_uids ≡ s.reported_running_uids
    → s'.reported_failure_uids ≡ s.reported_failure_uids
    → Spends s (s', [])
unfolding times
silent s s' r f (pod_running n u) = rw r (omega arith)
silent s s' r f (infra_failure n u q) = rw f (omega arith)

emit_some-Spends : (s : WatcherState) (o : Option PodSignal) → Spends s (emit_some s o)
emit_some-Spends s none = silent s s refl refl
emit_some-Spends s (some g) = emit-Spends s g

-- A change of the state before a step that leaves the reports alone.
after :
    (s s' : WatcherState) (r : WatcherState × List PodSignal)
    → s'.reported_running_uids ≡ s.reported_running_uids
    → s'.reported_failure_uids ≡ s.reported_failure_uids
    → Spends s' r
    → Spends s r
unfolding times
after s s' r e f spends (pod_running n u) =
    omega (arith, spends (pod_running n u), silent s s' e f (pod_running n u))
after s s' r e f spends (infra_failure n u q) =
    omega (arith, spends (infra_failure n u q), silent s s' e f (infra_failure n u q))

observed-Spends :
    (s : WatcherState) (o : Option Str) (g : Option PodSignal)
    → Spends s (emit_some (observed s o) g)
unfolding record_init_observation
observed-Spends s none g = emit_some-Spends s g
observed-Spends s (some n) g =
    after s (record_init_observation s n) _ (ground arith) (ground arith)
      (emit_some-Spends (record_init_observation s n) g)

presence-Spends : (s : WatcherState) → Spends s (emit_presence_diff s)
unfolding emit_presence_diff take_missing_after_init
presence-Spends s = after s (take_missing_after_init s).0 _ (ground arith) (ground arith) (
    emit_all-Spends (take_missing_after_init s).0
      (map missing_signal (take_missing_after_init s).1))

either :
    (s : WatcherState) (b : Bool) (x y : WatcherState × List PodSignal)
    → Spends s x
    → Spends s y
    → Spends s (if b then x else y)
either s true x y f g = f
either s false x y f g = g

deleted-Spends : (s : WatcherState) (o : Option Str) (u : Str) → Spends s (deleted s o u)
deleted-Spends s none u = silent s s refl refl
deleted-Spends s (some n) u =
    either s (deletion_was_expected s n) (s, []) _ (silent s s refl refl)
      (either s (not (was_running s n)) (s, []) _ (silent s s refl refl)
        (emit-Spends s (infra_failure n u pod_deleted_unexpectedly)))

handle_event-Spends : (s : WatcherState) (e : Event) → Spends s (handle_event s e)
unfolding handle_event handle_delete
handle_event-Spends s (init_apply pod) = observed-Spends s (node_name_for pod) (classify_pod pod)
handle_event-Spends s (apply pod) = emit_some-Spends s (classify_pod pod)
handle_event-Spends s (delete pod) = deleted-Spends s (node_name_for pod) (unwrap_or pod.uid [])
handle_event-Spends s init = silent s s refl refl
handle_event-Spends s init_done = presence-Spends s

goes_on :
    (s : WatcherState) (r : WatcherState × List PodSignal) (is : List Input) (k : PodSignal)
    → Spends s r
    → times k (watch r.0 is) ≤ right k r.0
    → times k (r.1 ++ watch r.0 is) ≤ right k s
goes_on s r is k f g = omega (arith, f k, times-append k r.1 (watch r.0 is))

watch-times-le :
    (s : WatcherState) (is : List Input) (k : PodSignal) → times k (watch s is) ≤ right k s
unfolding watch on_input times expect
watch-times-le s [] k = omega arith
watch-times-le s (command (expect_deletion n) ∷ is) k =
    goes_on s (expect s n, []) is k (silent s (expect s n) refl refl)
      (watch-times-le (expect s n) is k)
watch-times-le s (command shutdown ∷ is) k = omega arith
watch-times-le s (event e ∷ is) k =
    goes_on s (handle_event s e) is k (handle_event-Spends s e)
      (watch-times-le (handle_event s e).0 is k)
watch-times-le s (commands_closed ∷ is) k = omega arith
watch-times-le s (stream_error ∷ is) k =
    goes_on s (s, []) is k (silent s s refl refl) (watch-times-le s is k)
watch-times-le s (stream_ended ∷ is) k = omega arith

right-le : (k : PodSignal) (s : WatcherState) → right k s ≤ 1
right-le (pod_running n u) s = ground arith
right-le (infra_failure n u r) s = ground arith

-- The watcher sends at most one signal of each kind for each pod of each node, whatever the stream
-- and the coordinator send it.
pub run-times-le :
    (seed_running : List Str) (inputs : List Input) (k : PodSignal)
    → times k (run seed_running inputs) ≤ 1
unfolding run
run-times-le seed_running inputs k =
    omega (arith, watch-times-le (seeded seed_running) inputs k, right-le k (seeded seed_running))
