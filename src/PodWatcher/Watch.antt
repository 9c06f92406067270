-- ===== src/PodWatcher/Watch.antt =====
-- The pod watcher of one run (`WatcherState` and `PodWatcher` of coordinator/src/pod_watcher.rs). A
-- step returns the signals that it sends; that a send may fail is only logged.
pub mod Once
pub mod Deleted
pub mod Presence
use jefferies.Prelude.{
  Str, str_inst, str_eq, bytes, Bool, true, false, not, Option, none, some, List, [], ◌∷◌, ◌++◌,
  map, contains, filter, is_empty, get, insert, unwrap_or, if◌then◌else◌,
}
use jefferies.PodWatcher.{
  InfraFailureReason, pod_deleted_unexpectedly, PodSignal, pod_running, infra_failure,
  WatcherCommand, expect_deletion, shutdown,
}
use jefferies.PodWatcher.Classify.{Pod, node_name_for, classify_pod}

abbrev pub rehydration_sentinel_uid : Str
rehydration_sentinel_uid = bytes "__rehydrated__"

pub record WatcherState : Type 0 where
  pub reported_failure_uids : List (Str × List Str)
  pub reported_running_uids : List (Str × List Str)
  pub expected_deletions : List Str
  pub seed_running : List Str
  pub observed_during_init : List Str
  pub presence_diff_emitted : Bool

unfoldable pub seed_uids : List (Str × List Str) → List Str → List (Str × List Str)
unfolding insert
seed_uids m [] = m
seed_uids m (node ∷ running) = seed_uids (insert node (rehydration_sentinel_uid ∷ []) m) running

unfoldable pub seeded : List Str → WatcherState
unfolding seed_uids
seeded running = record {
  reported_failure_uids = [];
  reported_running_uids = seed_uids [] running;
  expected_deletions = [];
  seed_running = running;
  observed_during_init = [];
  presence_diff_emitted = false;
}

-- `HashSet::insert`, without its result.
abbrev pub set_insert : Str → List Str → List Str
set_insert x s = if contains s x then s else x ∷ s

abbrev pub uids_of : List (Str × List Str) → Str → List Str
uids_of m node = unwrap_or (get node m) []

-- `m.entry(node).or_default().insert(uid)`: the map after it. Its result is `not (reported m node uid)`.
abbrev pub add_uid : Str → Str → List (Str × List Str) → List (Str × List Str)
add_uid node uid m = insert node (set_insert uid (uids_of m node)) m

abbrev pub reported : List (Str × List Str) → Str → Str → Bool
reported m node uid = contains (uids_of m node) uid

unfoldable pub should_emit : WatcherState → PodSignal → WatcherState × Bool
unfolding get insert contains
should_emit s (pod_running node uid) = (
  record s { reported_running_uids = add_uid node uid s.reported_running_uids },
  not (reported s.reported_running_uids node uid),
)
should_emit s (infra_failure node uid reason) = (
  record s { reported_failure_uids = add_uid node uid s.reported_failure_uids },
  not (reported s.reported_failure_uids node uid),
)

unfoldable pub was_running : WatcherState → Str → Bool
unfolding get
was_running s node = not (is_empty (uids_of s.reported_running_uids node))

unfoldable pub expect : WatcherState → Str → WatcherState
unfolding contains
expect s node = record s { expected_deletions = set_insert node s.expected_deletions }

unfoldable pub deletion_was_expected : WatcherState → Str → Bool
unfolding contains
deletion_was_expected s node = contains s.expected_deletions node

unfoldable pub record_init_observation : WatcherState → Str → WatcherState
unfolding contains
record_init_observation s node =
    if contains s.seed_running node
    then record s { observed_during_init = set_insert node s.observed_during_init }
    else s

unfoldable pub take_missing_after_init : WatcherState → WatcherState × List Str
unfolding contains
take_missing_after_init s = if s.presence_diff_emitted then (s, []) else (
  record s { presence_diff_emitted = true },
  filter (λ node. not (contains s.observed_during_init node)) s.seed_running,
)

-- `if state.should_emit(&signal) { self.send_signal(signal) }`
unfoldable pub emit : WatcherState → PodSignal → WatcherState × List PodSignal
unfolding should_emit
emit s signal = let (s', fresh) = should_emit s signal in (s', if fresh then signal ∷ [] else [])

unfoldable pub emit_all : WatcherState → List PodSignal → WatcherState × List PodSignal
unfolding emit
emit_all s [] = (s, [])
emit_all s (signal ∷ signals) =
    let (s1, sent) = emit s signal in let (s2, more) = emit_all s1 signals in (s2, sent ++ more)

abbrev pub missing_signal : Str → PodSignal
missing_signal node = infra_failure node rehydration_sentinel_uid pod_deleted_unexpectedly

unfoldable pub emit_presence_diff : WatcherState → WatcherState × List PodSignal
unfolding take_missing_after_init emit_all
emit_presence_diff s =
    let (s', missing) = take_missing_after_init s in emit_all s' (map missing_signal missing)

abbrev pub emit_some : WatcherState → Option PodSignal → WatcherState × List PodSignal
emit_some s none = (s, [])
emit_some s (some signal) = emit s signal

abbrev pub deleted : WatcherState → Option Str → Str → WatcherState × List PodSignal
deleted s none uid = (s, [])
deleted s (some node) uid =
    if deletion_was_expected s node
    then (s, [])
    else if not (was_running s node)
    then (s, [])
    else emit s (infra_failure node uid pod_deleted_unexpectedly)

unfoldable pub handle_delete : WatcherState → Pod → WatcherState × List PodSignal
unfolding node_name_for deletion_was_expected was_running emit
handle_delete s pod = deleted s (node_name_for pod) (unwrap_or pod.uid [])

-- The events of the watch stream.
pub data Event : Type 0 where
  init init_done : Event
  init_apply apply delete : Pod → Event

abbrev pub observed : WatcherState → Option Str → WatcherState
observed s none = s
observed s (some node) = record_init_observation s node

unfoldable pub handle_event : WatcherState → Event → WatcherState × List PodSignal
unfolding node_name_for record_init_observation classify_pod emit handle_delete emit_presence_diff
handle_event s (init_apply pod) = emit_some (observed s (node_name_for pod)) (classify_pod pod)
handle_event s (apply pod) = emit_some s (classify_pod pod)
handle_event s (delete pod) = handle_delete s pod
handle_event s init = (s, [])
handle_event s init_done = emit_presence_diff s

-- What the arms of the `select!` receive. The channel of commands closes with the coordinator.
pub data Input : Type 0 where
  command : WatcherCommand → Input
  event : Event → Input
  commands_closed stream_error stream_ended : Input

-- One round of the loop, or its end.
unfoldable pub on_input : WatcherState → Input → Option (WatcherState × List PodSignal)
unfolding expect handle_event
on_input s (command (expect_deletion node)) = some (expect s node, [])
on_input s (command shutdown) = none
on_input s commands_closed = none
on_input s (event e) = some (handle_event s e)
on_input s stream_error = some (s, [])
on_input s stream_ended = none

abbrev pub go_on :
    Option (WatcherState × List PodSignal) → (WatcherState → List PodSignal) → List PodSignal
go_on none rest = []
go_on (some (s, sent)) rest = sent ++ rest s

-- The signals that the watcher sends, over the inputs in the order in which it takes them.
unfoldable pub watch : WatcherState → List Input → List PodSignal
unfolding on_input
watch s [] = []
watch s (i ∷ is) = go_on (on_input s i) (λ s'. watch s' is)

unfoldable pub run : List Str → List Input → List PodSignal
unfolding seeded watch
run seed_running inputs = watch (seeded seed_running) inputs
