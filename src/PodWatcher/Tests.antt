-- ===== src/PodWatcher/Tests.antt =====
-- The pod watcher on concrete pods (coordinator/src/pod_watcher.rs).
use jefferies.Prelude.{
  ◌≡◌, ◌≤◌, refl, true, false, none, some, [], ◌∷◌, bytes, Str, str_eq, str_inst, contains, any,
  not, ◌&&◌, ◌^◌, ◌-◌,
}
use jefferies.PodWatcher.{container_terminated, pod_running}
use jefferies.PodWatcher.Messages.{full_message}
use jefferies.PodWatcher.Classify.{ContainerState, Pod}
use jefferies.PodWatcher.Watch.{
  WatcherState, deletion_was_expected, expect, watch, run, seeded, event, apply, delete,
}
use jefferies.PodWatcher.Watch.Once.{times, run-times-le}
use jefferies.PodWatcher.Watch.Deleted.{is_deletion_of, expected_deletion-silent}
use jefferies.PodWatcher.Watch.Presence.{some_pod_of, initial_list, initial_list-exact}

abbrev node_a : Str
node_a = bytes "build"

abbrev node_b : Str
node_b = bytes "deploy"

abbrev uid_a : Str
uid_a = bytes "uid-1"

abbrev started : ContainerState
started = record { waiting = none; terminated = none; running = true }

abbrev pod_a : Pod
pod_a = record {
  annotations = some ((bytes "the-conn.com/node-name", node_a) ∷ []);
  uid = some uid_a;
  status = some (record {
    init_container_statuses = none;
    container_statuses =
        some ((record { name = bytes "main"; image = bytes "alpine"; state = some started }) ∷ []);
  });
}

abbrev failed : WatcherState
failed = record (seeded []) { presence_diff_emitted = true }

exit_text :
    full_message (container_terminated (2 ^ 32 - 1) (bytes "Error") [])
    ≡ bytes "Container exited with code -1 (Error)"
unfolding full_message
exit_text = refl

run-times-le_example :
    times
      (pod_running node_a uid_a)
      (run (node_b ∷ []) (event (apply pod_a) ∷ event (apply pod_a) ∷ []))
    ≤ 1
run-times-le_example =
    run-times-le (node_b ∷ []) (event (apply pod_a) ∷ event (apply pod_a) ∷ [])
      (pod_running node_a uid_a)

expected_deletion-silent_example :
    any
      (is_deletion_of node_a)
      (watch (expect failed node_a) (event (apply pod_a) ∷ event (delete pod_a) ∷ []))
    ≡ false
unfolding expect deletion_was_expected seeded contains str_eq
expected_deletion-silent_example =
    expected_deletion-silent node_a (expect failed node_a)
      (event (apply pod_a) ∷ event (delete pod_a) ∷ []) refl refl

initial_list-exact_example :
    any (is_deletion_of node_b) (run (node_a ∷ node_b ∷ []) (initial_list (pod_a ∷ [])))
    ≡ (contains (node_a ∷ node_b ∷ []) node_b && not (some_pod_of node_b (pod_a ∷ [])))
initial_list-exact_example =
    initial_list-exact node_b (node_a ∷ node_b ∷ []) (pod_a ∷ []) ((λ eq. cc), tt)
