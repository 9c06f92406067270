-- ===== src/PodWatcher/Watch/Deleted.antt =====
-- Deletions that the watcher was told of (`expect_deletion` and `handle_delete` of
-- coordinator/src/pod_watcher.rs).
use jefferies.Prelude.{
  Str, str_inst, str_eq, str_eq_iff, ◌≡◌, refl, Bool, true, false, not, ◌&&◌, Option, none, some,
  Option-cases, List, [], ◌∷◌, any, any-append, contains, arith, if◌then◌else◌, Bool-cases, subst,
  inl, inr,
}
use jefferies.PodWatcher.{
  PodSignal, pod_running, infra_failure, signal_node_name, expect_deletion, shutdown,
  pod_deleted_unexpectedly,
}
use jefferies.PodWatcher.Classify.{Pod, node_name_for, classify_pod}
use jefferies.PodWatcher.Classify.Running.{reports_deletion, classify_pod_lem}
use jefferies.PodWatcher.Watch.{
  WatcherState, should_emit, was_running, deletion_was_expected, expect, record_init_observation,
  take_missing_after_init, emit, emit_all, emit_some, deleted, observed, emit_presence_diff,
  handle_delete, Event, init, init_done, init_apply, apply, delete, handle_event, Input, command,
  event, commands_closed, stream_error, stream_ended, on_input, watch,
}

-- The signal says that the pod of a node was deleted.
abbrev pub is_deletion_of : Str → PodSignal → Bool
is_deletion_of node g = reports_deletion g && str_eq (signal_node_name g) node

-- The initial list is done with, and the deletion of the node's pod is expected.
abbrev Expects : Str → WatcherState → Type 0
Expects node s = (s.presence_diff_emitted ≡ true) × (deletion_was_expected s node ≡ true)

abbrev Quiet : Str → WatcherState × List PodSignal → Type 0
Quiet node r = Expects node r.0 × (any (is_deletion_of node) r.1 ≡ false)

emit-Quiet :
    (node : Str) (s : WatcherState) (g : PodSignal)
    → Expects node s
    → is_deletion_of node g ≡ false
    → Quiet node (emit s g)
unfolding emit should_emit deletion_was_expected
emit-Quiet node s (pod_running m u) e p = (e, ground arith)
emit-Quiet node s (infra_failure m u r) e p = (e, ground arith)

classified-Quiet :
    (node : Str) (s : WatcherState) (pod : Pod)
    → Expects node s
    → Quiet node (emit_some s (classify_pod pod))
classified-Quiet node s pod e = elim (Option-cases (classify_pod pod)) [
  | inl h ↦ rw h (e, refl)
  | inr (g, h) ↦ rw h (emit-Quiet node s g e (ground (arith, classify_pod_lem pod g h)))
]

observed-Expects :
    (node : Str) (s : WatcherState) (o : Option Str) → Expects node s → Expects node (observed s o)
unfolding record_init_observation deletion_was_expected
observed-Expects node s none e = e
observed-Expects node s (some m) e = (ground arith, ground arith)

either :
    (node : Str) (b : Bool) (x y : WatcherState × List PodSignal)
    → Quiet node x
    → Quiet node y
    → Quiet node (if b then x else y)
either node true x y p q = p
either node false x y p q = q

other :
    (node m : Str) (s : WatcherState)
    → Expects node s
    → deletion_was_expected s m ≡ false
    → str_eq m node ≡ false
other node m s e h = elim (Bool-cases (str_eq m node)) [
  | inl same ↦
      let eq = (str_eq_iff m node).0 same in
      let clash : deletion_was_expected s node ≡ false =
        subst (λ x. deletion_was_expected s x ≡ false) eq h in
      cc
  | inr differ ↦ differ
]

deleted-Quiet :
    (node : Str) (s : WatcherState) (o : Option Str) (uid : Str)
    → Expects node s
    → Quiet node (deleted s o uid)
deleted-Quiet node s none uid e = (e, refl)
deleted-Quiet node s (some m) uid e = elim (Bool-cases (deletion_was_expected s m)) [
  | inl h ↦ rw h (e, refl)
  | inr h ↦ rw h (
      either node (not (was_running s m)) (s, []) _ (e, refl)
        (emit-Quiet node s (infra_failure m uid pod_deleted_unexpectedly) e (other node m s e h)))
]

handle_event-Quiet :
    (node : Str) (s : WatcherState) (ev : Event) → Expects node s → Quiet node (handle_event s ev)
unfolding handle_event handle_delete emit_presence_diff take_missing_after_init emit_all
handle_event-Quiet node s init e = (e, refl)
handle_event-Quiet node s init_done e = (ground arith, ground arith)
handle_event-Quiet node s (init_apply pod) e =
    classified-Quiet node _ pod (observed-Expects node s (node_name_for pod) e)
handle_event-Quiet node s (apply pod) e = classified-Quiet node s pod e
handle_event-Quiet node s (delete pod) e = deleted-Quiet node s (node_name_for pod) _ e

expect-Expects : (node m : Str) (s : WatcherState) → Expects node s → Expects node (expect s m)
unfolding expect deletion_was_expected contains
expect-Expects node m s e = (e.0, ground arith)

-- Once the initial list is done with and the coordinator has announced that it deletes the pod of a
-- node, the watcher never reports that a pod of this node was deleted, whatever it receives then.
pub expected_deletion-silent :
    (node : Str) (s : WatcherState) (inputs : List Input)
    → s.presence_diff_emitted ≡ true
    → deletion_was_expected s node ≡ true
    → any (is_deletion_of node) (watch s inputs) ≡ false
unfolding watch on_input
expected_deletion-silent node s [] d e = refl
expected_deletion-silent node s (command (expect_deletion m) ∷ is) d e =
    let kept = expect-Expects node m s (d, e) in
    expected_deletion-silent node (expect s m) is kept.0 kept.1
expected_deletion-silent node s (command shutdown ∷ is) d e = refl
expected_deletion-silent node s (commands_closed ∷ is) d e = refl
expected_deletion-silent node s (event ev ∷ is) d e =
    let ((d', e'), quiet) = handle_event-Quiet node s ev (d, e) in
    rw
      (
        any-append (is_deletion_of node) (handle_event s ev).1 (watch (handle_event s ev).0 is),
        quiet,
      )
      (expected_deletion-silent node (handle_event s ev).0 is d' e')
expected_deletion-silent node s (stream_error ∷ is) d e = expected_deletion-silent node s is d e
expected_deletion-silent node s (stream_ended ∷ is) d e = refl
