-- ===== src/PodWatcher/Watch/Presence.antt =====
-- The nodes that a rehydrated run believed to be running and that the cluster no longer has
-- (`seeded`, `record_init_observation` and `emit_presence_diff` of coordinator/src/pod_watcher.rs).
use jefferies.Prelude.{
  Str, str_inst, str_eq, str_eq_iff, str_eq_refl, ◌≡◌, ◌≢◌, refl, ap, subst, Bool, true, false, not,
  ◌&&◌, ◌||◌, Option, none, some, Option-cases, List, [], ◌∷◌, map, any, any-append, filter, All,
  contains, get, arith, Bool-cases, inl, inr,
}
use jefferies.PodWatcher.{PodSignal, pod_running, infra_failure, signal_pod_uid}
use jefferies.PodWatcher.Classify.{Pod, node_name_for, classify_pod}
use jefferies.PodWatcher.Classify.Running.{reports_deletion, classify_pod_lem}
use jefferies.PodWatcher.Watch.{
  WatcherState, set_insert, reported, rehydration_sentinel_uid, should_emit,
  record_init_observation, seeded, take_missing_after_init, emit, emit_all, emit_some, observed,
  missing_signal, emit_presence_diff, init_done, init_apply, handle_event, Input, event, on_input,
  watch, run,
}
use jefferies.PodWatcher.Watch.Once.{reported-add_uid}
use jefferies.PodWatcher.Watch.Deleted.{is_deletion_of}

abbrev names_node : Str → Option Str → Bool
names_node node none = false
names_node node (some m) = str_eq m node

-- Some pod of the list carries the node's name as its annotation.
abbrev pub some_pod_of : Str → List Pod → Bool
some_pod_of node pods = any (λ pod. names_node node (node_name_for pod)) pods

-- No pod has the uid that stands for a pod of before the restart.
abbrev pub Real : Pod → Type 0
Real pod = pod.uid ≢ some rehydration_sentinel_uid

abbrev pub initial_list : List Pod → List Input
initial_list [] = event init_done ∷ []
initial_list (pod ∷ pods) = event (init_apply pod) ∷ initial_list pods

-- The state during the initial list, for one node.
record Listing (node : Str) (s : WatcherState) : Type 0 where
  open_diff : s.presence_diff_emitted ≡ false
  unreported : reported s.reported_failure_uids node rehydration_sentinel_uid ≡ false

-- The node is missed if the list ends here.
abbrev missed : Str → WatcherState → Bool
missed node s = contains s.seed_running node && not (contains s.observed_during_init node)

contains-filter :
    (node : Str) (p : Str → Bool) (xs : List Str)
    → contains (filter p xs) node ≡ (contains xs node && p node)
unfolding contains
contains-filter node p [] = refl
contains-filter node p (x ∷ xs) = elim (Bool-cases (str_eq x node)) [
  | inl h ↦
      let same : p x ≡ p node = ap p ((str_eq_iff x node).0 h) in
      ground (arith, contains-filter node p xs)
  | inr h ↦ ground (arith, contains-filter node p xs)
]

emit_all-missing :
    (node : Str) (s : WatcherState) (missing : List Str)
    → any (is_deletion_of node) (emit_all s (map missing_signal missing)).1 ≡ (
        contains missing node
        && not (reported s.reported_failure_uids node rehydration_sentinel_uid))
unfolding emit_all emit should_emit contains
emit_all-missing node s [] = refl
emit_all-missing node s (m ∷ missing) =
    let s1 = (should_emit s (missing_signal m)).0 in
    let sent = (emit s (missing_signal m)).1 in
    rw
      (
        any-append (is_deletion_of node) sent (emit_all s1 (map missing_signal missing)).1,
        emit_all-missing node s1 missing,
        reported-add_uid m rehydration_sentinel_uid node rehydration_sentinel_uid
            s.reported_failure_uids,
        str_eq_refl rehydration_sentinel_uid,
      )
      (elim (Bool-cases (str_eq m node)) [
        | inl h ↦
            let same : reported s.reported_failure_uids m rehydration_sentinel_uid
                ≡ reported s.reported_failure_uids node rehydration_sentinel_uid =
              ap (λ x. reported s.reported_failure_uids x rehydration_sentinel_uid)
                ((str_eq_iff m node).0 h) in
            ground arith
        | inr h ↦ ground arith
      ])

-- What a pod of the initial list does to the state.
record Seen (node : Str) (seen : Bool) (s : WatcherState) (r : WatcherState × List PodSignal)
    : Type 0 where
  listing : Listing node r.0
  misses : missed node r.0 ≡ (missed node s && not seen)
  quiet : any (is_deletion_of node) r.1 ≡ false

emit-Seen :
    (node : Str) (s : WatcherState) (g : PodSignal)
    → Listing node s
    → reports_deletion g ≡ false
    → signal_pod_uid g ≢ rehydration_sentinel_uid
    → Seen node false s (emit s g)
unfolding emit should_emit
emit-Seen node s (pod_running m u) l d real = record {
  listing = record { open_diff = l.open_diff; unreported = l.unreported };
  misses = ground arith;
  quiet = ground arith;
}
emit-Seen node s (infra_failure m u r) l d real = record {
  listing = record {
    open_diff = l.open_diff;
    unreported = ground (
      arith,
      l.unreported,
      reported-add_uid m u node rehydration_sentinel_uid s.reported_failure_uids,
      str_eq_iff u rehydration_sentinel_uid,
      real,
    );
  };
  misses = ground arith;
  quiet = ground arith;
}

classified-Seen :
    (node : Str) (s : WatcherState) (pod : Pod)
    → Listing node s
    → Real pod
    → Seen node false s (emit_some s (classify_pod pod))
classified-Seen node s pod l real = elim (Option-cases (classify_pod pod)) [
  | inl h ↦ rw h (record { listing = l; misses = ground arith; quiet = refl })
  | inr (g, h) ↦ rw h (
      let (named, uid, kind) = classify_pod_lem pod g h in
      emit-Seen node s g l kind (λ eq. real (rw (uid, eq) refl)))
]

contains-set_insert :
    (m node : Str) (xs : List Str)
    → contains (set_insert m xs) node ≡ (str_eq m node || contains xs node)
unfolding contains
contains-set_insert m node xs = elim (Bool-cases (contains xs m)) [
  | inl h ↦ elim (Bool-cases (str_eq m node)) [
    | inl same ↦
        let there : contains xs node ≡ true =
          subst (λ x. contains xs x ≡ true) ((str_eq_iff m node).0 same) h in
        ground arith
    | inr differ ↦ ground arith
  ]
  | inr h ↦ ground arith
]

not-seeded :
    (m node : Str) (s : WatcherState)
    → contains s.seed_running m ≡ false
    → missed node s ≡ (missed node s && not (str_eq m node))
not-seeded m node s h = elim (Bool-cases (str_eq m node)) [
  | inl same ↦
      let absent : contains s.seed_running node ≡ false =
        subst (λ x. contains s.seed_running x ≡ false) ((str_eq_iff m node).0 same) h in
      ground arith
  | inr differ ↦ ground arith
]

observed-Seen :
    (node : Str) (s : WatcherState) (o : Option Str)
    → Listing node s
    → Seen node (names_node node o) s (observed s o, [])
unfolding record_init_observation
observed-Seen node s none l = record { listing = l; misses = ground arith; quiet = refl }
observed-Seen node s (some m) l = elim (Bool-cases (contains s.seed_running m)) [
  | inl h ↦ rw h (record {
    listing = record { open_diff = l.open_diff; unreported = l.unreported };
    misses = ground (arith, contains-set_insert m node s.observed_during_init);
    quiet = refl;
  })
  | inr h ↦ rw h (record { listing = l; misses = not-seeded m node s h; quiet = refl })
]

init_apply-Seen :
    (node : Str) (s : WatcherState) (pod : Pod)
    → Listing node s
    → Real pod
    → Seen node (names_node node (node_name_for pod)) s (handle_event s (init_apply pod))
unfolding handle_event
init_apply-Seen node s pod l real =
    let first = observed-Seen node s (node_name_for pod) l in
    let then_ = classified-Seen node (observed s (node_name_for pod)) pod first.listing real in
    record {
      listing = then_.listing;
      misses = ground (arith, first.misses, then_.misses);
      quiet = then_.quiet;
    }

init_done-missed :
    (node : Str) (s : WatcherState)
    → Listing node s
    → any (is_deletion_of node) (emit_presence_diff s).1 ≡ missed node s
unfolding emit_presence_diff take_missing_after_init
init_done-missed node s l =
    rw
      (
        l.open_diff,
        emit_all-missing node (record s { presence_diff_emitted = true })
            (filter (λ n. not (contains s.observed_during_init n)) s.seed_running),
        contains-filter node (λ n. not (contains s.observed_during_init n)) s.seed_running,
      )
      (ground (arith, l.unreported))

watch-missed :
    (node : Str) (s : WatcherState) (pods : List Pod)
    → Listing node s
    → All Real pods
    → any (is_deletion_of node) (watch s (initial_list pods))
      ≡ (missed node s && not (some_pod_of node pods))
unfolding watch on_input handle_event
watch-missed node s [] l real =
    rw (any-append (is_deletion_of node) (emit_presence_diff s).1 [])
      (ground (arith, init_done-missed node s l))
watch-missed node s (pod ∷ pods) l (here, real) =
    let r = handle_event s (init_apply pod) in
    let seen = init_apply-Seen node s pod l here in
    rw (any-append (is_deletion_of node) r.1 (watch r.0 (initial_list pods)), seen.quiet)
      (ground (arith, watch-missed node r.0 pods seen.listing real, seen.misses))

-- After a restart the watcher reports that the pod of a node was deleted exactly when the node was
-- believed to be running and no pod of the initial list is annotated with it, provided that no pod
-- has the sentinel as its uid.
pub initial_list-exact :
    (node : Str) (seed_running : List Str) (pods : List Pod)
    → All Real pods
    → any (is_deletion_of node) (run seed_running (initial_list pods))
      ≡ (contains seed_running node && not (some_pod_of node pods))
unfolding run seeded contains get
initial_list-exact node seed_running pods real =
    rw
      (watch-missed node (seeded seed_running) pods (record { open_diff = refl; unreported = refl })
        real)
      (ground arith)
