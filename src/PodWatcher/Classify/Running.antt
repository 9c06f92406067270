-- ===== src/PodWatcher/Classify/Running.antt =====
-- The signals of `classify_pod` (coordinator/src/pod_watcher.rs): which pod they name, and their kinds.
use jefferies.Prelude.{
  Str, ◌≡◌, refl, Bool, true, false, Option, none, some, List, [], ◌∷◌, nat_beq, unwrap_or, subst,
  if◌then◌else◌,
}
use mathlib.Core.Option
use jefferies.PodWatcher.{
  InfraFailureReason, pod_deleted_unexpectedly, oom_killed, init_container_failed, PodSignal,
  pod_running, infra_failure, signal_node_name, signal_pod_uid,
}
use jefferies.PodWatcher.Classify.{
  Waiting, Terminated, ContainerState, ContainerStatus, Pod, PodStatus, node_name_for,
  is_pull_error, is_create_error, or_later, init_waiting, init_terminated, init_state, init_failure,
  classify_init_container_statuses, main_waiting, is_oom, main_terminated, main_running, main_state,
  main_signal, classify_main_container_statuses, classified, classify_pod,
}

abbrev is_deletion : InfraFailureReason → Bool
is_deletion pod_deleted_unexpectedly = true
is_deletion _ = false

-- The signal that a pod was deleted.
abbrev pub reports_deletion : PodSignal → Bool
reports_deletion (infra_failure _ _ reason) = is_deletion reason
reports_deletion (pod_running _ _) = false

abbrev NoDeletion : Option InfraFailureReason → Type 0
NoDeletion none = Unit
NoDeletion (some reason) = is_deletion reason ≡ false

abbrev Names : Str → Str → Option PodSignal → Type 0
Names node uid none = Unit
Names node uid (some g) =
    (signal_node_name g ≡ node) × (signal_pod_uid g ≡ uid) × (reports_deletion g ≡ false)

init_choose :
    (b : Bool) (x y : Option InfraFailureReason)
    → NoDeletion x
    → NoDeletion y
    → NoDeletion (if b then x else y)
init_choose true x y p q = p
init_choose false x y p q = q

init_or_later :
    (x y : Option InfraFailureReason) → NoDeletion x → NoDeletion y → NoDeletion (or_later x y)
init_or_later none y p q = q
init_or_later (some r) y p q = p

init_waiting_lem : (name : Str) (w : Option Waiting) → NoDeletion (init_waiting name w)
init_waiting_lem name none = tt
init_waiting_lem name (some w) =
    init_choose (is_pull_error (unwrap_or w.reason [])) (some (init_container_failed name _)) none
      refl tt

init_terminated_lem : (name : Str) (t : Option Terminated) → NoDeletion (init_terminated name t)
init_terminated_lem name none = tt
init_terminated_lem name (some t) =
    init_choose (nat_beq t.exit_code 0) none (some (init_container_failed name _)) tt refl

init_state_lem :
    (name : Str) (st : Option ContainerState) (later : Option InfraFailureReason)
    → NoDeletion later
    → NoDeletion (init_state name st later)
init_state_lem name none later p = tt
init_state_lem name (some st) later p =
    init_or_later (init_waiting name st.waiting) _ (init_waiting_lem name st.waiting) (
      init_or_later (init_terminated name st.terminated) later
        (init_terminated_lem name st.terminated) p)

init_failure_lem : (css : List ContainerStatus) → NoDeletion (init_failure css)
unfolding init_failure
init_failure_lem [] = tt
init_failure_lem (cs ∷ rest) = init_state_lem cs.name cs.state _ (init_failure_lem rest)

init_statuses_lem :
    (css : Option (List ContainerStatus)) → NoDeletion (Option.bind css init_failure)
unfolding Option.bind
init_statuses_lem none = tt
init_statuses_lem (some css) = init_failure_lem css

module _ (node uid : Str) where
  choose :
      (b : Bool) (x y : Option PodSignal)
      → Names node uid x
      → Names node uid y
      → Names node uid (if b then x else y)
  choose true x y p q = p
  choose false x y p q = q

  or_later_lem :
      (x y : Option PodSignal) → Names node uid x → Names node uid y → Names node uid (or_later x y)
  or_later_lem none y p q = q
  or_later_lem (some r) y p q = p

  main_waiting_lem :
      (image : Str) (w : Option Waiting) → Names node uid (main_waiting node uid image w)
  main_waiting_lem image none = tt
  main_waiting_lem image (some w) =
      choose (is_pull_error (unwrap_or w.reason [])) (some (infra_failure node uid _)) _
        (refl, refl, refl)
        (choose (is_create_error (unwrap_or w.reason [])) (some (infra_failure node uid _)) none
          (refl, refl, refl) tt)

  main_terminated_lem : (t : Option Terminated) → Names node uid (main_terminated node uid t)
  main_terminated_lem none = tt
  main_terminated_lem (some t) =
      choose (is_oom node uid t.reason) (some (infra_failure node uid oom_killed)) _
        (refl, refl, refl)
        (choose (nat_beq t.exit_code 0) none (some (infra_failure node uid _)) tt
          (refl, refl, refl))

  main_running_lem : (b : Bool) → Names node uid (main_running node uid b)
  main_running_lem true = (refl, refl, refl)
  main_running_lem false = tt

  main_state_lem :
      (image : Str) (st : Option ContainerState) (later : Option PodSignal)
      → Names node uid later
      → Names node uid (main_state node uid image st later)
  main_state_lem image none later p = tt
  main_state_lem image (some st) later p =
      or_later_lem (main_waiting node uid image st.waiting) _ (main_waiting_lem image st.waiting) (
        or_later_lem (main_terminated node uid st.terminated) _ (main_terminated_lem st.terminated)
          (or_later_lem (main_running node uid st.running) later (main_running_lem st.running) p))

  main_signal_lem : (css : List ContainerStatus) → Names node uid (main_signal node uid css)
  unfolding main_signal
  main_signal_lem [] = tt
  main_signal_lem (cs ∷ rest) = main_state_lem cs.image cs.state _ (main_signal_lem rest)

  main_statuses_lem :
      (css : Option (List ContainerStatus))
      → Names node uid (Option.bind css (main_signal node uid))
  unfolding Option.bind
  main_statuses_lem none = tt
  main_statuses_lem (some css) = main_signal_lem css

  classified_lem :
      (status : PodStatus) (o : Option InfraFailureReason)
      → NoDeletion o
      → Names node uid (classified node uid status o)
  unfolding classify_main_container_statuses
  classified_lem status none p = main_statuses_lem status.container_statuses
  classified_lem status (some r) p = (refl, refl, p)

  status_lem :
      (o : Option PodStatus)
      → Names node uid (
          Option.bind o
            (λ status. classified node uid status (classify_init_container_statuses status)))
  unfolding classify_init_container_statuses Option.bind
  status_lem none = tt
  status_lem (some status) =
      classified_lem status _ (init_statuses_lem status.init_container_statuses)

pod_lem :
    (node_o uid_o : Option Str) (status_o : Option PodStatus) (g : PodSignal)
    → Option.bind node_o (λ node. Option.bind uid_o (λ uid.
      Option.bind status_o
        (λ status. classified node uid status (classify_init_container_statuses status))))
      ≡ some g
    → (node_o ≡ some (signal_node_name g))
      × (uid_o ≡ some (signal_pod_uid g))
      × (reports_deletion g ≡ false)
unfolding Option.bind
pod_lem none uid_o status_o g h = cc
pod_lem (some node) none status_o g h = cc
pod_lem (some node) (some uid) status_o g h =
    let named = subst (Names node uid) h (status_lem node uid status_o) in (cc, cc, cc)

-- A signal read from the status of a pod names the node of the pod's annotation and the pod's own
-- uid, and never says that the pod was deleted.
pub classify_pod_lem :
    (pod : Pod) (g : PodSignal)
    → classify_pod pod ≡ some g
    → (node_name_for pod ≡ some (signal_node_name g))
      × (pod.uid ≡ some (signal_pod_uid g))
      × (reports_deletion g ≡ false)
unfolding classify_pod
classify_pod_lem pod = pod_lem (node_name_for pod) pod.uid pod.status
