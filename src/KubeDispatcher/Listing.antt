-- ===== src/KubeDispatcher/Listing.antt =====
-- The operations of the dispatcher on the objects of a run, over the answers of the API server
-- (coordinator/src/kube_dispatcher.rs).
use mathlib.Core.Option
use jefferies.Prelude.{
  Str, str_inst, str_eq, bytes, Bool, false, Option, none, some, List, [], ◌∷◌, any, get, contains,
  if◌then◌else◌, Result, ok, err, ◌>>=◌,
}
use jefferies.KubeDispatcher.Vault.{Annotations}
use jefferies.KubeDispatcher.Dispatch.{
  Call, delete_jobs_of, delete_configmaps_of, cleanup_source, Env, DispatchError, kube, Outcome,
}

-- `map_err(|e| DispatchError::Kube(e.to_string()))`
abbrev kube_err {ℓ} : {A : Type ℓ} → Result Str A → Result DispatchError A
kube_err (ok x) = ok x
kube_err (err e) = err (kube e)

abbrev is_text : Str → Option Str → Bool
is_text text none = false
is_text text (some s) = str_eq s text

-- A pod by its annotations.
unfoldable pub node_pod_exists :
    Result Str (List (Option Annotations)) → Str → Result DispatchError Bool
unfolding get str_eq
node_pod_exists pods node_name = do
  items ← kube_err pods
  ok (
      any
        (λ annotations.
          is_text node_name (Option.bind annotations (get (bytes "the-conn.com/node-name"))))
        items)

abbrev add_id : Option Str → List Str → List Str
add_id none ids = ids
add_id (some id) ids = if contains ids id then ids else id ∷ ids

-- The loop over jobs or config maps, each by its labels.
unfoldable pub add_run_ids : List (Option Annotations) → List Str → List Str
unfolding get contains
add_run_ids [] ids = ids
add_run_ids (labels ∷ items) ids =
    add_run_ids items (add_id (Option.bind labels (get (bytes "the-conn.com/run-id"))) ids)

unfoldable pub list_managed_run_ids :
    Result Str (List (Option Annotations))
    → Result Str (List (Option Annotations))
    → Result DispatchError (List Str)
unfolding add_run_ids
list_managed_run_ids jobs config_maps = do
  job_items ← kube_err jobs
  cm_items ← kube_err config_maps
  ok (add_run_ids cm_items (add_run_ids job_items []))

-- Errors of the two deletions are only logged.
unfoldable pub cleanup_run : Env → Str → List Call → Outcome
cleanup_run env run_id t =
    let t' = cleanup_source run_id ∷ delete_configmaps_of run_id ∷ delete_jobs_of run_id ∷ t in
    (t', env.cleaned t')
