-- ===== src/KubeDispatcher/Rollback.antt =====
-- What a dispatch leaves in the cluster (coordinator/src/kube_dispatcher.rs).
use jefferies.Prelude.{
  Str, str_eq, arith, ◌≡◌, refl, Bool, true, false, ◌&&◌, ◌||◌, List, [], ◌∷◌, Result, ok, err,
  is_empty, if◌then◌else◌,
}
use jefferies.Pipelines.{NodeInfo}
use jefferies.Coordinator.State.{Config, RunMetadata}
use jefferies.KubeDispatcher.Settings.{build_script}
use jefferies.KubeDispatcher.Objects.{KubeDispatcher, Job}
use jefferies.KubeDispatcher.Dispatch.{
  Call, put_status_url, put_logs_url, get_source_url, create_configmap, create_job,
  delete_configmap, DispatchError, Env, Outcome, created_job, create_job_or_rollback_configmap,
  after_configmap, with_source, with_logs, with_status, has_secrets, cm_name, job_of, dispatch,
}

abbrev pub succeeded {ε α} : {E : Type ε} {A : Type α} → Result E A → Bool
succeeded (ok x) = true
succeeded (err e) = false

module _ (env : Env) where
  -- A config map of the name was created, and its deletion was not asked for since.
  abbrev pub keeps_configmap : Str → List Call → Bool
  keeps_configmap name [] = false
  keeps_configmap name (create_configmap m script ∷ t) =
      (str_eq m name && succeeded (env.created (create_configmap m script ∷ t)))
      || keeps_configmap name t
  keeps_configmap name (delete_configmap m ∷ t) =
      let kept = keeps_configmap name t in if str_eq m name then false else kept
  keeps_configmap name (_ ∷ t) = keeps_configmap name t

  abbrev pub created_a_job : List Call → Bool
  created_a_job [] = false
  created_a_job (create_job job ∷ t) =
      succeeded (env.created (create_job job ∷ t)) || created_a_job t
  created_a_job (_ ∷ t) = created_a_job t

  abbrev None : Str → List Call → Type 0
  None name t = (keeps_configmap name t ≡ false) × (created_a_job t ≡ false)

  -- With the name of the node's config map, and any name.
  abbrev pub AllOrNothing : Str → Str → Outcome → Type 0
  AllOrNothing made name (t, r) =
      (keeps_configmap name t ≡ (str_eq made name && succeeded r)) × (created_a_job t ≡ succeeded r)

  module _ (digest hex_encode : Str → Str) (self : KubeDispatcher) (run_id name : Str) where
    created-AllOrNothing :
        (made : Str) (job : Job) (r : Result Str (Unit {0})) (t : List Call)
        → env.created (create_job job ∷ t) ≡ r
        → keeps_configmap name t ≡ str_eq made name
        → created_a_job t ≡ false
        → AllOrNothing made name
            (created_job digest hex_encode env self run_id made r (create_job job ∷ t))
    created-AllOrNothing made job (ok done) t eq k j = ground arith
    created-AllOrNothing made job (err e) t eq k j = ground arith

    module _ (metadata : RunMetadata) (node : NodeInfo) (config : Config) where
      abbrev made : Str
      made = cm_name digest hex_encode env self run_id metadata node config

      abbrev map_call : Call
      map_call = create_configmap made (build_script node.steps)

      configmap-AllOrNothing :
          (job : Job) (r : Result Str (Unit {0})) (t : List Call)
          → env.created (map_call ∷ t) ≡ r
          → None name t
          → AllOrNothing made name (
              after_configmap digest hex_encode env self run_id metadata node config job r
                (map_call ∷ t))
      unfolding create_job_or_rollback_configmap
      configmap-AllOrNothing job (err e) t eq (k, j) = ground arith
      configmap-AllOrNothing job (ok done) t eq (k, j) =
          created-AllOrNothing made job (env.created (create_job job ∷ map_call ∷ t)) (map_call ∷ t)
            refl (ground arith) j

      source-AllOrNothing :
          (status logs : Str) (r : Result DispatchError Str) (t : List Call)
          → None name t
          → AllOrNothing made name
              (with_source digest hex_encode env self run_id metadata node config status logs r t)
      source-AllOrNothing status logs (err e) t clean = ground arith
      source-AllOrNothing status logs (ok url) t clean =
          configmap-AllOrNothing
            (job_of digest hex_encode env self run_id metadata node config status logs url)
            (env.created (map_call ∷ t)) t refl clean

      either :
          (b : Bool) (x y : Outcome)
          → AllOrNothing made name x
          → AllOrNothing made name y
          → AllOrNothing made name (if b then x else y)
      either true x y p q = p
      either false x y p q = q

      logs-AllOrNothing :
          (status : Str) (r : Result DispatchError Str) (t : List Call)
          → None name t
          → AllOrNothing made name
              (with_logs digest hex_encode env self run_id metadata node config status r t)
      logs-AllOrNothing status (err e) t clean = ground arith
      logs-AllOrNothing status (ok logs) t clean =
          either node.checkout _ _
            (source-AllOrNothing status logs (env.url (get_source_url ∷ t)) (get_source_url ∷ t)
              clean)
            (source-AllOrNothing status logs (ok []) t clean)

      status-AllOrNothing :
          (r : Result DispatchError Str) (t : List Call)
          → None name t
          → AllOrNothing made name
              (with_status digest hex_encode env self run_id metadata node config r t)
      status-AllOrNothing (err e) t clean = ground arith
      status-AllOrNothing (ok status) t clean =
          logs-AllOrNothing status (env.url (put_logs_url node.name ∷ t))
            (put_logs_url node.name ∷ t) clean

      -- A dispatch that returns `Ok` has created a job and the config map of the node, and keeps no
      -- config map of another name; one that returns an error has created no job, and has asked for the
      -- deletion, by its name, of every config map that it created.
      pub dispatch-AllOrNothing :
          AllOrNothing made name
            (dispatch digest hex_encode env self run_id metadata node config [])
      unfolding dispatch
      dispatch-AllOrNothing =
          either
            (has_secrets digest hex_encode env self run_id metadata node config
              && (is_empty metadata.owner || is_empty metadata.repo))
            _ _ (ground arith, refl)
            (status-AllOrNothing (env.url (put_status_url node.name ∷ []))
              (put_status_url node.name ∷ []) (refl, refl))
