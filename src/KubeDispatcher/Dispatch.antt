-- ===== src/KubeDispatcher/Dispatch.antt =====
-- The operations of the dispatcher on one node (`dispatch`, `cancel_node` and what they call in
-- coordinator/src/kube_dispatcher.rs), over the trace of their calls, newest first.
use jefferies.Prelude.{
  Str, str_inst, bytes, Bool, not, ◌&&◌, ◌||◌, List, [], ◌∷◌, ◌++◌, is_empty, if◌then◌else◌, Result,
  ok, err,
}
use jefferies.Pipelines.{NodeInfo}
use jefferies.Coordinator.State.{Config, RunMetadata}
use jefferies.KubeDispatcher.{job_name, configmap_name}
use jefferies.KubeDispatcher.Vault.{vault_annotations, extend}
use jefferies.KubeDispatcher.Objects.{KubeDispatcher, Job}
use jefferies.KubeDispatcher.Settings.{
  run_labels, node_annotations, build_script, poke_url_for, build_env_vars, jefferies_env_vars,
  compute_safety_deadline_secs,
}
use jefferies.KubeDispatcher.Job.{build_job}

-- The calls of the object store's presigner and of the API server.
pub data Call : Type 0 where
  put_status_url put_logs_url : Str → Call
  get_source_url : Call
  create_configmap : Str → Str → Call
  create_job : Job → Call
  delete_job delete_configmap : Str → Call
  delete_jobs_of delete_configmaps_of cleanup_source : Str → Call

pub data DispatchError : Type 0 where
  failed kube : Str → DispatchError
  source : Str → DispatchError

-- The answers; an error of a deletion is only logged.
pub record Env : Type 0 where
  pub url : List Call → Result DispatchError Str
  pub created : List Call → Result Str (Unit {0})
  pub cleaned : List Call → Result DispatchError (Unit {0})

abbrev pub Outcome : Type 0
Outcome = List Call × Result DispatchError (Unit {0})

abbrev missing_owner : Str
missing_owner = bytes "Vault injection requested but owner/repo missing on RunContext"

module _ (digest hex_encode : Str → Str) (env : Env) (self : KubeDispatcher) (run_id : Str) where
  abbrev pub created_job : Str → Result Str (Unit {0}) → List Call → Outcome
  created_job cm_name (ok done) t = (t, ok tt)
  created_job cm_name (err e) t = (delete_configmap cm_name ∷ t, err (kube e))

  unfoldable pub create_job_or_rollback_configmap : Job → Str → List Call → Outcome
  create_job_or_rollback_configmap job cm_name t =
      let t' = create_job job ∷ t in created_job cm_name (env.created t') t'

  module _ (metadata : RunMetadata) (node : NodeInfo) (config : Config) where
    abbrev pub cm_name : Str
    cm_name = configmap_name digest hex_encode run_id node.name

    unfoldable pub job_of : Str → Str → Str → Job
    unfolding configmap_name vault_annotations extend run_labels node_annotations poke_url_for
        build_env_vars jefferies_env_vars compute_safety_deadline_secs build_job
    job_of status_put_url logs_put_url get_url =
        build_job digest hex_encode self
          (record {
            run_id = run_id;
            node_name = node.name;
            cm_name = cm_name;
            labels = run_labels run_id;
            annotations =
                extend (node_annotations node.name) (
                  vault_annotations metadata.owner metadata.repo node.env_secrets
                    node.file_secrets);
            env_vars =
                build_env_vars run_id node.name status_put_url logs_put_url get_url
                  (poke_url_for self.backend_namespace run_id node.name)
                ++ jefferies_env_vars run_id metadata
                ++ node.env;
            safety_deadline_secs = compute_safety_deadline_secs node config;
          })
          node

    abbrev pub after_configmap : Job → Result Str (Unit {0}) → List Call → Outcome
    after_configmap job (err e) t = (t, err (kube e))
    after_configmap job (ok done) t = create_job_or_rollback_configmap job cm_name t

    abbrev pub with_source : Str → Str → Result DispatchError Str → List Call → Outcome
    with_source status_put_url logs_put_url (err e) t = (t, err e)
    with_source status_put_url logs_put_url (ok get_url) t =
        let t' = create_configmap cm_name (build_script node.steps) ∷ t in
        after_configmap (job_of status_put_url logs_put_url get_url) (env.created t') t'

    abbrev pub with_logs : Str → Result DispatchError Str → List Call → Outcome
    with_logs status_put_url (err e) t = (t, err e)
    with_logs status_put_url (ok logs_put_url) t =
        let t' = get_source_url ∷ t in
        if node.checkout
        then with_source status_put_url logs_put_url (env.url t') t'
        else with_source status_put_url logs_put_url (ok []) t

    abbrev pub with_status : Result DispatchError Str → List Call → Outcome
    with_status (err e) t = (t, err e)
    with_status (ok status_put_url) t =
        let t' = put_logs_url node.name ∷ t in with_logs status_put_url (env.url t') t'

    abbrev pub has_secrets : Bool
    has_secrets = not (is_empty node.env_secrets) || not (is_empty node.file_secrets)

    unfoldable pub dispatch : List Call → Outcome
    unfolding create_job_or_rollback_configmap job_of build_script configmap_name
    dispatch t =
        let t' = put_status_url node.name ∷ t in
        if has_secrets && (is_empty metadata.owner || is_empty metadata.repo)
        then (t, err (failed missing_owner))
        else with_status (env.url t') t'

  -- A deletion that fails is only logged.
  unfoldable pub cancel_node : Str → List Call → List Call
  unfolding configmap_name job_name
  cancel_node node_name t =
      delete_configmap (configmap_name digest hex_encode run_id node_name)
      ∷ delete_job (job_name digest hex_encode run_id node_name)
      ∷ t
