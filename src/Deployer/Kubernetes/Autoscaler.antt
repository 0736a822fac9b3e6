-- ===== src/Deployer/Kubernetes/Autoscaler.antt =====
-- fiaas_deploy_daemon/deployer/kubernetes/autoscaler.py
use fiaas_deploy_daemon.Base.{
  ℕ, String, Bool, true, false, ◌&&◌, Option, none, some, [], ◌∷◌, ltb, if◌then◌else◌, Eff,
}
use fiaas_deploy_daemon.Base.Dict.{Dict, merge_dicts}
use fiaas_deploy_daemon.Deployer.Spec.{AppSpec}
use fiaas_deploy_daemon.Deployer.Kubernetes.Api.{
  Metadata, ResourceApi, retry_on_upsert_conflict, pass_not_found, create_and_save,
}

-- `HorizontalPodAutoscalerSpec`, with the name of the Deployment that it refers to.
pub record AutoscalerFields : Type 0 where
  pub scale_target : String
  pub min_replicas : ℕ
  pub max_replicas : ℕ
  pub target_cpu_utilization_percentage : ℕ

abbrev is_requested : Option String → Bool
is_requested none = false
is_requested (some _) = true

-- `should_have_autoscaler`
unfoldable pub should_have_autoscaler : AppSpec → Bool
should_have_autoscaler app_spec =
    app_spec.autoscaler.enabled
    && ltb 1 app_spec.autoscaler.max_replicas
    && is_requested app_spec.resources.requests.cpu

abbrev pub autoscaler_metadata : AppSpec → Dict String → Metadata
autoscaler_metadata app_spec labels = record {
  name = app_spec.name;
  namespace = app_spec.namespace;
  labels = merge_dicts (app_spec.labels.horizontal_pod_autoscaler ∷ labels ∷ []);
  annotations = app_spec.annotations.horizontal_pod_autoscaler;
}

abbrev pub autoscaler_fields : AppSpec → AutoscalerFields
autoscaler_fields app_spec = record {
  scale_target = app_spec.name;
  min_replicas = app_spec.autoscaler.min_replicas;
  max_replicas = app_spec.autoscaler.max_replicas;
  target_cpu_utilization_percentage = app_spec.autoscaler.cpu_threshold_percentage;
}

module _ {S Object : Type 0} (on_exception : Eff S (Unit {0}) → Eff S (Unit {0}))
    (api : ResourceApi S AutoscalerFields Object) where
  -- `AutoscalerDeployer.deploy`
  unfoldable pub deploy_autoscaler : AppSpec → Dict String → Eff S (Unit {0})
  unfolding should_have_autoscaler retry_on_upsert_conflict pass_not_found create_and_save
  deploy_autoscaler app_spec labels = retry_on_upsert_conflict on_exception (
      if should_have_autoscaler app_spec
      then create_and_save api (autoscaler_metadata app_spec labels) (autoscaler_fields app_spec)
          app_spec
      else pass_not_found (api.delete app_spec.name app_spec.namespace))
