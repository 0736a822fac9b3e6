-- ===== src/Deployer/Kubernetes/Deployment/Assemble.antt =====
-- What `DeploymentDeployer.deploy` of
-- fiaas_deploy_daemon/deployer/kubernetes/deployment/deployer.py puts together.
use fiaas_deploy_daemon.Base.{
  ℕ, ◌+◌, String, Bool, ◌&&◌, [], ◌∷◌, eqb, if◌then◌else◌, Result, ok, ◌>>=◌,
}
use fiaas_deploy_daemon.Base.Dict.{Dict, merge_dicts}
use fiaas_deploy_daemon.Deployer.Spec.{AppSpec}
use fiaas_deploy_daemon.Deployer.Integer.{pos}
use fiaas_deploy_daemon.Deployer.Kubernetes.Api.{Metadata}
use fiaas_deploy_daemon.Deployer.Kubernetes.Deployment.Types.{
  number, PodSpec, RollingUpdate, DeploymentSpec, Deployment, Settings,
}
use fiaas_deploy_daemon.Deployer.Kubernetes.Deployment.Env.{make_env}
use fiaas_deploy_daemon.Deployer.Kubernetes.Deployment.Pod.{
  main_container, make_pod_spec, make_pod_metadata,
}
use fiaas_deploy_daemon.Deployer.Kubernetes.Deployment.Datadog.{apply_datadog}
use fiaas_deploy_daemon.Deployer.Kubernetes.Deployment.Prometheus.{apply_prometheus}
use fiaas_deploy_daemon.Deployer.Kubernetes.Deployment.Secrets.{apply_secrets}

-- `metadata` of `deploy`
unfoldable pub make_metadata : AppSpec → Dict String → Metadata
unfolding merge_dicts
make_metadata app_spec labels = record {
  name = app_spec.name;
  namespace = app_spec.namespace;
  labels = merge_dicts (app_spec.labels.deployment ∷ labels ∷ []);
  annotations = app_spec.annotations.deployment;
}

-- `deployment_strategy` of `deploy`
unfoldable pub make_strategy : Settings → AppSpec → RollingUpdate
make_strategy config app_spec =
    if eqb app_spec.autoscaler.max_replicas 1 && app_spec.singleton
    then (record { max_unavailable = number (pos 1); max_surge = number (pos 0) })
    else (record {
      max_unavailable = config.deployment_max_unavailable;
      max_surge = config.deployment_max_surge;
    })

-- `pod_spec` of `deploy`, with the environment and the container that it is made of.
unfoldable pub make_pod : Settings → AppSpec → Result PodSpec
unfolding make_env main_container make_pod_spec
make_pod config app_spec = make_env config app_spec >>= (λ env.
    main_container config app_spec env
    >>= (λ container. ok (make_pod_spec config app_spec container)))

-- `spec` of `deploy`
unfoldable pub make_deployment_spec :
    Settings → AppSpec → Dict String → Dict String → PodSpec → ℕ → DeploymentSpec
unfolding make_pod_metadata make_strategy
make_deployment_spec config app_spec selector labels pod replicas = record {
  replicas = replicas;
  selector = selector;
  template_metadata = make_pod_metadata app_spec labels;
  template_spec = pod;
  revision_history_limit = 5;
  strategy = make_strategy config app_spec;
}

-- What DataDog, Prometheus and Secrets make of a Deployment.
unfoldable pub decorate : Settings → AppSpec → Bool → Deployment → Result Deployment
unfolding apply_datadog apply_prometheus apply_secrets
decorate config app_spec besteffort deployment =
    apply_datadog config app_spec besteffort (config.pre_stop_delay + 5) deployment
    >>= (λ with_datadog. apply_secrets config app_spec (apply_prometheus app_spec with_datadog))
