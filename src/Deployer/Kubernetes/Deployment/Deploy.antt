-- ===== src/Deployer/Kubernetes/Deployment/Deploy.antt =====
-- `DeploymentDeployer.deploy` of fiaas_deploy_daemon/deployer/kubernetes/deployment/deployer.py.
use fiaas_deploy_daemon.Base.{ℕ, String, Bool, ltb, if◌then◌else◌, not_found, Eff}
use fiaas_deploy_daemon.Base.Effect
use fiaas_deploy_daemon.Base.Effect.{◌>>=◌, ◌>>◌, try_catch}
use fiaas_deploy_daemon.Base.Dict.{Dict}
use fiaas_deploy_daemon.Deployer.Spec.{AppSpec}
use fiaas_deploy_daemon.Deployer.Kubernetes.Api.{ResourceApi, retry_on_upsert_conflict}
use fiaas_deploy_daemon.Deployer.Kubernetes.Autoscaler.{should_have_autoscaler}
use fiaas_deploy_daemon.Deployer.Kubernetes.Deployment.Types.{DeploymentSpec, Deployment, Settings}
use fiaas_deploy_daemon.Deployer.Kubernetes.Deployment.Assemble.{
  make_metadata, make_pod, make_deployment_spec, decorate,
}

-- The replicas that a Deployment runs are kept, unless it runs none.
abbrev pub keep_running : ℕ → ℕ → ℕ
keep_running configured running = if ltb 0 running then running else configured

module _ {S : Type 0} (api : ResourceApi S DeploymentSpec Deployment) (config : Settings) where
  unfoldable pub running_replicas : AppSpec → Eff S ℕ
  running_replicas app_spec = do
    deployed ← api.get_spec app_spec.name app_spec.namespace
    Effect.return (keep_running app_spec.autoscaler.min_replicas deployed.replicas)

  -- `replicas` of `deploy`
  unfoldable pub choose_replicas : AppSpec → Eff S ℕ
  unfolding should_have_autoscaler running_replicas
  choose_replicas app_spec =
      if should_have_autoscaler app_spec
      then try_catch (running_replicas app_spec) (λ e. elim e [
        | not_found ↦ Effect.return app_spec.autoscaler.min_replicas
        | e ↦ Effect.throw e
      ])
      else Effect.return app_spec.autoscaler.min_replicas

  -- `DeploymentDeployer.deploy` without its retry.
  unfoldable pub deploy_once : AppSpec → Dict String → Dict String → Bool → Eff S (Unit {0})
  unfolding make_metadata make_pod make_deployment_spec choose_replicas decorate
  deploy_once app_spec selector labels besteffort = do
    pod ← Effect.lift (make_pod config app_spec)
    replicas ← choose_replicas app_spec
    deployment ←
        api.get_or_create (make_metadata app_spec labels)
          (make_deployment_spec config app_spec selector labels pod replicas)
    decorated ← Effect.lift (decorate config app_spec besteffort deployment)
    owned ← api.apply_owner_references decorated app_spec
    extended ← api.apply_extension_hook owned app_spec
    api.save extended

  -- `DeploymentDeployer.deploy`
  unfoldable pub deploy_deployment :
      (Eff S (Unit {0}) → Eff S (Unit {0}))
      → AppSpec
      → Dict String
      → Dict String
      → Bool
      → Eff S (Unit {0})
  unfolding deploy_once retry_on_upsert_conflict
  deploy_deployment on_exception app_spec selector labels besteffort =
      retry_on_upsert_conflict on_exception (deploy_once app_spec selector labels besteffort)
