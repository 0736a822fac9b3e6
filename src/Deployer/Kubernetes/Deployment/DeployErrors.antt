-- ===== src/Deployer/Kubernetes/Deployment/DeployErrors.antt =====
-- What `DeploymentDeployer.deploy` of
-- fiaas_deploy_daemon/deployer/kubernetes/deployment/deployer.py does to the cluster when it fails,
-- and how many replicas it asks for.
use mathlib.Core.Path.{subst}
use fiaas_deploy_daemon.Base.{
  ◌<◌, false, ℕ, ◌≤◌, String, ◌≡◌, refl, sym, ◌≢◌, ◌⊎◌, inl, inr, Bool, true, Error,
  invalid_configuration, value_error, key_error, index_error, type_error, attribute_error,
  runtime_error, yaml_error, retry_error, not_found, client_error, upsert_conflict, Result, ok,
  raise, Eff,
}
use fiaas_deploy_daemon.Base.Dict.{Dict}
use fiaas_deploy_daemon.Deployer.Spec.{AppSpec}
use fiaas_deploy_daemon.Deployer.Kubernetes.Api.{
  ResourceApi, retry_on_upsert_conflict, conflict_as_error,
}
use fiaas_deploy_daemon.Deployer.Kubernetes.Autoscaler.{should_have_autoscaler}
use fiaas_deploy_daemon.Deployer.Kubernetes.Deployment.Types.{DeploymentSpec, Deployment, Settings}
use fiaas_deploy_daemon.Deployer.Kubernetes.Deployment.ProbeErrors.{make_pod-errors}
use fiaas_deploy_daemon.Deployer.Kubernetes.Deployment.Assemble.{make_pod}
use fiaas_deploy_daemon.Deployer.Kubernetes.Deployment.Deploy.{
  deploy_once, choose_replicas, deploy_deployment,
}

-- What `backoff.on_exception` promises of other exceptions than UpsertConflict: they pass.
abbrev pub PassesOthers : {S : Type 0} → (Eff S (Unit {0}) → Eff S (Unit {0})) → Type 0
PassesOthers {S = S} on_exception =
    (func : Eff S (Unit {0})) (s t : S) (e : Error)
    → func s ≡ (raise e, t)
    → e ≢ upsert_conflict
    → on_exception func s ≡ (raise e, t)

-- An exception that the retry neither retries nor changes.
abbrev IsFinal : Error → Type 0
IsFinal (client_error _) = ⊥
IsFinal upsert_conflict = ⊥
IsFinal _ = Unit

conflict_as_error-passes :
    {S : Type 0} (e : Error) (func : Eff S (Unit {0})) (s t : S)
    → IsFinal e
    → func s ≡ (raise e, t)
    → conflict_as_error func s ≡ (raise e, t)
unfolding conflict_as_error
conflict_as_error-passes (client_error n) func s t final h = absurd final
conflict_as_error-passes upsert_conflict func s t final h = absurd final
conflict_as_error-passes invalid_configuration func s t final h = rw h refl
conflict_as_error-passes value_error func s t final h = rw h refl
conflict_as_error-passes key_error func s t final h = rw h refl
conflict_as_error-passes index_error func s t final h = rw h refl
conflict_as_error-passes type_error func s t final h = rw h refl
conflict_as_error-passes attribute_error func s t final h = rw h refl
conflict_as_error-passes runtime_error func s t final h = rw h refl
conflict_as_error-passes yaml_error func s t final h = rw h refl
conflict_as_error-passes retry_error func s t final h = rw h refl
conflict_as_error-passes not_found func s t final h = rw h refl

IsPodError-IsFinal : (e : Error) → (e ≡ runtime_error) ⊎ (e ≡ value_error) → IsFinal e
IsPodError-IsFinal e (inl is) = subst IsFinal (sym is) tt
IsPodError-IsFinal e (inr is) = subst IsFinal (sym is) tt

IsPodError-other : (e : Error) → (e ≡ runtime_error) ⊎ (e ≡ value_error) → e ≢ upsert_conflict
IsPodError-other e (inl is) = λ same. cc
IsPodError-other e (inr is) = λ same. cc

module _ {S : Type 0} (api : ResourceApi S DeploymentSpec Deployment) (config : Settings)
    (app_spec : AppSpec) where
  deploy_once-raise :
      (selector labels : Dict String) (besteffort : Bool) (s : S) (e : Error)
      → make_pod config app_spec ≡ raise e
      → deploy_once api config app_spec selector labels besteffort s ≡ (raise e, s)
  unfolding deploy_once
  deploy_once-raise selector labels besteffort s e h = rw h refl

  -- If no pod can be made for a specification, its health checks or its image being wrong, then
  -- `deploy` raises that exception, a RuntimeError or a ValueError, and has done nothing to the
  -- cluster. Other exceptions than UpsertConflict are assumed to pass through the retry.
  pub deploy_deployment-Untouched :
      (on_exception : Eff S (Unit {0}) → Eff S (Unit {0}))
      → PassesOthers on_exception
      → (selector labels : Dict String) (besteffort : Bool) (s : S) (e : Error)
      → make_pod config app_spec ≡ raise e
      → (deploy_deployment api config on_exception app_spec selector labels besteffort s
          ≡ (raise e, s))
        × ((e ≡ runtime_error) ⊎ (e ≡ value_error))
  unfolding deploy_deployment retry_on_upsert_conflict
  deploy_deployment-Untouched on_exception passes selector labels besteffort s e h =
      let known = make_pod-errors config app_spec e h in
      let once = deploy_once api config app_spec selector labels besteffort in
      (
        passes (conflict_as_error once) s s e
            (conflict_as_error-passes e once s s (IsPodError-IsFinal e known)
              (deploy_once-raise selector labels besteffort s e h))
            (IsPodError-other e known),
        known,
      )

  abbrev pub IsInRange : ℕ → Type 0
  IsInRange n = (app_spec.autoscaler.min_replicas ≤ n) × (n ≤ app_spec.autoscaler.max_replicas)

  -- A Deployment that is there has no replica, or a number of them in the range of the autoscaler.
  abbrev pub IsAnswer : Result DeploymentSpec → Type 0
  IsAnswer (ok deployed) = (deployed.replicas ≡ 0) ⊎ IsInRange deployed.replicas
  IsAnswer (raise e) = e ≡ not_found

  -- There is nothing to keep: no autoscaler, a Deployment without replicas, or no Deployment.
  abbrev pub IsIdle : S → Type 0
  IsIdle s =
      (should_have_autoscaler app_spec ≡ false)
      ⊎ (((deployed : DeploymentSpec) × ((api.get_spec app_spec.name app_spec.namespace s).0
              ≡ ok deployed)
            × (deployed.replicas ≡ 0))
          ⊎ ((api.get_spec app_spec.name app_spec.namespace s).0 ≡ raise not_found))

  -- Why this number of replicas was chosen: they are those of the Deployment that an autoscaler has
  -- scaled and that runs, or nothing is to be kept and they are the least number.
  abbrev pub IsKept : S → ℕ → Type 0
  IsKept s n =
      ((deployed : DeploymentSpec) × (should_have_autoscaler app_spec ≡ true)
        × ((api.get_spec app_spec.name app_spec.namespace s).0 ≡ ok deployed)
        × (0 < deployed.replicas)
        × (n ≡ deployed.replicas))
      ⊎ (IsIdle s × (n ≡ app_spec.autoscaler.min_replicas))

  abbrev Chooses : S → Type 0
  Chooses s =
      (n : ℕ) × (t : S) × (choose_replicas api config app_spec s ≡ (ok n, t))
      × IsInRange n
      × IsKept s n
