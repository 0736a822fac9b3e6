-- ===== src/Deployer/Kubernetes/DisruptionBudget.antt =====
-- fiaas_deploy_daemon/deployer/kubernetes/pod_disruption_budget.py
use fiaas_deploy_daemon.Base.{
  ℕ, ◌<◌, String, ◌≡◌, sym, ap, ◌⊎◌, inl, inr, Bool, false, ◌||◌, [], ◌∷◌, arith, leb,
  if◌then◌else◌, Bool-cases, leb-false→lt, Eff,
}
use fiaas_deploy_daemon.Base.Dict.{Dict, merge_dicts}
use fiaas_deploy_daemon.Deployer.Spec.{AppSpec}
use fiaas_deploy_daemon.Deployer.Kubernetes.Api.{
  Metadata, ResourceApi, retry_on_upsert_conflict, pass_not_found, create_and_save,
}

-- `pdb_max_unavailable` of the configuration: a number or a percentage.
pub data MaxUnavailable : Type 0 where
  pods : ℕ → MaxUnavailable
  percentage : String → MaxUnavailable

-- `PodDisruptionBudgetSpec`
pub record BudgetFields : Type 0 where
  pub selector : Dict String
  pub max_unavailable : MaxUnavailable
  pub unhealthy_pod_eviction_policy : String

unfoldable pub limit_unavailable : MaxUnavailable → ℕ → MaxUnavailable
limit_unavailable (pods n) min_replicas = if leb min_replicas n then pods 1 else pods n
limit_unavailable (percentage p) min_replicas = percentage p

-- The first test of `PodDisruptionBudgetDeployer.deploy`
unfoldable pub too_few_replicas : AppSpec → Bool
too_few_replicas app_spec =
    leb app_spec.autoscaler.min_replicas 1 || leb app_spec.autoscaler.max_replicas 1

module _ {S Object : Type 0} (on_exception : Eff S (Unit {0}) → Eff S (Unit {0}))
    (api : ResourceApi S BudgetFields Object) (max_unavailable : MaxUnavailable)
    (unhealthy_pod_eviction_policy : String) where
  abbrev pub budget_metadata : AppSpec → Dict String → Metadata
  budget_metadata app_spec labels = record {
    name = app_spec.name;
    namespace = app_spec.namespace;
    labels = merge_dicts (app_spec.labels.pod_disruption_budget ∷ labels ∷ []);
    annotations = app_spec.annotations.pod_disruption_budget;
  }

  abbrev pub budget_fields : AppSpec → Dict String → BudgetFields
  budget_fields app_spec selector = record {
    selector = selector;
    max_unavailable = limit_unavailable max_unavailable app_spec.autoscaler.min_replicas;
    unhealthy_pod_eviction_policy = unhealthy_pod_eviction_policy;
  }

  -- `PodDisruptionBudgetDeployer.deploy`
  unfoldable pub deploy_budget : AppSpec → Dict String → Dict String → Eff S (Unit {0})
  unfolding limit_unavailable too_few_replicas retry_on_upsert_conflict pass_not_found
      create_and_save
  deploy_budget app_spec selector labels = retry_on_upsert_conflict on_exception (
      if too_few_replicas app_spec
      then pass_not_found (api.delete app_spec.name app_spec.namespace)
      else create_and_save api (budget_metadata app_spec labels) (budget_fields app_spec selector)
          app_spec)

pods-injective : (k n : ℕ) → pods k ≡ pods n → k ≡ n
pods-injective k n e = cc

below :
    (least most k n : ℕ)
    → (leb least 1 || leb most 1) ≡ false
    → (if leb least k then pods 1 else pods k) ≡ pods n
    → (n < least) × ((pods k ≡ pods n) ⊎ (n ≡ 1))
below least most k n enough e = elim (Bool-cases (leb least k)) [
  | inl many ↦ let one = pods-injective 1 n (rw many at e) in (ground (arith, one), inr (sym one))
  | inr few ↦
      let same = pods-injective k n (rw few at e) in
      (ground (arith, same, leb-false→lt least k few), inl (ap pods same))
]

-- Where there are more than one replica at least and at most, the number that a budget allows to be
-- unavailable, if it is a number, is below the least number of replicas, and is the configured one or
-- one.
pub limit_unavailable-lt :
    (configured : MaxUnavailable) (app_spec : AppSpec) (n : ℕ)
    → too_few_replicas app_spec ≡ false
    → limit_unavailable configured app_spec.autoscaler.min_replicas ≡ pods n
    → (n < app_spec.autoscaler.min_replicas) × ((configured ≡ pods n) ⊎ (n ≡ 1))
unfolding limit_unavailable too_few_replicas
limit_unavailable-lt (percentage p) app_spec n enough e = cc
limit_unavailable-lt (pods k) app_spec n enough e =
    below app_spec.autoscaler.min_replicas app_spec.autoscaler.max_replicas k n enough e
