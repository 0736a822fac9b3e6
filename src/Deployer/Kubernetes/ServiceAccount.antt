-- ===== src/Deployer/Kubernetes/ServiceAccount.antt =====
-- fiaas_deploy_daemon/deployer/kubernetes/service_account.py. What is saved is logged; the cluster's
-- answers are given.
use fiaas_deploy_daemon.Base.{
  String, ◌≡◌, refl, ap, ◌∙◌, ◌⊎◌, inl, inr, Bool, false, not, ◌&&◌, List, [], ◌∷◌, ◌++◌, ◌==◌,
  if◌then◌else◌, Bool-cases, any, not_found, Result, ok, raise, Result-cases, Eff,
}
use fiaas_deploy_daemon.Deployer.Kubernetes.Api.{retry_on_upsert_conflict}
use fiaas_deploy_daemon.Base.Effect.{◌>>=◌, return, lift}
use fiaas_deploy_daemon.Base.Dict.{Dict, merge_dicts}
use fiaas_deploy_daemon.Deployer.Spec.{AppSpec}
use fiaas_deploy_daemon.Deployer.Kubernetes.RoleBinding.{OwnerReference, owners_for}

pub record ServiceAccount : Type 0 where
  pub name : String
  pub namespace : String
  pub labels : Dict String
  pub annotations : Dict String
  pub image_pull_secrets : List String
  pub owner_references : List OwnerReference

-- `_owned_by_fiaas`
unfoldable pub account_owned_by_fiaas : ServiceAccount → Bool
account_owned_by_fiaas account =
    any (λ (r : OwnerReference). r.0 == "fiaas.schibsted.io/v1" && r.1 == "Application")
      account.owner_references

module _ (get_account : String → String → Result ServiceAccount)
    (save : ServiceAccount → List ServiceAccount → Result (Unit {0}))
    (on_exception : Eff (List ServiceAccount) (Unit {0})
      → Eff (List ServiceAccount) (Unit {0})) where
  -- Whether somebody else owns the account of that name.
  abbrev pub is_foreign : Result ServiceAccount → Result Bool
  is_foreign (ok account) = ok (not (account_owned_by_fiaas account))
  is_foreign (raise not_found) = ok false
  is_foreign (raise e) = raise e

  -- The secrets of the default account of the namespace.
  abbrev pub default_secrets : Result ServiceAccount → Result (List String)
  default_secrets (ok account) = ok account.image_pull_secrets
  default_secrets (raise not_found) = ok []
  default_secrets (raise e) = raise e

  abbrev pub wanted_account : AppSpec → Dict String → List String → ServiceAccount
  wanted_account app_spec labels secrets = record {
    name = app_spec.name;
    namespace = app_spec.namespace;
    labels = merge_dicts (app_spec.labels.service_account ∷ labels ∷ []);
    annotations = merge_dicts (app_spec.annotations.service_account ∷ [] ∷ []);
    image_pull_secrets = secrets;
    owner_references = owners_for app_spec [];
  }

  abbrev pub save_account : ServiceAccount → Eff (List ServiceAccount) (Unit {0})
  save_account account log = (save account log, log ++ (account ∷ []))

  -- `_create` without its decorator.
  unfoldable pub create_account : AppSpec → Dict String → Eff (List ServiceAccount) (Unit {0})
  unfolding account_owned_by_fiaas merge_dicts owners_for
  create_account app_spec labels = do
    foreign ← lift (is_foreign (get_account app_spec.name app_spec.namespace))
    if foreign then return tt else (do
      secrets ← lift (default_secrets (get_account "default" app_spec.namespace))
      save_account (wanted_account app_spec labels secrets))

  -- `ServiceAccountDeployer.deploy`
  unfoldable pub deploy_account : AppSpec → Dict String → Eff (List ServiceAccount) (Unit {0})
  unfolding create_account retry_on_upsert_conflict
  deploy_account app_spec labels =
      retry_on_upsert_conflict on_exception (create_account app_spec labels)

  -- When `_create` saves an account, that account has the application's name and namespace, and one
  -- of that name was not found or is owned by an Application of fiaas. It never saves more than one.
  pub create_account-SavesOwn :
      (app_spec : AppSpec) (labels : Dict String) (log : List ServiceAccount)
      → ((create_account app_spec labels log).1 ≡ log)
        ⊎ ((account : ServiceAccount) × ((create_account app_spec labels log).1
              ≡ log ++ (account ∷ []))
            × (account.name ≡ app_spec.name)
            × (account.namespace ≡ app_spec.namespace)
            × (is_foreign (get_account app_spec.name app_spec.namespace) ≡ ok false))
  unfolding create_account
  create_account-SavesOwn app_spec labels log =
      elim (Result-cases (is_foreign (get_account app_spec.name app_spec.namespace))) [
        | inr (e, h) ↦ inl (rw h refl)
        | inl (foreign, h) ↦ elim (Bool-cases foreign) [
          | inl yes_foreign ↦ inl (rw (h, yes_foreign) refl)
          | inr own ↦
              elim (Result-cases (default_secrets (get_account "default" app_spec.namespace))) [
                | inr (e, h2) ↦ inl (rw (h, own, h2) refl)
                | inl (secrets, h2) ↦ inr (
                  wanted_account app_spec labels secrets,
                  rw (h, own, h2) refl,
                  refl,
                  refl,
                  h ∙ ap ok own,
                )
              ]
        ]
      ]
