-- ===== src/Deployer/Ingress/Create.antt =====
-- The loop of `IngressDeployer` in fiaas_deploy_daemon/deployer/kubernetes/ingress.py that creates
-- the ingresses by an adapter.
use fiaas_deploy_daemon.Base.{String, List, [], ◌∷◌, ltb, if◌then◌else◌, length, Eff}
use fiaas_deploy_daemon.Base.Dict.{Dict, merge_dicts}
use fiaas_deploy_daemon.Base.Effect.{◌>>=◌, ◌>>◌, lift, for_each, when}
use fiaas_deploy_daemon.Deployer.Spec.{AppSpec, Item}
use fiaas_deploy_daemon.Deployer.Ingress.Issuers.{IngressConfig}
use fiaas_deploy_daemon.Deployer.Ingress.Group.{
  AnnotatedIngress, group_ingresses, should_have_ingress,
}

-- The calls that `IngressDeployer` makes on its `IngressAdapterInterface`.
pub record IngressAdapter (S : Type 0) : Type 0 where
  pub create_ingress : AppSpec → AnnotatedIngress → Dict String → Eff S (Unit {0})
  pub delete_unused : AppSpec → Dict String → Eff S (Unit {0})

module _ {S : Type 0} (adapter : IngressAdapter S) (config : IngressConfig)
    (default_ingresses : List Item) where
  -- One round of the loop of `_create`: an ingress with no items is skipped.
  abbrev create_one : AppSpec → Dict String → AnnotatedIngress → Eff S (Unit {0})
  create_one app_spec labels g =
      when (ltb 0 (length g.ingress_items)) (adapter.create_ingress app_spec g labels)

  -- `_create`
  unfoldable pub create : AppSpec → Dict String → Eff S (Unit {0})
  unfolding group_ingresses merge_dicts for_each
  create app_spec labels = do
    let custom_labels = merge_dicts (app_spec.labels.ingress ∷ labels ∷ [])
    ingresses ← lift (group_ingresses config app_spec default_ingresses)
    for_each ingresses (create_one app_spec custom_labels)
    adapter.delete_unused app_spec custom_labels

  -- `deploy`
  unfoldable pub deploy : AppSpec → Dict String → Eff S (Unit {0})
  unfolding create should_have_ingress
  deploy app_spec labels =
      if should_have_ingress config app_spec
      then create app_spec labels
      else adapter.delete_unused app_spec labels
