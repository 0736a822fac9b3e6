-- ===== src/Deployer/Ingress/Adapter/Unused.antt =====
-- Which ingresses `delete_unused` of
-- fiaas_deploy_daemon/deployer/kubernetes/ingress_networkingv1.py and ingress_v1beta1.py asks the
-- cluster to delete.
use fiaas_deploy_daemon.Base.{
  String, ◌≡◌, sym, ◌∙◌, ◌≢◌, ◌↔◌, Option, none, some, List, All, ok, ok-injective,
}
use mathlib.Core.Path.{subst}
use fiaas_deploy_daemon.Base.Dict.{Dict, get}
use fiaas_deploy_daemon.Deployer.Ingress.Adapter.{
  filter_for, unused_filter, Requirement, equality, inequality, exists,
}

-- What Kubernetes says of the labels of an object: an inequality holds also where the label is missing.
abbrev pub Holds : Dict String → Requirement → Type 0
Holds labels (equality key value) = get labels key ≡ some value
Holds labels (inequality key value) = get labels key ≢ some value
Holds labels (exists key) = (v : String) × (get labels key ≡ some v)

-- An object with the label dict is of the application, and of another deployment of it.
abbrev pub IsOfOtherDeployment : Dict String → Dict String → Type 0
IsOfOtherDeployment labels found =
    (get found "app" ≡ get labels "app")
    × ((id : String) × (get found "fiaas/deployment_id" ≡ some id)
        × (get labels "fiaas/deployment_id" ≢ some id))

-- A filter made of the two labels.
for-Holds :
    (app deployment_id : Option String) (found : Dict String) (requirements : List Requirement)
    → filter_for app deployment_id ≡ ok requirements
    → All (Holds found) requirements ↔ (
        (get found "app" ≡ app)
        × ((id : String) × (get found "fiaas/deployment_id" ≡ some id) × (deployment_id ≢ some id)))
for-Holds none d found requirements h = cc
for-Holds (some app) none found requirements h = cc
for-Holds (some app) (some d) found requirements h =
    subst
      (λ (rs : List Requirement). All (Holds found) rs ↔ (
        (get found "app" ≡ some app)
        × ((id : String) × (get found "fiaas/deployment_id" ≡ some id) × (some d ≢ some id))))
      (ok-injective h)
      (
        λ (same, ((id, has), (differs, t))). (same, (id, has, λ e. differs (has ∙ sym e))),
        λ (same, (id, has, differs)). (same, ((id, has), (λ e. differs (sym e ∙ has), tt))),
      )

-- If the labels name an application and a deployment, then `delete_unused` asks the cluster for the
-- ingresses of that application whose labels name another deployment, and for no others: never for
-- the ingresses that `create_ingress` has just made with the same labels, and never for an ingress
-- whose labels name no deployment.
pub unused_filter-Holds :
    (labels found : Dict String) (requirements : List Requirement)
    → unused_filter labels ≡ ok requirements
    → All (Holds found) requirements ↔ IsOfOtherDeployment labels found
unfolding unused_filter
unused_filter-Holds labels found requirements h =
    for-Holds (get labels "app") (get labels "fiaas/deployment_id") found requirements h
