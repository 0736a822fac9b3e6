-- ===== src/Deployer/Kubernetes/Tests.antt =====
-- Runs of the deployers of the cluster's objects.
use fiaas_deploy_daemon.Base.{
  not_found, Eff, raise, All, ◌++◌, Result, ℕ, ◌<◌, String, ◌≡◌, refl, ◌⊎◌, false, none, some, List,
  [], ◌∷◌, ok,
}
use fiaas_deploy_daemon.Base.Dict.{Dict}
use fiaas_deploy_daemon.Deployer.Spec.{AppSpec}
use fiaas_deploy_daemon.Deployer.Sample.{app}
use fiaas_deploy_daemon.Deployer.Kubernetes.Adapter.{make_selector, make_labels}
use fiaas_deploy_daemon.Deployer.Kubernetes.Labels.{
  IsDescribed, HasLabels, IsSelectedBy, make_labels-HasLabels,
}
use fiaas_deploy_daemon.Deployer.Kubernetes.DisruptionBudget.{
  pods, limit_unavailable, too_few_replicas, limit_unavailable-lt,
}
use fiaas_deploy_daemon.Deployer.Kubernetes.RoleBinding.{RoleBinding, Write, named, deploy_bindings}
use fiaas_deploy_daemon.Deployer.Kubernetes.RoleBinding.Owned.{IsAllowed, deploy_bindings-IsAllowed}
use fiaas_deploy_daemon.Deployer.Kubernetes.ServiceAccount.{
  ServiceAccount, is_foreign, create_account, create_account-SavesOwn,
}
use fiaas_deploy_daemon.Deployer.Kubernetes.Service.{ServicePort, merge_ports}
use fiaas_deploy_daemon.Deployer.Kubernetes.Service.Merged.{
  AllPairs, IsMerged, merge_ports-IsMerged,
}

abbrev team_app : AppSpec
team_app = record app { teams = "Team: One" ∷ []; tags = "blå" ∷ [] }

abbrev as_it_is : String → String
as_it_is s = s

abbrev team_labels : Dict String
team_labels =
    ("app", "shop")
    ∷ ("fiaas/version", "12")
    ∷ ("fiaas/deployment_id", "d12")
    ∷ ("fiaas/deployed_by", "1.0")
    ∷ ("teams.fiaas/Team--One", "true")
    ∷ ("tags.fiaas/blaa", "true")
    ∷ []

made_labels : make_labels as_it_is "1.0" team_app ≡ ok team_labels
unfolding make_labels
made_labels = refl

make_labels-HasLabels_example :
    HasLabels as_it_is team_labels "teams.fiaas" ("Team: One" ∷ [])
    × HasLabels as_it_is team_labels "tags.fiaas" ("blå" ∷ [])
    × IsSelectedBy team_labels (make_selector team_app)
    × IsDescribed as_it_is "1.0" team_app team_labels
make_labels-HasLabels_example =
    make_labels-HasLabels as_it_is "1.0" team_app team_labels made_labels

enough_replicas : too_few_replicas app ≡ false
unfolding too_few_replicas
enough_replicas = refl

limited : limit_unavailable (pods 4) 2 ≡ pods 1
unfolding limit_unavailable
limited = refl

abbrev one_pod : ℕ
one_pod = 1

limit_unavailable-lt_example : (one_pod < 2) × ((pods 4 ≡ pods one_pod) ⊎ (one_pod ≡ 1))
limit_unavailable-lt_example = limit_unavailable-lt (pods 4) app one_pod enough_replicas limited

abbrev existing : List ServicePort
existing = (record { name = "http"; port = 80; target_port = 8080; node_port = some 30080 }) ∷ []

abbrev wanted : List ServicePort
wanted =
    (record { name = "http"; port = 81; target_port = 8081; node_port = none })
    ∷ (record { name = "admin"; port = 9000; target_port = 9000; node_port = none })
    ∷ []

merge_ports-IsMerged_example : AllPairs (IsMerged existing) wanted (merge_ports existing wanted)
merge_ports-IsMerged_example = merge_ports-IsMerged existing wanted

-- A binding that somebody else owns, and one of fiaas that is wanted no more.
abbrev foreign : RoleBinding
foreign = record {
  name = named "theirs";
  namespace = "default";
  labels = [];
  annotations = [];
  owner_references = [];
  role_kind = "Role";
  role_name = "reader";
  subject = "shop";
}

abbrev unwanted : RoleBinding
unwanted = record foreign {
  name = named "ours";
  owner_references = ("fiaas.schibsted.io/v1", "Application") ∷ [];
  role_name = "writer";
}

abbrev accept : RoleBinding → List Write → Result (Unit {0})
accept rb log = ok tt

deploy_bindings-IsAllowed_example :
    (writes : List Write) × (r : Result (List RoleBinding)) × (deploy_bindings accept accept
        ("reader" ∷ [])
        ("viewer" ∷ [])
        app
        []
        (foreign ∷ unwanted ∷ [])
        []
      ≡ (r, [] ++ writes))
    × All (IsAllowed (foreign ∷ unwanted ∷ [])) writes
deploy_bindings-IsAllowed_example =
    deploy_bindings-IsAllowed accept accept ("reader" ∷ []) ("viewer" ∷ [])
      (foreign ∷ unwanted ∷ []) app [] []

abbrev no_account : String → String → Result ServiceAccount
no_account name namespace = raise not_found

abbrev accept_account : ServiceAccount → List ServiceAccount → Result (Unit {0})
accept_account account log = ok tt

abbrev once : Eff (List ServiceAccount) (Unit {0}) → Eff (List ServiceAccount) (Unit {0})
once m = m

create_account-SavesOwn_example :
    ((create_account no_account accept_account once app [] []).1 ≡ [])
    ⊎ ((account : ServiceAccount) × ((create_account no_account accept_account once app [] []).1
          ≡ [] ++ (account ∷ []))
        × (account.name ≡ "shop")
        × (account.namespace ≡ "default")
        × (is_foreign no_account accept_account once (no_account "shop" "default") ≡ ok false))
create_account-SavesOwn_example = create_account-SavesOwn no_account accept_account once app [] []
