-- ===== src/Deployer/Kubernetes/RoleBinding.antt =====
-- fiaas_deploy_daemon/deployer/kubernetes/role_binding.py, and owner_references.py beside it. What is
-- written to the cluster is logged; the cluster's answers are given.
pub mod Owned
use fiaas_deploy_daemon.Base.{
  ℕ, suc, zero, ◌+◌, ◌-◌, ◌≤◌, ◌<◌, String, ◌<>◌, ◌≡◌, refl, sym, ap, ◌∙◌, ◌≢◌, ◌↔◌, ◌⊎◌, inl, inr,
  Bool, true, false, not, ◌&&◌, ◌||◌, Option, none, some, List, [], ◌∷◌, ◌++◌, map, arith, eq_iff,
  eq_refl, ◌==◌, ltb, leb, eqb, if◌then◌else◌, Bool-cases, Option-cases, leb→le, leb-false→lt,
  length, any, all, filter, contains, All, All-append, All-map, Error, invalid_configuration,
  value_error, key_error, index_error, type_error, attribute_error, runtime_error, yaml_error,
  retry_error, not_found, client_error, upsert_conflict, Result, ok, raise, ok-injective,
  guard-eq-ok, raise-ne-ok, Result-cases, Eff,
}
use fiaas_deploy_daemon.Base.Effect.{◌>>=◌, ◌>>◌, return}
use fiaas_deploy_daemon.Base.Dict.{Dict, merge_dicts}
use fiaas_deploy_daemon.Deployer.Spec.{AppSpec}

-- The name of an object in the cluster, or the prefix from which the cluster makes one.
pub data ObjectName : Type 0 where
  named generated : String → ObjectName

-- The API version and the kind of an owner.
abbrev pub OwnerReference : Type 0
OwnerReference = String × String

pub record RoleBinding : Type 0 where
  pub name : ObjectName
  pub namespace : String
  pub labels : Dict String
  pub annotations : Dict String
  pub owner_references : List OwnerReference
  pub role_kind : String
  pub role_name : String
  pub subject : String

pub data Write : Type 0 where
  deleted_binding saved_binding : RoleBinding → Write

abbrev pub written : Write → (List Write → Result (Unit {0})) → Eff (List Write) (Unit {0})
written w answer log = (answer log, log ++ (w ∷ []))

-- `OwnerReferences.apply`
unfoldable pub owners_for : AppSpec → List OwnerReference → List OwnerReference
owners_for app_spec owners =
    if app_spec.uid == "" then owners else ("fiaas.schibsted.io/v1", "Application") ∷ []

-- `_owned_by_fiaas`
unfoldable pub owned_by_fiaas : RoleBinding → Bool
owned_by_fiaas rb =
    any (λ (r : OwnerReference). r.0 == "fiaas.schibsted.io/v1" && r.1 == "Application")
      rb.owner_references

abbrev pub binds : String → String → RoleBinding → Bool
binds role_kind role_name rb = rb.role_kind == role_kind && rb.role_name == role_name

-- `_find_role_in_role_bindings`
unfoldable pub find_role : String → String → List RoleBinding → Option RoleBinding
find_role role_kind role_name [] = none
find_role role_kind role_name (rb ∷ rbs) =
    if binds role_kind role_name rb then some rb else find_role role_kind role_name rbs

-- The binding that was found is the one object that changes.
unfoldable pub replace_role : String → String → RoleBinding → List RoleBinding → List RoleBinding
replace_role role_kind role_name new [] = []
replace_role role_kind role_name new (rb ∷ rbs) =
    if binds role_kind role_name rb
    then new ∷ rbs
    else rb ∷ replace_role role_kind role_name new rbs

module _ (delete : RoleBinding → List Write → Result (Unit {0}))
    (save : RoleBinding → List Write → Result (Unit {0})) (list_of_roles : List String)
    (list_of_cluster_roles : List String) where
  -- `_should_bind`
  unfoldable pub should_bind : RoleBinding → Bool
  should_bind rb =
      (rb.role_kind == "Role" && contains list_of_roles rb.role_name)
      || (rb.role_kind == "ClusterRole" && contains list_of_cluster_roles rb.role_name)

  -- `_clean_not_needed_role_bindings`, with the bindings that are left.
  unfoldable pub clean : List RoleBinding → Eff (List Write) (List RoleBinding)
  unfolding should_bind owned_by_fiaas
  clean [] = return []
  clean (rb ∷ rbs) =
      if not (should_bind rb) && owned_by_fiaas rb
      then (do written (deleted_binding rb) (delete rb); clean rbs)
      else (do left ← clean rbs; return (rb ∷ left))

  -- `_deploy_role_binding` up to `save`: the binding as it is saved.
  abbrev pub bound : AppSpec → Dict String → String → String → ObjectName → RoleBinding
  bound app_spec labels role_kind role_name name = record {
    name = name;
    namespace = app_spec.namespace;
    labels = labels;
    annotations = merge_dicts (app_spec.annotations.role_binding ∷ [] ∷ []);
    owner_references = owners_for app_spec [];
    role_kind = role_kind;
    role_name = role_name;
    subject = app_spec.name;
  }

  -- The body of the loop, for what the search found.
  abbrev pub bind_role :
      AppSpec
      → Dict String
      → String
      → String
      → List RoleBinding
      → Option RoleBinding
      → Eff (List Write) (List RoleBinding)
  bind_role app_spec labels role_kind role_name rbs none = do
    let new = bound app_spec labels role_kind role_name (generated (app_spec.name <> "-"))
    written (saved_binding new) (save new)
    return rbs
  bind_role app_spec labels role_kind role_name rbs (some rb) =
      let new = bound app_spec labels role_kind role_name rb.name in
      if owned_by_fiaas rb
      then (do
        written (saved_binding new) (save new)
        return (replace_role role_kind role_name new rbs))
      else return rbs

  -- `_update_or_create_role_bindings`
  unfoldable pub update_or_create :
      AppSpec
      → Dict String
      → String
      → List String
      → List RoleBinding
      → Eff (List Write) (List RoleBinding)
  unfolding find_role replace_role owned_by_fiaas owners_for merge_dicts
  update_or_create app_spec labels role_kind [] rbs = return rbs
  update_or_create app_spec labels role_kind (role_name ∷ roles) rbs = do
    next ← bind_role app_spec labels role_kind role_name rbs (find_role role_kind role_name rbs)
    update_or_create app_spec labels role_kind roles next

  -- `RoleBindingDeployer.deploy`, from the bindings that are found for the application.
  unfoldable pub deploy_bindings :
      AppSpec → Dict String → List RoleBinding → Eff (List Write) (List RoleBinding)
  unfolding clean update_or_create merge_dicts
  deploy_bindings app_spec labels found = do
    let custom_labels = merge_dicts (app_spec.labels.role_binding ∷ labels ∷ [])
    left ← clean found
    next ← update_or_create app_spec custom_labels "Role" list_of_roles left
    update_or_create app_spec custom_labels "ClusterRole" list_of_cluster_roles next
