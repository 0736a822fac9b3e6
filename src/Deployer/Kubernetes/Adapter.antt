-- ===== src/Deployer/Kubernetes/Adapter.antt =====
-- `K8s` of fiaas_deploy_daemon/deployer/kubernetes/adapter.py: the order in which the deployers run,
-- and the labels and the selector that they are given.
use fiaas_deploy_daemon.Base.{
  ℕ, String, ◌<>◌, Bool, false, ◌&&◌, Option, none, some, List, [], ◌∷◌, ◌==◌, eqb, if◌then◌else◌,
  any, contains, Result, ok, raise, Eff,
}
use Prim.Native.Char.{code}
use fiaas_deploy_daemon.Base.Effect
use fiaas_deploy_daemon.Base.Effect.{◌>>=◌, ◌>>◌, when}
use fiaas_deploy_daemon.Base.Dict.{Dict, get, insert}
use fiaas_deploy_daemon.Specs.Models.{ResourceRequirementSpec}
use fiaas_deploy_daemon.Deployer.Spec.{AppSpec, version}

-- The fields of a ResourceQuota that are read.
pub record ResourceQuota : Type 0 where
  pub hard : Dict String
  pub scopes : List String

-- The deployers that `K8s` is given, and `ResourceQuota.list`.
pub record Deployers (S : Type 0) : Type 0 where
  pub list_quotas : String → Eff S (List ResourceQuota)
  pub service_account : AppSpec → Dict String → Eff S (Unit {0})
  pub role_binding : AppSpec → Dict String → Eff S (Unit {0})
  pub service : AppSpec → Dict String → Dict String → Eff S (Unit {0})
  pub ingress : AppSpec → Dict String → Eff S (Unit {0})
  pub deployment : AppSpec → Dict String → Dict String → Bool → Eff S (Unit {0})
  pub autoscaler : AppSpec → Dict String → Eff S (Unit {0})
  pub pod_disruption_budget : AppSpec → Dict String → Dict String → Eff S (Unit {0})

-- What a letter of a label value is replaced by, after `lower`: a space, ø, å, æ and a colon.
letter : ℕ → String → String
letter n c =
    if eqb n 32
    then "-"
    else (if eqb n 248
        then "oe"
        else (if eqb n 229
            then "aa"
            else (if eqb n 230 then "ae" else (if eqb n 58 then "-" else c))))

replace_letters : String → String
unfolding letter
replace_letters String.[] = String.[]
replace_letters (String.◌∷◌ c s) = letter (code c) (String.◌∷◌ c String.[]) <> replace_letters s

-- `_make_selector`
unfoldable pub make_selector : AppSpec → Dict String
make_selector app_spec = ("app", app_spec.name) ∷ []

-- `_remove_resource_requirements`
unfoldable pub remove_resource_requirements : AppSpec → AppSpec
remove_resource_requirements app_spec =
    let no_requirements : ResourceRequirementSpec (Option String) = record {
      cpu = none;
      memory = none;
    } in
    record app_spec { resources = record { limits = no_requirements; requests = no_requirements } }

abbrev is_besteffort_quota : ResourceQuota → Bool
unfolding get
is_besteffort_quota rq =
    (elim (get rq.hard "pods") [ none ↦ false | some n ↦ n == "0" ])
    && contains rq.scopes "NotBestEffort"

-- `str.lower` of Python is `lower`.
module _ (lower : String → String) where
  -- `_to_valid_label_value`
  unfoldable pub to_valid_label_value : String → String
  unfolding replace_letters
  to_valid_label_value value = replace_letters (lower value)

  abbrev pub label_for : String → String → String
  label_for prefix value = prefix <> ("/" <> to_valid_label_value value)

  -- `_add_labels`
  unfoldable pub add_labels : String → Dict String → List String → Dict String
  unfolding to_valid_label_value insert
  add_labels prefix labels [] = labels
  add_labels prefix labels (value ∷ values) =
      add_labels prefix (insert labels (label_for prefix value) "true") values

  abbrev pub fixed_labels : String → AppSpec → String → Dict String
  fixed_labels fiaas_version app_spec app_version =
      ("app", app_spec.name)
      ∷ ("fiaas/version", app_version)
      ∷ ("fiaas/deployment_id", app_spec.deployment_id)
      ∷ ("fiaas/deployed_by", fiaas_version)
      ∷ []

  abbrev pub labels_of : String → AppSpec → String → Dict String
  labels_of fiaas_version app_spec app_version =
      add_labels "tags.fiaas"
        (add_labels "teams.fiaas" (fixed_labels fiaas_version app_spec app_version) app_spec.teams)
        app_spec.tags

  -- `_make_labels`
  unfoldable pub make_labels : String → AppSpec → Result (Dict String)
  unfolding add_labels version
  make_labels fiaas_version app_spec = map_ok (version app_spec)
    where
      map_ok : Result String → Result (Dict String)
      map_ok (ok app_version) = ok (labels_of fiaas_version app_spec app_version)
      map_ok (raise e) = raise e

  module _ {S : Type 0} (deployers : Deployers S) (fiaas_version : String)
      (enable_service_account_per_app : Bool) where
    -- `_besteffort_qos_is_required`
    unfoldable pub besteffort_qos_is_required : AppSpec → Eff S Bool
    unfolding is_besteffort_quota
    besteffort_qos_is_required app_spec = do
      quotas ← deployers.list_quotas app_spec.namespace
      Effect.return (any is_besteffort_quota quotas)

    abbrev deploy_all : AppSpec → Dict String → Dict String → Eff S (Unit {0})
    deploy_all app_spec selector labels = do
      when enable_service_account_per_app
          (do deployers.service_account app_spec labels; deployers.role_binding app_spec labels)
      deployers.service app_spec selector labels
      deployers.ingress app_spec labels
      besteffort ← besteffort_qos_is_required app_spec
      deployers.deployment app_spec selector labels besteffort
      deployers.autoscaler app_spec labels
      deployers.pod_disruption_budget app_spec selector labels

    -- `K8s.deploy`
    unfoldable pub deploy_objects : AppSpec → Eff S (Unit {0})
    unfolding besteffort_qos_is_required make_labels make_selector remove_resource_requirements
    deploy_objects app_spec = do
      besteffort ← besteffort_qos_is_required app_spec
      let spec = (if besteffort then remove_resource_requirements app_spec else app_spec)
      labels ← Effect.lift (make_labels fiaas_version spec)
      deploy_all spec (make_selector spec) labels
