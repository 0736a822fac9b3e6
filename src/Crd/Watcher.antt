-- ===== src/Crd/Watcher.antt =====
-- `CrdWatcher` of fiaas_deploy_daemon/crd/watcher.py: Application resources are turned into events
-- for the deployer. Logging and its extras are left out. What the cluster, the handlers of the
-- signals and the specification factory answer is given.
pub mod Skips
pub mod Laws
use fiaas_deploy_daemon.Base.{
  ℕ, suc, zero, ◌+◌, ◌-◌, ◌≤◌, ◌<◌, String, ◌<>◌, ◌≡◌, refl, sym, ap, ◌∙◌, ◌≢◌, ◌↔◌, ◌⊎◌, inl, inr,
  Bool, true, false, not, ◌&&◌, ◌||◌, Option, none, some, List, [], ◌∷◌, ◌++◌, map, arith, eq_iff,
  eq_refl, ◌==◌, ltb, leb, eqb, if◌then◌else◌, Bool-cases, Option-cases, leb→le, leb-false→lt,
  length, any, all, filter, contains, All, All-append, All-map, Error, invalid_configuration,
  value_error, key_error, index_error, type_error, attribute_error, runtime_error, yaml_error,
  retry_error, not_found, client_error, upsert_conflict, Result, ok, raise, ok-injective,
  guard-eq-ok, raise-ne-ok, Result-cases, Eff,
}
use fiaas_deploy_daemon.Base.Effect.{◌>>=◌, ◌>>◌, try_catch, throw, return, for_each, lift}
use fiaas_deploy_daemon.Base.Dict.{Dict, get}
use fiaas_deploy_daemon.Specs.Value.{Value, str, mapping, Fields, get_item}
use fiaas_deploy_daemon.Deployer.Spec.{AppSpec}
use fiaas_deploy_daemon.Deployer.Lifecycle.{
  Status, Subject, Event, Log, signal, queued, perform, increment, change, initiate,
}

-- The fields of a `FiaasApplication` that the watcher reads. Additional labels and annotations are
-- those of the status; `marked_for_deletion` says whether deletionTimestamp is a datetime.
pub record Application : Type 0 where
  pub uid : String
  pub application : String
  pub namespace : String
  pub config : Fields
  pub labels : Option (Dict String)
  pub generation : ℕ
  pub marked_for_deletion : Bool
  pub observed_generation : ℕ
  pub status_deployment_id : Option String
  pub additional_labels_status : Option (Dict String)
  pub additional_annotations_status : Option (Dict String)

pub data WatchEvent : Type 0 where
  added modified deleted : Application → WatchEvent
  other : String → WatchEvent

-- `application.metadata.labels["fiaas/deployment_id"]`, where no such label is an exception.
unfoldable pub deployment_id_of : Application → Option String
unfolding get
deployment_id_of app = elim app.labels [
  | none ↦ none
  | some labels ↦ get labels "fiaas/deployment_id"
]

-- `_skip_status_event`
unfoldable pub skip_status_event : Application → String → Bool
skip_status_event app deployment_id =
    eqb app.observed_generation app.generation
    && (elim app.status_deployment_id [ none ↦ false | some id ↦ deployment_id == id ])

-- `_skip_update_of_deleted_application`
unfoldable pub skip_update_of_deleted_application : Application → Bool
skip_update_of_deleted_application app = app.marked_for_deletion

abbrev key_of : Result Value → String → Result Value
key_of (ok (mapping fs)) key = get_item fs key
key_of (ok _) key = raise type_error
key_of (raise e) key = raise e

-- `_repository`, whose exceptions are all caught. A repository that is no text is left out.
unfoldable pub repository : Application → Option String
repository app =
    elim (key_of (key_of (get_item app.config "annotations") "deployment")
      "fiaas/source-repository") [ ok (str s) ↦ some s | _ ↦ none ]

-- InvalidConfiguration or YAMLError
abbrev pub is_invalid : Error → Bool
is_invalid invalid_configuration = true
is_invalid yaml_error = true
is_invalid _ = false

-- `create_name` of fiaas_deploy_daemon/crd/status.py; the suffix is the encoded hash of the
-- deployment's id.
unfoldable pub create_name : (String → String) → String → String → String
create_name suffix name deployment_id = name <> ("-" <> suffix deployment_id)

-- The namespace that `__call__` watches in every round, where none stands for all of them.
unfoldable pub watched_namespace : Bool → String → Option String
watched_namespace enable_deprecated_multi_namespace_support namespace =
    if enable_deprecated_multi_namespace_support then none else some namespace

-- `get_status` answers with the result of a FiaasApplicationStatus.
module _ (send : Status → Subject → Log → Result (Unit {0})) (suffix : String → String)
    (get_status : String → String → Result (Option String))
    (spec_factory : Application → String → Result AppSpec) where
  abbrev is_success : Option String → Bool
  is_success none = false
  is_success (some result) = result == "SUCCESS"

  -- `_already_deployed`
  unfoldable pub already_deployed : String → String → String → Result Bool
  unfolding create_name
  already_deployed app_name namespace deployment_id =
      elim (get_status (create_name suffix app_name deployment_id) namespace) [
        | ok result ↦ ok (is_success result)
        | raise not_found ↦ ok false
        | raise e ↦ raise e
      ]

  -- The last `try` of `_deploy`, with what the factory answers.
  unfoldable pub put_or_fail : Subject → Result AppSpec → Eff Log (Unit {0})
  unfolding change
  put_or_fail subject (ok app_spec) = increment (queued app_spec subject)
  put_or_fail subject (raise e) =
      if is_invalid e then change send Status.failed subject else throw e

  -- `_deploy` from `initiate` on.
  unfoldable pub start_deploy : Application → String → Eff Log (Unit {0})
  unfolding initiate put_or_fail repository
  start_deploy app deployment_id = do
    subject ←
        initiate send app.uid app.application app.namespace deployment_id (repository app)
          app.additional_labels_status app.additional_annotations_status
    put_or_fail subject (spec_factory app deployment_id)

  -- `_deploy` of an application with a deployment id.
  unfoldable pub deploy_with_id : Application → String → Eff Log (Unit {0})
  unfolding skip_status_event skip_update_of_deleted_application already_deployed start_deploy
  deploy_with_id app deployment_id =
      if skip_status_event app deployment_id
      then return tt
      else (if skip_update_of_deleted_application app then return tt else (do
        done ← lift (already_deployed app.application app.namespace deployment_id)
        if done then return tt else start_deploy app deployment_id))

  abbrev pub deploy_labelled : Application → Option String → Eff Log (Unit {0})
  deploy_labelled app none = throw value_error
  deploy_labelled app (some deployment_id) = deploy_with_id app deployment_id

  -- `_deploy`
  unfoldable pub deploy : Application → Eff Log (Unit {0})
  unfolding deployment_id_of deploy_with_id
  deploy app = deploy_labelled app (deployment_id_of app)

  -- `_delete`, which only writes to the program's own log
  unfoldable pub delete_application : Application → Eff Log (Unit {0})
  delete_application app = return tt

  -- `_handle_watch_event`
  unfoldable pub handle_watch_event : WatchEvent → Eff Log (Unit {0})
  unfolding deploy delete_application
  handle_watch_event (added app) = deploy app
  handle_watch_event (modified app) = deploy app
  handle_watch_event (deleted app) = delete_application app
  handle_watch_event (other kind) = throw value_error

  -- `_watch`: the watch gives some events and then ends or raises. `update` is the answer of
  -- `update_crd_resources`.
  unfoldable pub watch :
      Bool → Result (Unit {0}) → List WatchEvent → Result (Unit {0}) → Eff Log (Unit {0})
  unfolding handle_watch_event for_each
  watch disable_crd_creation update events ended = do
    lift (if disable_crd_creation then ok tt else update)
    try_catch (do for_each events handle_watch_event; lift ended) (λ e. return tt)
