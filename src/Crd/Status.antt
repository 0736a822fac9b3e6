-- ===== src/Crd/Status.antt =====
-- fiaas_deploy_daemon/crd/status.py: the result of a deployment is kept in the cluster, and only the
-- newest results are. The calls on the cluster, the clock and the logs are given.
pub mod Laws
mod Tests
use fiaas_deploy_daemon.Base.{
  ℕ, suc, zero, ◌+◌, ◌-◌, ◌≤◌, ◌<◌, String, ◌<>◌, ◌≡◌, refl, sym, ap, ◌∙◌, ◌≢◌, ◌↔◌, ◌⊎◌, inl, inr,
  Bool, true, false, not, ◌&&◌, ◌||◌, Option, none, some, List, [], ◌∷◌, ◌++◌, map, arith, eq_iff,
  eq_refl, ◌==◌, ltb, leb, eqb, if◌then◌else◌, Bool-cases, Option-cases, leb→le, leb-false→lt,
  length, any, all, filter, contains, All, All-append, All-map, Error, invalid_configuration,
  value_error, key_error, index_error, type_error, attribute_error, runtime_error, yaml_error,
  retry_error, not_found, client_error, upsert_conflict, Result, ok, raise, ok-injective,
  guard-eq-ok, raise-ne-ok, Result-cases, Eff,
}
use fiaas_deploy_daemon.Base.Effect.{◌>>=◌, ◌>>◌, try_catch, throw, return, lift, for_each}
use fiaas_deploy_daemon.Base.Dict.{Dict, get, merge_dicts}
use fiaas_deploy_daemon.Deployer.Lifecycle.{Status, Subject}
use fiaas_deploy_daemon.Deployer.Kubernetes.Api.{retry_on_upsert_conflict, pass_not_found}
use fiaas_deploy_daemon.Crd.Watcher.{create_name}
use fiaas_deploy_daemon.Order.{sort_by}

-- The name and the uid of the Application that owns a status.
pub record Owner : Type 0 where
  pub name : String
  pub uid : String

-- A `FiaasApplicationStatus`; dicts that are absent are empty.
pub record ApplicationStatus : Type 0 where
  pub name : String
  pub namespace : String
  pub labels : Dict String
  pub annotations : Dict String
  pub result : String
  pub logs : List String
  pub owner : Option Owner

-- A `FiaasApplicationStatusResult`, which is kept in the Application itself.
pub record InlineStatus : Type 0 where
  pub observed_generation : ℕ
  pub result : String
  pub logs : List String
  pub deployment_id : String

-- What is read of a `FiaasApplication`.
pub record ApplicationView : Type 0 where
  pub generation : ℕ
  pub labels : Option (Dict String)

-- The calls on the cluster, the clock, and the logs of a deployment: those of a running one or the
-- final ones, all or only errors.
pub record StatusApi (S : Type 0) : Type 0 where
  pub get_status : String → String → Eff S ApplicationStatus
  pub get_or_create : ApplicationStatus → Eff S ApplicationStatus
  pub save : ApplicationStatus → Eff S (Unit {0})
  pub find : String → String → Eff S (List ApplicationStatus)
  pub delete : String → String → Eff S (Unit {0})
  pub get_application : String → String → Eff S ApplicationView
  pub save_inline : String → String → InlineStatus → Eff S (Unit {0})
  pub now : Eff S String
  pub running_logs : Subject → Eff S (List String)
  pub final_logs : Subject → Eff S (List String)
  pub running_error_logs : Subject → Eff S (List String)
  pub final_error_logs : Subject → Eff S (List String)

-- What the two handlers make of the signal's status: RUNNING for a start, and the upper case of the
-- others.
unfoldable pub result_of : Status → String
result_of Status.started = "RUNNING"
result_of Status.failed = "FAILED"
result_of Status.success = "SUCCESS"
result_of Status.initiated = "INITIATED"

abbrev is_running : String → Bool
is_running result = result == "RUNNING" || result == "INITIATED"

-- `labels or {}`
abbrev or_empty_dict : Option (Dict String) → Dict String
or_empty_dict none = []
or_empty_dict (some d) = d

-- `_last_updated`
unfoldable pub last_updated : ApplicationStatus → String
unfolding get
last_updated s = elim (get s.annotations "fiaas/last_updated") [ none ↦ "" | some t ↦ t ]

abbrev pub take : List ApplicationStatus → ℕ → List ApplicationStatus
take [] n = []
take (s ∷ ss) zero = []
take (s ∷ ss) (suc n) = s ∷ take ss n

-- `statuses[:-OLD_STATUSES_TO_KEEP]` of the sorted statuses
unfoldable pub old_statuses : List ApplicationStatus → List ApplicationStatus
unfolding sort_by last_updated
old_statuses statuses = take (sort_by last_updated statuses) (length statuses - 10)

-- `_apply_owner_reference`
unfoldable pub apply_owner_reference : ApplicationStatus → Subject → ApplicationStatus
apply_owner_reference status subject =
    if subject.uid == ""
    then status
    else record status { owner = some (record { name = subject.app_name; uid = subject.uid }) }

module _ {S : Type 0} (on_exception : Eff S (Unit {0}) → Eff S (Unit {0}))
    (suffix : String → String) (api : StatusApi S) where
  -- `_get_logs`
  unfoldable pub get_logs : Subject → String → Eff S (List String)
  get_logs subject result =
      if is_running result then api.running_logs subject else api.final_logs subject

  -- `_get_error_logs`
  unfoldable pub get_error_logs : Subject → String → Eff S (List String)
  get_error_logs subject result =
      if is_running result then api.running_error_logs subject else api.final_error_logs subject

  -- The status that is there gets the new labels, annotations, logs and result; else one is made.
  unfoldable pub find_or_make : ApplicationStatus → Eff S ApplicationStatus
  unfolding merge_dicts
  find_or_make wanted =
      try_catch
        (do
          status ← api.get_status wanted.name wanted.namespace
          return (record status {
            labels = merge_dicts (status.labels ∷ wanted.labels ∷ []);
            annotations = merge_dicts (status.annotations ∷ wanted.annotations ∷ []);
            logs = wanted.logs;
            result = wanted.result;
          }))
        (λ e. elim e [ not_found ↦ api.get_or_create wanted | e ↦ throw e ])

  -- `_save_status`
  unfoldable pub save_status : String → Subject → Eff S (Unit {0})
  unfolding create_name merge_dicts get_logs find_or_make apply_owner_reference
      retry_on_upsert_conflict
  save_status result subject = retry_on_upsert_conflict on_exception (do
    time ← api.now
    logs ← get_logs subject result
    status ← find_or_make (record {
      name = create_name suffix subject.app_name subject.deployment_id;
      namespace = subject.namespace;
      labels = merge_dicts (
          or_empty_dict subject.labels
          ∷ (("app", subject.app_name) ∷ ("fiaas/deployment_id", subject.deployment_id) ∷ [])
          ∷ []);
      annotations =
          merge_dicts
            (or_empty_dict subject.annotations ∷ (("fiaas/last_updated", time) ∷ []) ∷ []);
      result = result;
      logs = logs;
      owner = none;
    })
    api.save (apply_owner_reference status subject))

  abbrev id_of : Option (Dict String) → Result String
  unfolding get
  id_of none = raise value_error
  id_of (some labels) = elim (get labels "fiaas/deployment_id") [
    | none ↦ raise value_error
    | some id ↦ ok id
  ]

  -- `_save_status_inline`
  unfoldable pub save_status_inline : String → Subject → Eff S (Unit {0})
  unfolding get_error_logs retry_on_upsert_conflict id_of
  save_status_inline result subject = retry_on_upsert_conflict on_exception (do
    app ← api.get_application subject.app_name subject.namespace
    application_deployment_id ← lift (id_of app.labels)
    if subject.deployment_id == application_deployment_id
        then (do
          logs ← get_error_logs subject result
          api.save_inline subject.app_name subject.namespace (record {
            observed_generation = app.generation;
            result = result;
            logs = logs;
            deployment_id = subject.deployment_id;
          }))
        else return tt)

  -- `_cleanup`
  unfoldable pub cleanup : String → String → Eff S (Unit {0})
  unfolding old_statuses pass_not_found for_each
  cleanup app_name namespace = do
    statuses ← api.find app_name namespace
    for_each (old_statuses statuses) (λ s. pass_not_found (api.delete s.name s.namespace))

  -- `_handle_signal_without_status`
  unfoldable pub handle_signal_without_status : Status → Subject → Eff S (Unit {0})
  unfolding save_status cleanup result_of
  handle_signal_without_status status subject = do
    save_status (result_of status) subject
    cleanup subject.app_name subject.namespace

  -- `_handle_signal_with_status`
  unfoldable pub handle_signal_with_status : Status → Subject → Eff S (Unit {0})
  unfolding save_status_inline save_status cleanup result_of
  handle_signal_with_status status subject = do
    save_status_inline (result_of status) subject
    save_status (result_of status) subject
    cleanup subject.app_name subject.namespace
