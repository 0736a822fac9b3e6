-- ===== src/Deployer/Update.antt =====
-- `Deployer` of fiaas_deploy_daemon/deployer/deploy.py: one event of its queue.
pub mod Laws
use fiaas_deploy_daemon.Base.{
  ℕ, suc, zero, ◌+◌, ◌-◌, ◌≤◌, ◌<◌, String, ◌<>◌, ◌≡◌, refl, sym, ap, ◌∙◌, ◌≢◌, ◌↔◌, ◌⊎◌, inl, inr,
  Bool, true, false, not, ◌&&◌, ◌||◌, Option, none, some, List, [], ◌∷◌, ◌++◌, map, arith, eq_iff,
  eq_refl, ◌==◌, ltb, leb, eqb, if◌then◌else◌, Bool-cases, Option-cases, leb→le, leb-false→lt,
  length, any, all, filter, contains, All, All-append, All-map, Error, invalid_configuration,
  value_error, key_error, index_error, type_error, attribute_error, runtime_error, yaml_error,
  retry_error, not_found, client_error, upsert_conflict, Result, ok, raise, ok-injective,
  guard-eq-ok, raise-ne-ok, Result-cases, Eff,
}
use fiaas_deploy_daemon.Base.Effect.{◌>>=◌, ◌>>◌, try_catch, throw, return}
use fiaas_deploy_daemon.Deployer.Spec.{AppSpec}
use fiaas_deploy_daemon.Deployer.Lifecycle.{
  Status, Subject, Event, signal, count_request, count_error, count_success, deployed, scheduled,
  Log, perform, increment, change, is_k8s_or_retry,
}

-- `DeployerEvent` of fiaas_deploy_daemon/deployer/__init__.py
pub record DeployerEvent : Type 0 where
  pub action : String
  pub app_spec : AppSpec
  pub lifecycle_subject : Subject

-- The answers of the rest of the program: of the signal's handlers, of `K8s.deploy`, and of
-- `Scheduler.add` with a new `ReadyCheck`.
module _ (send : Status → Subject → Log → Result (Unit {0}))
    (adapter_deploy : AppSpec → Log → Result (Unit {0}))
    (schedule : AppSpec → Subject → Log → Result (Unit {0})) where
  -- The body of the `try` of `_update`.
  unfoldable pub attempt : AppSpec → Subject → Eff Log (Unit {0})
  unfolding change
  attempt app_spec subject = do
    change send Status.started subject
    increment (count_request app_spec.name)
    perform (deployed app_spec) (adapter_deploy app_spec)
    if app_spec.name == "fiaas-deploy-daemon"
        then (do change send Status.success subject; increment (count_success app_spec.name))
        else perform (scheduled app_spec subject) (schedule app_spec subject)

  -- The `except` clause of `_update`.
  unfoldable pub give_up : AppSpec → Subject → Eff Log (Unit {0})
  unfolding change
  give_up app_spec subject = do
    try_catch (change send Status.failed subject)
        (λ e. if is_k8s_or_retry e then return tt else throw e)
    increment (count_error app_spec.name)

  -- `Deployer._update`
  unfoldable pub update : AppSpec → Subject → Eff Log (Unit {0})
  unfolding attempt give_up
  update app_spec subject = try_catch (attempt app_spec subject) (λ _. give_up app_spec subject)

  -- One round of the loop of `Deployer.__call__`.
  unfoldable pub handle_event : DeployerEvent → Eff Log (Unit {0})
  unfolding update
  handle_event event =
      if event.action == "UPDATE"
      then update event.app_spec event.lifecycle_subject
      else throw value_error
