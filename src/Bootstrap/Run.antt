-- ===== src/Bootstrap/Run.antt =====
-- `run` and `_deploy` of fiaas_deploy_daemon/bootstrap/bootstrapper.py. The state is the log of the
-- effects, and the collected statuses.
pub mod Queued
use fiaas_deploy_daemon.Base.{
  ℕ, String, Bool, Option, none, some, List, if◌then◌else◌, value_error, Result, ok, raise, Eff,
}
use fiaas_deploy_daemon.Base.Effect.{◌>>=◌, ◌>>◌, throw, return, for_each, lift}
use fiaas_deploy_daemon.Deployer.Spec.{AppSpec}
use fiaas_deploy_daemon.Deployer.Lifecycle.{
  Status, Subject, Log, queued, increment, change, initiate,
}
use fiaas_deploy_daemon.Crd.Watcher.{Application, deployment_id_of, is_invalid}
use fiaas_deploy_daemon.Bootstrap.{Statuses, store_status, wait_for_readiness}

abbrev pub State : Type 0
State = Log × Statuses

-- An effect on the log alone.
abbrev pub on_log : {A : Type 0} → Eff Log A → Eff State A
on_log m (log, statuses) = let (r, after) = m log in (r, (after, statuses))

-- `_store_status`
unfoldable pub store : String → Subject → Eff State (Unit {0})
unfolding store_status
store status subject (log, statuses) =
    (ok tt, (log, store_status statuses status subject.app_name subject.namespace))

-- The receivers of the signal are the handlers of statuses, which `send` stands for, and
-- `_store_status`; which of them is called first is not fixed.
module _ (send : Status → Subject → Log → Result (Unit {0})) (store_first : Bool)
    (spec_factory : Application → String → Result AppSpec) where
  -- A signal of the lifecycle, with the text of its status.
  abbrev signalled : {A : Type 0} → String → Subject → Eff Log A → Eff State A
  signalled status subject m =
      if store_first
      then (do store status subject; on_log m)
      else (do answer ← on_log m; store status subject; return answer)

  abbrev bootstrap_subject : Application → String → Subject
  bootstrap_subject app deployment_id = record {
    uid = app.uid;
    app_name = app.application;
    namespace = app.namespace;
    deployment_id = deployment_id;
    repository = none;
    labels = app.additional_labels_status;
    annotations = app.additional_annotations_status;
  }

  -- The last `try` of `_deploy`, with what the factory answers.
  unfoldable pub queue_or_fail : Subject → Result AppSpec → Eff State (Unit {0})
  unfolding store change
  queue_or_fail subject (ok app_spec) = do
    store "deploy_scheduled" subject
    on_log (increment (queued app_spec subject))
  queue_or_fail subject (raise e) =
      if is_invalid e
      then (do signalled "failed" subject (change send Status.failed subject); throw e)
      else throw e

  -- `_deploy` of an application with a deployment id.
  unfoldable pub bootstrap_with_id : Application → String → Eff State (Unit {0})
  unfolding initiate queue_or_fail
  bootstrap_with_id app deployment_id = do
    subject ← signalled "initiated" (bootstrap_subject app deployment_id) (
        initiate send app.uid app.application app.namespace deployment_id none
          app.additional_labels_status app.additional_annotations_status)
    queue_or_fail subject (spec_factory app deployment_id)

  -- `_deploy`
  unfoldable pub bootstrap : Application → Eff State (Unit {0})
  unfolding deployment_id_of bootstrap_with_id
  bootstrap app = elim (deployment_id_of app) [
    | none ↦ throw value_error
    | some deployment_id ↦ bootstrap_with_id app deployment_id
  ]

  -- The loop of `run`, over what the cluster finds; an exception ends it.
  unfoldable pub bootstrap_all : Result (List Application) → Eff State (Unit {0})
  unfolding bootstrap for_each
  bootstrap_all found = do applications ← lift found; for_each applications bootstrap

  -- `run`, with the clock and the collected statuses in each round of the wait, and its fuel.
  unfoldable pub run :
      (ℕ → ℕ) → (ℕ → Statuses) → ℕ → Result (List Application) → Eff State (Option Bool)
  unfolding bootstrap_all wait_for_readiness
  run time statuses fuel found = do
    bootstrap_all found
    return (wait_for_readiness time statuses fuel 120)
