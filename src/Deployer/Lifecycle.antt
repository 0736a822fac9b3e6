-- ===== src/Deployer/Lifecycle.antt =====
-- fiaas_deploy_daemon/lifecycle.py and fiaas_deploy_daemon/deployer/bookkeeper.py: the signals of a
-- deployment and its counters. Effects are kept in a log, in the order in which they were tried; what
-- an effect answers, an exception or a value, is any function of the log before it.
use fiaas_deploy_daemon.Base.{
  String, Bool, true, false, Option, List, [], ◌∷◌, ◌++◌, Error, retry_error, not_found,
  client_error, Result, ok, raise, Eff,
}
use fiaas_deploy_daemon.Base.Dict.{Dict}
use fiaas_deploy_daemon.Deployer.Spec.{AppSpec}

pub data Status : Type 0 where
  failed started success initiated : Status

pub record Subject : Type 0 where
  pub uid : String
  pub app_name : String
  pub namespace : String
  pub deployment_id : String
  pub repository : Option String
  pub labels : Option (Dict String)
  pub annotations : Option (Dict String)

pub data Event : Type 0 where
  signal : Status → Subject → Event
  count_request count_error count_success : String → Event
  deployed : AppSpec → Event
  scheduled : AppSpec → Subject → Event
  -- A `DeployerEvent` with the action UPDATE is put into the queue of the deployer.
  queued : AppSpec → Subject → Event

abbrev pub Log : Type 0
Log = List Event

-- An effect that is logged and then answers.
abbrev pub perform : {A : Type 0} → Event → (Log → Result A) → Eff Log A
perform e answer log = (answer log, log ++ (e ∷ []))

-- A counter, which never raises.
abbrev pub increment : Event → Eff Log (Unit {0})
increment e log = (ok tt, log ++ (e ∷ []))

-- The handlers that are connected to the signal, as the program has them: sending raises what they
-- raise.
module _ (send : Status → Subject → Log → Result (Unit {0})) where
  -- `Lifecycle.change`
  unfoldable pub change : Status → Subject → Eff Log (Unit {0})
  change status subject = perform (signal status subject) (send status subject)

  abbrev pub given : Subject → Result (Unit {0}) → Result Subject
  given subject (ok _) = ok subject
  given subject (raise e) = raise e

  -- `Lifecycle.initiate`
  unfoldable pub initiate :
      String
      → String
      → String
      → String
      → Option String
      → Option (Dict String)
      → Option (Dict String)
      → Eff Log Subject
  unfolding change
  initiate uid app_name namespace deployment_id repository labels annotations log =
      let subject : Subject = record {
        uid = uid;
        app_name = app_name;
        namespace = namespace;
        deployment_id = deployment_id;
        repository = repository;
        labels = labels;
        annotations = annotations;
      } in
      (given subject (send initiated subject log), log ++ (signal initiated subject ∷ []))

-- The exceptions that are K8sClientException or RetryError.
abbrev pub is_k8s_or_retry : Error → Bool
is_k8s_or_retry not_found = true
is_k8s_or_retry (client_error _) = true
is_k8s_or_retry retry_error = true
is_k8s_or_retry _ = false
