-- ===== src/Usage.antt =====
-- fiaas_deploy_daemon/usage_reporting: the reports of usage_reporter.py and transformer.py. Sending a
-- report is a request to another service.
pub mod Laws
mod Tests
use fiaas_deploy_daemon.Base.{
  String, Bool, ◌&&◌, Option, none, some, List, [], ◌∷◌, ◌++◌, ◌==◌, if◌then◌else◌, contains,
  key_error, Result, ok, raise, ◌>>=◌,
}
use fiaas_deploy_daemon.PairDict.{find, put, drop}
use fiaas_deploy_daemon.Deployer.Text.{take_text}
use fiaas_deploy_daemon.Deployer.Lifecycle.{Status, Subject}

-- `UsageEvent`, with the status in capitals.
pub record UsageEvent : Type 0 where
  pub status : String
  pub app_name : String
  pub namespace : String
  pub deployment_id : String
  pub repository : Option String

abbrev event_of : String → Subject → UsageEvent
event_of status subject = record {
  status = status;
  app_name = subject.app_name;
  namespace = subject.namespace;
  deployment_id = subject.deployment_id;
  repository = subject.repository;
}

-- `UsageReporter._handle_signal`: the queue of events.
unfoldable pub handle_signal : List UsageEvent → Status → Subject → List UsageEvent
handle_signal queue Status.started subject = queue ++ (event_of "STARTED" subject ∷ [])
handle_signal queue Status.success subject = queue ++ (event_of "SUCCESS" subject ∷ [])
handle_signal queue Status.failed subject = queue ++ (event_of "FAILED" subject ∷ [])
handle_signal queue Status.initiated subject = queue

-- What the transformer takes from the configuration.
pub record UsageConfig : Type 0 where
  pub environment : String
  pub usage_reporting_cluster_name : Option String
  pub usage_reporting_operator : Option String
  pub usage_reporting_team : Option String

-- `_deployments_started`: timestamps by the name and the deployment id.
abbrev pub Started : Type 0
Started = List ((String × String) × String)

-- `target` of a report
pub record Target : Type 0 where
  pub infrastructure : Option String
  pub provider : Option String
  pub team : Option String
  pub instance : String

-- `DevhoseDeploymentEvent`, without the fields that are the same in all reports.
pub record Report : Type 0 where
  pub id : String
  pub application : String
  pub environment : String
  pub repository : Option String
  pub started_at : String
  pub timestamp : String
  pub target : Target
  pub status : String
  pub details_environment : String
  pub team : Option String

-- `_environment`
unfoldable pub short_environment : String → String
short_environment env = if contains ("dev" ∷ "pre" ∷ "pro" ∷ []) env then env else "other"

-- `status_map`
unfoldable pub status_map : String → Result String
status_map status =
    if status == "STARTED"
    then ok "in_progress"
    else (if status == "SUCCESS"
        then ok "succeeded"
        else (if status == "FAILED" then ok "failed" else raise key_error))

abbrev pub key_of : UsageEvent → String × String
key_of event = (event.app_name, event.deployment_id)

-- `started_at`; a timestamp is not empty.
unfoldable pub started_at : Started → UsageEvent → String → String
started_at started event timestamp =
    if event.status == "STARTED"
    then timestamp
    else (elim (find started (key_of event)) [ none ↦ timestamp | some t ↦ t ])

-- What the call leaves in `_deployments_started`.
unfoldable pub started_after : Started → UsageEvent → String → Started
unfolding put drop
started_after started event timestamp =
    if event.status == "STARTED"
    then put started (key_of event) timestamp
    else drop started (key_of event)

-- The report of an event at a time, with its status.
unfoldable pub report_with : UsageConfig → Started → UsageEvent → String → String → Report
unfolding started_at short_environment take_text
report_with config started event timestamp status = record {
  id = event.deployment_id;
  application = event.app_name;
  environment = short_environment (take_text 3 config.environment);
  repository = event.repository;
  started_at = started_at started event timestamp;
  timestamp = timestamp;
  target = record {
    infrastructure = config.usage_reporting_cluster_name;
    provider = config.usage_reporting_cluster_name;
    team = config.usage_reporting_operator;
    instance = event.namespace;
  };
  status = status;
  details_environment = config.environment;
  team = config.usage_reporting_team;
}

-- `DevhoseDeploymentEventTransformer.__call__`, at a time
unfoldable pub transform : UsageConfig → Started → UsageEvent → String → Result Report × Started
unfolding report_with started_after status_map
transform config started event timestamp = (
  status_map event.status >>= (λ status. ok (report_with config started event timestamp status)),
  started_after started event timestamp,
)
