-- ===== src/Usage/Tests.antt =====
-- The reports of a small deployment.
use fiaas_deploy_daemon.Base.{String, ◌≡◌, refl, none, some, List, [], ◌∷◌}
use fiaas_deploy_daemon.Usage.{UsageEvent, UsageConfig, handle_signal}
use fiaas_deploy_daemon.Usage.Laws.{Timed}
use fiaas_deploy_daemon.Deployer.Lifecycle.{Status}
use fiaas_deploy_daemon.Deployer.Sample.{subject}

abbrev event : String → String → UsageEvent
event status name = record {
  status = status;
  app_name = name;
  namespace = "default";
  deployment_id = "d12";
  repository = none;
}

abbrev config : UsageConfig
config = record {
  environment = "production";
  usage_reporting_cluster_name = some "cluster";
  usage_reporting_operator = none;
  usage_reporting_team = none;
}

abbrev between : List Timed
between = (event "STARTED" "other", "10:01") ∷ (event "FAILED" "other", "10:02") ∷ []

handle_signal_runs :
    handle_signal (handle_signal [] Status.initiated subject) Status.started subject
    ≡ event "STARTED" "shop" ∷ []
unfolding handle_signal
handle_signal_runs = refl
