-- ===== src/Deployer/Sample.antt =====
-- A small application for the tests of the deployers.
use fiaas_deploy_daemon.Base.{ℕ, String, true, false, Option, none, some, [], ◌∷◌}
use fiaas_deploy_daemon.Base.Dict.{Dict}
use fiaas_deploy_daemon.Specs.Models.{CheckSpec, LabelAndAnnotationSpec, ResourceRequirementSpec}
use fiaas_deploy_daemon.Deployer.Spec.{AppSpec, Item}
use fiaas_deploy_daemon.Deployer.Lifecycle.{Subject}

abbrev tcp_check : CheckSpec String ℕ (Dict String)
tcp_check = record {
  execute = none;
  http = none;
  tcp = some (record { port = "http" });
  initial_delay_seconds = 10;
  period_seconds = 10;
  success_threshold = 1;
  failure_threshold = 3;
  timeout_seconds = 1;
}

abbrev no_labels : LabelAndAnnotationSpec String
no_labels = record {
  deployment = [];
  horizontal_pod_autoscaler = [];
  ingress = [];
  service = [];
  service_account = [];
  pod = [];
  status = [];
  pod_disruption_budget = [];
  role_binding = [];
}

abbrev no_resource : ResourceRequirementSpec (Option String)
no_resource = record { cpu = none; memory = none }

-- An item on all hosts, and one on a host of its own.
abbrev pub everywhere : Item
everywhere = record {
  host = none;
  pathmappings = (record { path = "/"; port = 80 }) ∷ [];
  annotations = [];
}

abbrev pub on_host : String → Item
on_host host = record {
  host = some host;
  pathmappings = (record { path = "/"; port = 80 }) ∷ [];
  annotations = [];
}

abbrev pub annotated_host : String → Item
annotated_host host = record {
  host = some host;
  pathmappings = (record { path = "/api"; port = 80 }) ∷ [];
  annotations = ("some/annotation", "yes") ∷ [];
}

abbrev pub app : AppSpec
app = record {
  uid = "c1f34517";
  namespace = "default";
  name = "shop";
  image = "registry/shop:12";
  autoscaler = record {
    enabled = true;
    min_replicas = 2;
    max_replicas = 5;
    cpu_threshold_percentage = 50;
  };
  resources = record { limits = no_resource; requests = no_resource };
  admin_access = false;
  secrets_in_environment = false;
  prometheus = record { enabled = false; port = "http"; path = "/metrics" };
  datadog = record { enabled = false; tags = [] };
  ports = (record { protocol = "http"; name = "http"; port = 80; target_port = 8080 }) ∷ [];
  health_checks = record { liveness = tcp_check; readiness = tcp_check };
  teams = [];
  tags = [];
  deployment_id = "d12";
  labels = no_labels;
  annotations = no_labels;
  ingresses = everywhere ∷ on_host "own.example.com" ∷ annotated_host "api.example.com" ∷ [];
  strongbox = record { enabled = false; iam_role = ""; aws_region = ""; groups = [] };
  singleton = false;
  ingress_tls = record { enabled = some true; certificate_issuer = none };
  secrets = [];
}

abbrev pub subject : Subject
subject = record {
  uid = "c1f34517";
  app_name = "shop";
  namespace = "default";
  deployment_id = "d12";
  repository = none;
  labels = none;
  annotations = none;
}
