-- ===== src/Deployer/Kubernetes/Deployment/Tests.antt =====
-- Runs of the Deployment's parts.
use fiaas_deploy_daemon.Deployer.Kubernetes.Deployment.DeployErrors.{
  PassesOthers, deploy_deployment-Untouched,
}
use fiaas_deploy_daemon.Base.{
  ℕ, suc, String, ◌≡◌, refl, ◌↔◌, ◌⊎◌, inl, true, false, none, some, List, [], ◌∷◌, Error,
  value_error, runtime_error, Result, ok, raise, Eff,
}
use fiaas_deploy_daemon.Base.Dict.{get}
use fiaas_deploy_daemon.Order.{IsSorted}
use fiaas_deploy_daemon.Deployer.Sample.{app}
use fiaas_deploy_daemon.Deployer.Text.{show}
use fiaas_deploy_daemon.Deployer.Integer.{pos, int}
use fiaas_deploy_daemon.Deployer.Spec.{AppSpec, version}
use fiaas_deploy_daemon.Deployer.Kubernetes.Api.{Metadata, ResourceApi}
use fiaas_deploy_daemon.Deployer.Kubernetes.Deployment.Types.{
  EnvVar, number, PodSpec, DeploymentSpec, Deployment, Settings,
}
use fiaas_deploy_daemon.Deployer.Kubernetes.Deployment.Env.{name_of, make_env}
use fiaas_deploy_daemon.Deployer.Kubernetes.Deployment.EnvLaws.{
  texts_named, as_list, expected, make_env-IsExpected,
}
use fiaas_deploy_daemon.Deployer.Kubernetes.Deployment.Pod.{Check, make_probe}
use fiaas_deploy_daemon.Deployer.Kubernetes.Deployment.ProbeErrors.{
  HasNoCheck, HasBadCommand, make_probe-errors,
}
use fiaas_deploy_daemon.Deployer.Kubernetes.Deployment.Assemble.{make_pod, decorate}
use fiaas_deploy_daemon.Deployer.Kubernetes.Deployment.Deploy.{deploy_deployment}
use fiaas_deploy_daemon.Deployer.Kubernetes.Deployment.Mounts.{IsMounted, make_pod-IsMounted}
use fiaas_deploy_daemon.Deployer.Kubernetes.Deployment.PodMounts.{decorate-IsMounted}
use fiaas_deploy_daemon.Deployer.Kubernetes.Deployment.Prometheus.{make_prometheus_annotations}
use fiaas_deploy_daemon.Deployer.Kubernetes.Deployment.ScrapedPort.{make_prometheus_annotations-int}
use fiaas_deploy_daemon.Deployer.Kubernetes.Deployment.Secrets.{Secret, apply_each}

abbrev settings : Settings
settings = record {
  pre_stop_delay = 1;
  use_in_memory_emptydirs = false;
  deployment_max_surge = number (pos 1);
  deployment_max_unavailable = number (pos 0);
  disable_deprecated_managed_env_vars = true;
  enable_service_account_per_app = false;
  enable_service_links = true;
  dns_search_domains = [];
  infrastructure = "diy";
  log_format = "plain";
  environment = some "dev";
  global_env = ("FIAAS_IMAGE", "wrong") ∷ ("A_KEY", "a value") ∷ [];
  datadog_container_image = some "datadog:1";
  datadog_container_memory = "2Gi";
  datadog_global_tags = ("team", "x") ∷ [];
  datadog_activate_sleep = true;
  secret_init_containers = ("parameter-store", "store:1") ∷ [];
  secrets_service_account_name = none;
  strongbox_init_container_image = none;
  secrets_init_container_image = some "vault:2";
}

abbrev secret : Secret
secret = record {
  secret_type = "parameter-store";
  parameters = ("REGION", "north") ∷ [];
  annotations = ("role", "shop") ∷ [];
}

abbrev two_secrets : List Secret
two_secrets = secret ∷ record secret { secret_type = "default" } ∷ []

abbrev full_app : AppSpec
full_app = record app { datadog = record { enabled = true; tags = [] }; secrets = two_secrets }

abbrev or_else : {A : Type 0} → A → Result A → A
or_else a (ok b) = b
or_else a (raise _) = a

abbrev no_pod : PodSpec
no_pod = record {
  containers = [];
  init_containers = [];
  volumes = [];
  service_account_name = "";
  automount_service_account_token = false;
  termination_grace_period_seconds = 0;
  enable_service_links = none;
  dns_searches = none;
}

some_pod : PodSpec
unfolding make_pod
some_pod = or_else no_pod (make_pod settings full_app)

some_env : List EnvVar
unfolding make_env
some_env = or_else [] (make_env settings app)

abbrev some_metadata : Metadata
some_metadata = record { name = "shop"; namespace = "default"; labels = []; annotations = [] }

abbrev some_deployment : PodSpec → ℕ → Deployment
some_deployment pod replicas = record {
  metadata = some_metadata;
  spec = record {
    replicas = replicas;
    selector = [];
    template_metadata = some_metadata;
    template_spec = pod;
    revision_history_limit = 5;
    strategy = record { max_unavailable = number (pos 0); max_surge = number (pos 1) };
  };
}

deployment_of : Deployment
unfolding some_pod
deployment_of = some_deployment some_pod 2

decorated : Deployment
unfolding decorate deployment_of
decorated = or_else deployment_of (decorate settings full_app false deployment_of)

make_pod-IsMounted_example : IsMounted full_app some_pod
unfolding some_pod make_pod
make_pod-IsMounted_example = make_pod-IsMounted settings full_app some_pod refl

make_env-IsExpected_example :
    IsSorted name_of some_env
    × ((k : String) → texts_named k some_env ≡ as_list (expected settings app "12" k))
unfolding some_env make_env version get
make_env-IsExpected_example =
    make_env-IsExpected settings app "12" some_env (refl, (refl, tt)) refl refl

decorate-IsMounted_example : IsMounted full_app decorated.spec.template_spec
unfolding decorated decorate deployment_of some_pod
decorate-IsMounted_example =
    decorate-IsMounted settings full_app false deployment_of decorated refl
      make_pod-IsMounted_example

abbrev command_check : String → Check
command_check command = record (app.health_checks.liveness) {
  tcp = none;
  execute = some (record { command = command });
}

make_probe-errors_example :
    ((make_probe (command_check "cat 'x") ≡ raise runtime_error)
      ↔ HasNoCheck (command_check "cat 'x"))
    × ((make_probe (command_check "cat 'x") ≡ raise value_error)
        ↔ HasBadCommand (command_check "cat 'x"))
    × ((e : Error)
        → make_probe (command_check "cat 'x") ≡ raise e
        → (e ≡ runtime_error) ⊎ (e ≡ value_error))
make_probe-errors_example = make_probe-errors (command_check "cat 'x")

-- A cluster whose state counts the calls.
abbrev counted : {A : Type 0} → A → Eff ℕ A
counted a n = (ok a, suc n)

abbrev cluster : ResourceApi ℕ DeploymentSpec Deployment
cluster = record {
  get_spec = λ name namespace. counted (some_deployment no_pod 3).spec;
  get_or_create = λ metadata spec. counted (record { metadata = metadata; spec = spec });
  apply_owner_references = λ deployment app_spec. counted deployment;
  apply_extension_hook = λ deployment app_spec. counted deployment;
  save = λ deployment. counted tt;
  delete = λ name namespace. counted tt;
}

abbrev no_retry : Eff ℕ (Unit {0}) → Eff ℕ (Unit {0})
no_retry func = func

no_retry-PassesOthers : PassesOthers no_retry
no_retry-PassesOthers func s t e raised other = raised

abbrev bad_app : AppSpec
bad_app = record app {
  health_checks = record { liveness = command_check "cat 'x"; readiness = command_check "cat x" };
}

deploy_deployment-Untouched_example :
    (deploy_deployment cluster settings no_retry bad_app [] [] false 7 ≡ (raise value_error, 7))
    × ((value_error ≡ runtime_error) ⊎ (value_error ≡ value_error))
unfolding make_pod
deploy_deployment-Untouched_example =
    deploy_deployment-Untouched cluster settings bad_app no_retry no_retry-PassesOthers [] [] false
      7 value_error refl

abbrev scaled_app : AppSpec
scaled_app = record app {
  resources = record app.resources { requests = record { cpu = some "1"; memory = none } };
}

abbrev scraped_app : AppSpec
scraped_app = record app {
  prometheus = record { enabled = true; port = "8080"; path = "/metrics" };
}

make_prometheus_annotations-int_example :
    (port : String) × (get (make_prometheus_annotations scraped_app) "prometheus.io/port"
      ≡ some port)
    × (int port ≡ some (pos 8080))
unfolding show
make_prometheus_annotations-int_example =
    make_prometheus_annotations-int scraped_app 8080 (inl refl)

with_secrets : Deployment
unfolding apply_each deployment_of
with_secrets = or_else deployment_of (apply_each settings full_app two_secrets deployment_of)
