-- ===== src/Deployer/Kubernetes/Deployment/Pod.antt =====
-- The pod of an application, of fiaas_deploy_daemon/deployer/kubernetes/deployment/deployer.py.
use fiaas_deploy_daemon.Base.{
  ℕ, ◌+◌, String, ◌<>◌, Bool, true, false, not, ◌&&◌, ◌||◌, Option, none, some, List, [], ◌∷◌, map,
  ◌==◌, ltb, if◌then◌else◌, runtime_error, Result, ok, raise, ◌>>=◌,
}
use fiaas_deploy_daemon.Base.Dict.{Dict, update, merge_dicts}
use fiaas_deploy_daemon.Specs.Models.{
  ResourceRequirementSpec, ResourcesSpec, PortSpec, CheckSpec, ExecCheckSpec, HttpCheckSpec,
  TcpCheckSpec,
}
use fiaas_deploy_daemon.Deployer.Spec.{AppSpec}
use fiaas_deploy_daemon.Deployer.Text.{show}
use fiaas_deploy_daemon.Deployer.Shlex.{shlex_split}
use fiaas_deploy_daemon.Deployer.Kubernetes.Api.{Metadata}
use fiaas_deploy_daemon.Deployer.Kubernetes.Deployment.Types.{
  Volume, config_map_source, empty_dir, VolumeMount, Action, http_get, tcp_socket, exec, Probe,
  ResourceRequirements, ContainerPort, Container, EnvVar, config_map_ref, PodSpec, Settings,
}

-- `t in s` of texts
starts_with : String → String → Bool
starts_with String.[] s = true
starts_with (String.◌∷◌ c t) String.[] = false
starts_with (String.◌∷◌ c t) (String.◌∷◌ d s) =
    String.◌∷◌ c String.[] == String.◌∷◌ d String.[] && starts_with t s

unfoldable pub is_inside : String → String → Bool
unfolding starts_with
is_inside t String.[] = starts_with t ""
is_inside t (String.◌∷◌ c s) = starts_with t (String.◌∷◌ c s) || is_inside t s

-- `pull_policy`: an image with a tag other than latest need not be pulled again.
unfoldable pub pull_policy : String → String
unfolding is_inside
pull_policy image =
    if is_inside ":" image && not (is_inside ":latest" image) then "IfNotPresent" else "Always"

-- `self._lifecycle`
unfoldable pub lifecycle : ℕ → Option (List String)
unfolding show
lifecycle delay = if ltb 0 delay then some ("sleep" ∷ show delay ∷ []) else none

-- `self._grace_period`
unfoldable pub grace_period : ℕ → ℕ
grace_period delay = 30 + (if ltb 0 delay then delay else 0)

-- `_make_volumes`
unfoldable pub make_volumes : Settings → AppSpec → List Volume
make_volumes config app_spec =
    (record { name = app_spec.name <> "-config"; source = config_map_source app_spec.name })
    ∷ (record { name = "tmp"; source = empty_dir config.use_in_memory_emptydirs })
    ∷ []

-- `_make_volume_mounts`
unfoldable pub make_volume_mounts : AppSpec → List VolumeMount
make_volume_mounts app_spec =
    (record {
      name = app_spec.name <> "-config";
      read_only = true;
      mount_path = "/var/run/config/fiaas/";
    })
    ∷ (record { name = "tmp"; read_only = false; mount_path = "/tmp" })
    ∷ []

-- `_add_status_label`
unfoldable pub add_status_label : Dict String → Dict String
unfolding update
add_status_label labels = update labels (("fiaas/status", "active") ∷ [])

abbrev as_dict : ResourceRequirementSpec (Option String) → Dict (Option String)
as_dict spec = ("cpu", spec.cpu) ∷ ("memory", spec.memory) ∷ []

-- `_make_resource_requirements`
unfoldable pub make_resource_requirements : ResourcesSpec (Option String) → ResourceRequirements
make_resource_requirements resources_spec = record {
  limits = as_dict resources_spec.limits;
  requests = as_dict resources_spec.requests;
}

abbrev pub Check : Type 0
Check = CheckSpec String ℕ (Dict String)

unfoldable pub action_of :
    Option (HttpCheckSpec String (Dict String))
    → Option (TcpCheckSpec String)
    → Option (ExecCheckSpec String)
    → Result Action
unfolding shlex_split
action_of (some http) _ _ = ok (http_get http.path http.port http.http_headers)
action_of none (some tcp) _ = ok (tcp_socket tcp.port)
action_of none none (some execute) = shlex_split execute.command >>= (λ command. ok (exec command))
action_of none none none = raise runtime_error

-- The probe of a check with what it does.
abbrev pub probe_with : Check → Action → Probe
probe_with check_spec action = record {
  initial_delay_seconds = check_spec.initial_delay_seconds;
  timeout_seconds = check_spec.timeout_seconds;
  success_threshold = check_spec.success_threshold;
  failure_threshold = check_spec.failure_threshold;
  period_seconds = check_spec.period_seconds;
  action = action;
}

-- `_make_probe`
unfoldable pub make_probe : Check → Result Probe
unfolding action_of
make_probe check_spec =
    action_of check_spec.http check_spec.tcp check_spec.execute
    >>= (λ action. ok (probe_with check_spec action))

abbrev container_port : PortSpec String ℕ → ContainerPort
container_port port_spec = record { name = port_spec.name; container_port = port_spec.target_port }

-- The one container of the pod that `deploy` makes, with its probes.
unfoldable pub container_with : Settings → AppSpec → List EnvVar → Probe → Probe → Container
unfolding lifecycle pull_policy make_volume_mounts make_resource_requirements
container_with config app_spec env liveness readiness = record {
  name = app_spec.name;
  image = app_spec.image;
  ports = map container_port app_spec.ports;
  env = env;
  env_from = config_map_ref app_spec.name ∷ [];
  lifecycle = lifecycle config.pre_stop_delay;
  liveness_probe = some liveness;
  readiness_probe = some readiness;
  image_pull_policy = pull_policy app_spec.image;
  volume_mounts = make_volume_mounts app_spec;
  resources = some (make_resource_requirements app_spec.resources);
}

unfoldable pub main_container : Settings → AppSpec → List EnvVar → Result Container
unfolding make_probe container_with
main_container config app_spec env = make_probe app_spec.health_checks.liveness >>= (λ liveness.
    make_probe app_spec.health_checks.readiness
    >>= (λ readiness. ok (container_with config app_spec env liveness readiness)))

abbrev some_if_any : List String → Option (List String)
some_if_any [] = none
some_if_any domains = some domains

-- `pod_spec` of `deploy`
unfoldable pub make_pod_spec : Settings → AppSpec → Container → PodSpec
unfolding make_volumes grace_period
make_pod_spec config app_spec container = record {
  containers = container ∷ [];
  init_containers = [];
  volumes = make_volumes config app_spec;
  service_account_name = if config.enable_service_account_per_app then app_spec.name else "default";
  automount_service_account_token = app_spec.admin_access;
  termination_grace_period_seconds = grace_period config.pre_stop_delay;
  enable_service_links = if config.enable_service_links then none else some false;
  dns_searches = some_if_any config.dns_search_domains;
}

-- `pod_metadata` of `deploy`
unfoldable pub make_pod_metadata : AppSpec → Dict String → Metadata
unfolding add_status_label merge_dicts
make_pod_metadata app_spec labels = record {
  name = app_spec.name;
  namespace = app_spec.namespace;
  labels = merge_dicts (app_spec.labels.pod ∷ add_status_label labels ∷ []);
  annotations = app_spec.annotations.pod;
}
