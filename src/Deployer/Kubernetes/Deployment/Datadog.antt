-- ===== src/Deployer/Kubernetes/Deployment/Datadog.antt =====
-- fiaas_deploy_daemon/deployer/kubernetes/deployment/datadog.py
use fiaas_deploy_daemon.Base.{
  ℕ, String, ◌<>◌, Bool, ◌&&◌, none, some, List, [], ◌∷◌, ◌++◌, map, ltb, if◌then◌else◌, type_error,
  Result, ok, raise, ◌>>=◌,
}
use fiaas_deploy_daemon.Base.Dict.{Dict, update, insert}
use fiaas_deploy_daemon.Order.{sort_by}
use fiaas_deploy_daemon.Deployer.Spec.{AppSpec}
use fiaas_deploy_daemon.Deployer.Text.{show}
use fiaas_deploy_daemon.Deployer.Kubernetes.Deployment.Types.{
  EnvVar, secret_key_ref, ResourceRequirements, Container, PodSpec, Deployment, Settings,
}
use fiaas_deploy_daemon.Deployer.Kubernetes.Deployment.Env.{text_var, name_of}
use fiaas_deploy_daemon.Deployer.Kubernetes.Deployment.Pod.{pull_policy}
use fiaas_deploy_daemon.Deployer.Kubernetes.Deployment.Parts.{on_pod, on_main}

-- `",".join(xs)`
unfoldable pub join_commas : List String → String
join_commas [] = ""
join_commas (x ∷ []) = x
join_commas (x ∷ y ∷ xs) = x <> ("," <> join_commas (y ∷ xs))

-- `tags` of `_create_datadog_container`
unfoldable pub tags_of : Settings → AppSpec → Dict String
unfolding update insert
tags_of config app_spec =
    insert
      (insert (update (update [] config.datadog_global_tags) app_spec.datadog.tags) "app"
        app_spec.name)
      "k8s_namespace" app_spec.namespace

abbrev tag_key : String × String → String
tag_key (k, v) = k

abbrev tag_text : String × String → String
tag_text (k, v) = k <> (":" <> v)

-- `dd_tags` of `_create_datadog_container`
unfoldable pub dd_tags : Settings → AppSpec → String
unfolding tags_of sort_by join_commas
dd_tags config app_spec = join_commas (map tag_text (sort_by tag_key (tags_of config app_spec)))

abbrev resources_of : Settings → Bool → ResourceRequirements
resources_of config besteffort_qos_is_required =
    if besteffort_qos_is_required then (record { limits = []; requests = [] }) else (record {
      limits = ("cpu", some "400m") ∷ ("memory", some config.datadog_container_memory) ∷ [];
      requests = ("cpu", some "200m") ∷ ("memory", some config.datadog_container_memory) ∷ [];
    })

-- `":" not in image` raises where no image is configured.
abbrev pub configured_image : Settings → Result String
configured_image config = elim config.datadog_container_image [
  | none ↦ raise type_error
  | some image ↦ ok image
]

-- The container of `_create_datadog_container` with an image.
unfoldable pub datadog_container : Settings → AppSpec → Bool → ℕ → String → Container
unfolding dd_tags pull_policy show
datadog_container config app_spec besteffort_qos_is_required pre_stop_delay image = record {
  name = "fiaas-datadog-container";
  image = image;
  ports = [];
  env =
      text_var ("DD_TAGS", dd_tags config app_spec)
      ∷ (record { name = "DD_API_KEY"; value = secret_key_ref "datadog" "apikey" })
      ∷ text_var ("NON_LOCAL_TRAFFIC", "false")
      ∷ text_var ("DD_LOGS_STDOUT", "yes")
      ∷ text_var ("DD_EXPVAR_PORT", "42622")
      ∷ text_var ("DD_CMD_PORT", "42623")
      ∷ [];
  env_from = [];
  lifecycle =
      if ltb 0 pre_stop_delay && config.datadog_activate_sleep
      then some ("sleep" ∷ show pre_stop_delay ∷ [])
      else none;
  liveness_probe = none;
  readiness_probe = none;
  image_pull_policy = pull_policy image;
  volume_mounts = [];
  resources = some (resources_of config besteffort_qos_is_required);
}

-- `_create_datadog_container`
unfoldable pub create_datadog_container : Settings → AppSpec → Bool → ℕ → Result Container
unfolding datadog_container
create_datadog_container config app_spec besteffort_qos_is_required pre_stop_delay =
    configured_image config >>= (λ image.
      ok (datadog_container config app_spec besteffort_qos_is_required pre_stop_delay image))

-- `_get_env_vars`
unfoldable pub get_env_vars : List EnvVar
get_env_vars = text_var ("STATSD_HOST", "localhost") ∷ text_var ("STATSD_PORT", "8125") ∷ []

unfoldable pub with_statsd : Container → Container
unfolding sort_by get_env_vars
with_statsd main = record main { env = sort_by name_of (main.env ++ get_env_vars) }

abbrev pub add_container : Container → PodSpec → PodSpec
add_container container pod = record pod { containers = pod.containers ++ (container ∷ []) }

-- How `DataDog.apply` changes the pod.
unfoldable pub add_datadog : Settings → AppSpec → Bool → ℕ → PodSpec → Result PodSpec
unfolding create_datadog_container on_main with_statsd
add_datadog config app_spec besteffort_qos_is_required pre_stop_delay pod =
    on_main with_statsd pod >>= (λ changed.
      create_datadog_container config app_spec besteffort_qos_is_required pre_stop_delay
      >>= (λ container. ok (add_container container changed)))

-- `DataDog.apply`
unfoldable pub apply_datadog : Settings → AppSpec → Bool → ℕ → Deployment → Result Deployment
unfolding add_datadog on_pod
apply_datadog config app_spec besteffort_qos_is_required pre_stop_delay deployment =
    if app_spec.datadog.enabled
    then on_pod (add_datadog config app_spec besteffort_qos_is_required pre_stop_delay) deployment
    else ok deployment
