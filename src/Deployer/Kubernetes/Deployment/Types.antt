-- ===== src/Deployer/Kubernetes/Deployment/Types.antt =====
-- The parts of a `Deployment` that fiaas_deploy_daemon/deployer/kubernetes/deployment fills in, with
-- the fields that the code gives. The classes are those of the package k8s.
use fiaas_deploy_daemon.Base.{ℕ, String, Bool, Option, List}
use fiaas_deploy_daemon.Base.Dict.{Dict}
use fiaas_deploy_daemon.Deployer.Integer.{ℤ}
use fiaas_deploy_daemon.Deployer.Kubernetes.Api.{Metadata}

-- `EnvVar.value`, or one of the sources of `EnvVar.valueFrom`.
pub data EnvValue : Type 0 where
  text : String → EnvValue
  field_ref : String → EnvValue
  resource_ref : String → String → EnvValue
  secret_key_ref : String → String → EnvValue

pub record EnvVar : Type 0 where
  pub name : String
  pub value : EnvValue

-- Each is optional.
pub data EnvFromSource : Type 0 where
  config_map_ref secret_ref : String → EnvFromSource

-- An empty directory is in memory or not. The others are optional.
pub data VolumeSource : Type 0 where
  config_map_source secret_source : String → VolumeSource
  empty_dir : Bool → VolumeSource

pub record Volume : Type 0 where
  pub name : String
  pub source : VolumeSource

pub record VolumeMount : Type 0 where
  pub name : String
  pub read_only : Bool
  pub mount_path : String

pub data Action : Type 0 where
  http_get : String → String → Dict String → Action
  tcp_socket : String → Action
  exec : List String → Action

pub record Probe : Type 0 where
  pub initial_delay_seconds : ℕ
  pub timeout_seconds : ℕ
  pub success_threshold : ℕ
  pub failure_threshold : ℕ
  pub period_seconds : ℕ
  pub action : Action

pub record ResourceRequirements : Type 0 where
  pub limits : Dict (Option String)
  pub requests : Dict (Option String)

pub record ContainerPort : Type 0 where
  pub name : String
  pub container_port : ℕ

-- `lifecycle` is the command of its preStop handler.
pub record Container : Type 0 where
  pub name : String
  pub image : String
  pub ports : List ContainerPort
  pub env : List EnvVar
  pub env_from : List EnvFromSource
  pub lifecycle : Option (List String)
  pub liveness_probe : Option Probe
  pub readiness_probe : Option Probe
  pub image_pull_policy : String
  pub volume_mounts : List VolumeMount
  pub resources : Option ResourceRequirements

pub record PodSpec : Type 0 where
  pub containers : List Container
  pub init_containers : List Container
  pub volumes : List Volume
  pub service_account_name : String
  pub automount_service_account_token : Bool
  pub termination_grace_period_seconds : ℕ
  pub enable_service_links : Option Bool
  pub dns_searches : Option (List String)

pub data IntOrText : Type 0 where
  number : ℤ → IntOrText
  text : String → IntOrText

pub record RollingUpdate : Type 0 where
  pub max_unavailable : IntOrText
  pub max_surge : IntOrText

pub record DeploymentSpec : Type 0 where
  pub replicas : ℕ
  pub selector : Dict String
  pub template_metadata : Metadata
  pub template_spec : PodSpec
  pub revision_history_limit : ℕ
  pub strategy : RollingUpdate

pub record Deployment : Type 0 where
  pub metadata : Metadata
  pub spec : DeploymentSpec

-- What `Configuration` of fiaas_deploy_daemon/config.py holds of the settings that are read here. No
-- delay is negative.
pub record Settings : Type 0 where
  pub pre_stop_delay : ℕ
  pub use_in_memory_emptydirs : Bool
  pub deployment_max_surge : IntOrText
  pub deployment_max_unavailable : IntOrText
  pub disable_deprecated_managed_env_vars : Bool
  pub enable_service_account_per_app : Bool
  pub enable_service_links : Bool
  pub dns_search_domains : List String
  pub infrastructure : String
  pub log_format : String
  pub environment : Option String
  pub global_env : Dict String
  pub datadog_container_image : Option String
  pub datadog_container_memory : String
  pub datadog_global_tags : Dict String
  pub datadog_activate_sleep : Bool
  pub secret_init_containers : Dict String
  pub secrets_service_account_name : Option String
  pub strongbox_init_container_image : Option String
  pub secrets_init_container_image : Option String
