-- ===== src/Deployer/Kubernetes/Deployment/Env.antt =====
-- The environment variables of an application's container, of
-- fiaas_deploy_daemon/deployer/kubernetes/deployment/deployer.py.
use fiaas_deploy_daemon.Base.{
  String, ◌<>◌, Option, none, some, List, [], ◌∷◌, ◌++◌, map, ◌==◌, if◌then◌else◌, Result, ok,
  ◌>>=◌,
}
use fiaas_deploy_daemon.Base.Dict.{Dict, update, merge_dicts}
use fiaas_deploy_daemon.Order.{sort_by}
use fiaas_deploy_daemon.Deployer.Spec.{AppSpec, version}
use fiaas_deploy_daemon.Deployer.Kubernetes.Deployment.Types.{
  EnvVar, text, field_ref, resource_ref, Settings,
}

-- A setting that is missing or empty counts as false.
abbrev pub given : Option String → Option String
given none = none
given (some s) = if s == "" then none else some s

abbrev pub env_of_environment : Option String → Dict String
env_of_environment none = []
env_of_environment (some environment) =
    ("FINN_ENV", environment)
    ∷ ("FIAAS_ENVIRONMENT", environment)
    ∷ ("CONSTRETTO_TAGS", "kubernetes-" <> (environment <> (",kubernetes," <> environment)))
    ∷ []

abbrev pub fixed_env : Settings → Dict String
fixed_env config =
    ("FIAAS_INFRASTRUCTURE", config.infrastructure)
    ∷ ("LOG_STDOUT", "true")
    ∷ ("LOG_FORMAT", config.log_format)
    ∷ ("CONSTRETTO_TAGS", "kubernetes")
    ∷ []

-- `_build_fiaas_env`
unfoldable pub build_fiaas_env : Settings → Dict String
unfolding update
build_fiaas_env config = update (fixed_env config) (env_of_environment (given config.environment))

abbrev pub prefixed : String × String → String × String
prefixed (k, v) = ("FIAAS_" <> k, v)

-- `_build_global_env`
unfoldable pub build_global_env : Dict String → Dict String
unfolding update
build_global_env global_env = update global_env (map prefixed global_env)

abbrev deprecated_env : AppSpec → String → Dict String
deprecated_env app_spec app_version =
    ("ARTIFACT_NAME", app_spec.name) ∷ ("IMAGE", app_spec.image) ∷ ("VERSION", app_version) ∷ []

-- `fiaas_managed_env` of `_make_env`
unfoldable pub managed_env : Settings → AppSpec → String → Dict String
unfolding update
managed_env config app_spec app_version =
    let env : Dict String =
      ("FIAAS_ARTIFACT_NAME", app_spec.name)
      ∷ ("FIAAS_IMAGE", app_spec.image)
      ∷ ("FIAAS_VERSION", app_version)
      ∷ [] in
    if config.disable_deprecated_managed_env_vars
    then env
    else update env (deprecated_env app_spec app_version)

-- `static_env` of `_make_env`
unfoldable pub static_env : Settings → AppSpec → String → Dict String
unfolding build_fiaas_env build_global_env managed_env merge_dicts
static_env config app_spec app_version = merge_dicts (
    build_fiaas_env config
    ∷ build_global_env config.global_env
    ∷ managed_env config app_spec app_version
    ∷ [])

abbrev resource_var : AppSpec → String → String → EnvVar
resource_var app_spec name resource = record {
  name = name;
  value = resource_ref app_spec.name resource;
}

-- The variables that `_make_env` takes from the downward API.
unfoldable pub downward_env : AppSpec → List EnvVar
downward_env app_spec =
    resource_var app_spec "FIAAS_REQUESTS_CPU" "requests.cpu"
    ∷ resource_var app_spec "FIAAS_REQUESTS_MEMORY" "requests.memory"
    ∷ resource_var app_spec "FIAAS_LIMITS_CPU" "limits.cpu"
    ∷ resource_var app_spec "FIAAS_LIMITS_MEMORY" "limits.memory"
    ∷ (record { name = "FIAAS_NAMESPACE"; value = field_ref "metadata.namespace" })
    ∷ (record { name = "FIAAS_POD_NAME"; value = field_ref "metadata.name" })
    ∷ []

abbrev pub text_var : String × String → EnvVar
text_var (name, value) = record { name = name; value = text value }

abbrev pub name_of : EnvVar → String
name_of x = x.name

-- `_make_env`
unfoldable pub make_env : Settings → AppSpec → Result (List EnvVar)
unfolding static_env downward_env sort_by version
make_env config app_spec = version app_spec >>= (λ app_version. ok (
    sort_by name_of
      (map text_var (static_env config app_spec app_version) ++ downward_env app_spec)))
