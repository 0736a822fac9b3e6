-- ===== src/Deployer/Kubernetes/Deployment/Secrets.antt =====
-- fiaas_deploy_daemon/deployer/kubernetes/deployment/secrets.py
use fiaas_deploy_daemon.Base.{
  String, ◌<>◌, Bool, true, false, not, ◌&&◌, Option, none, some, List, [], ◌∷◌, ◌++◌, map,
  if◌then◌else◌, Result, ok, ◌>>=◌,
}
use fiaas_deploy_daemon.Base.Dict.{Dict, get, insert, merge_dicts}
use fiaas_deploy_daemon.Specs.Models.{SecretsSpec}
use fiaas_deploy_daemon.Deployer.Spec.{AppSpec}
use fiaas_deploy_daemon.Deployer.Kubernetes.Deployment.Types.{
  config_map_ref, secret_ref, config_map_source, secret_source, empty_dir, Volume, VolumeMount,
  Container, PodSpec, Deployment, Settings,
}
use fiaas_deploy_daemon.Deployer.Kubernetes.Deployment.Env.{given, text_var}
use fiaas_deploy_daemon.Deployer.Kubernetes.Deployment.Datadog.{join_commas}
use fiaas_deploy_daemon.Deployer.Kubernetes.Deployment.Parts.{
  on_pod, on_main, apply_mounts, apply_volumes, with_annotations,
}

abbrev pub Secret : Type 0
Secret = SecretsSpec String (Dict String)

-- `KubernetesSecrets._make_volumes`
unfoldable pub secret_volumes : AppSpec → List Volume
secret_volumes app_spec =
    (record { name = app_spec.name <> "-secret"; source = secret_source app_spec.name }) ∷ []

-- `KubernetesSecrets._make_volume_mounts`
unfoldable pub secret_mounts : AppSpec → Bool → List VolumeMount
secret_mounts app_spec is_init_container =
    (record {
      name = app_spec.name <> "-secret";
      read_only = not is_init_container;
      mount_path = "/var/run/secrets/fiaas/";
    })
    ∷ []

abbrev pub env_from_secret : AppSpec → Container → Container
env_from_secret app_spec main =
    if app_spec.secrets_in_environment
    then record main { env_from = main.env_from ++ (secret_ref app_spec.name ∷ []) }
    else main

-- `KubernetesSecrets.apply`
unfoldable pub apply_kubernetes : AppSpec → Deployment → Result Deployment
unfolding on_pod on_main apply_mounts apply_volumes secret_mounts secret_volumes
apply_kubernetes app_spec = on_pod (λ pod. do
  changed ←
      on_main (λ main. apply_mounts (secret_mounts app_spec false) (env_from_secret app_spec main))
        pod
  ok (apply_volumes (secret_volumes app_spec) changed))

-- An image is registered for a type that has none yet.
abbrev register : String → Option String → Dict String → Dict String
register secrets_type none containers = containers
register secrets_type (some image) containers = elim (get containers secrets_type) [
  | some _ ↦ containers
  | none ↦ insert containers secrets_type image
]

-- `_available_secrets_containers` of `GenericInitSecrets`
unfoldable pub available_containers : Settings → Dict String
unfolding get insert
available_containers config =
    register "default" config.secrets_init_container_image
      (register "strongbox" config.strongbox_init_container_image config.secret_init_containers)

abbrev is_registered : Option String → Bool
is_registered none = false
is_registered (some _) = true

-- `_automount_service_account_token` of `GenericInitSecrets`
unfoldable pub automounts_token : Settings → Bool
unfolding get
automounts_token config =
    is_registered config.secrets_init_container_image
    && not (
        is_registered (
          get
            (register "strongbox" config.strongbox_init_container_image
              config.secret_init_containers)
            "default"))

-- `GenericInitSecrets.supports`
unfoldable pub supports : Settings → String → Bool
unfolding available_containers get
supports config secrets_type = is_registered (get (available_containers config) secrets_type)

abbrev pub init_name : String
init_name = "fiaas-secrets-init-container"

-- `GenericInitSecrets._make_volumes`
unfoldable pub init_volumes : Settings → AppSpec → List Volume
init_volumes config app_spec =
    (record {
      name = app_spec.name <> "-secret";
      source = empty_dir config.use_in_memory_emptydirs;
    })
    ∷ (record { name = init_name <> "-config"; source = config_map_source init_name })
    ∷ []

-- `GenericInitSecrets._make_volume_mounts`
unfoldable pub init_mounts : AppSpec → Bool → List VolumeMount
unfolding secret_mounts
init_mounts app_spec is_init_container =
    secret_mounts app_spec is_init_container
    ++ (if is_init_container
        then (record {
          name = init_name <> "-config";
          read_only = true;
          mount_path = "/var/run/config/" <> (init_name <> "/");
        })
          ∷ (record {
            name = app_spec.name <> "-config";
            read_only = true;
            mount_path = "/var/run/config/fiaas/";
          })
          ∷ (record { name = "tmp"; read_only = false; mount_path = "/tmp" })
          ∷ []
        else [])

-- `GenericInitSecrets._make_secrets_init_container`
unfoldable pub make_init_container : AppSpec → String → Dict String → Container
unfolding insert init_mounts
make_init_container app_spec image env_vars = record {
  name = init_name;
  image = image;
  ports = [];
  env = map text_var (insert env_vars "K8S_DEPLOYMENT" app_spec.name);
  env_from = config_map_ref init_name ∷ [];
  lifecycle = none;
  liveness_probe = none;
  readiness_probe = none;
  image_pull_policy = "IfNotPresent";
  volume_mounts = init_mounts app_spec true;
  resources = none;
}

-- How `GenericInitSecrets.apply` changes the pod beside its volumes and the main container.
unfoldable pub add_init_container : Settings → Container → PodSpec → PodSpec
unfolding automounts_token
add_init_container config container pod = record pod {
  init_containers = pod.init_containers ++ (container ∷ []);
  service_account_name = elim (given config.secrets_service_account_name) [
    | none ↦ pod.service_account_name
    | some name ↦ name
  ];
  automount_service_account_token =
      if automounts_token config then true else pod.automount_service_account_token;
}

unfoldable pub add_secret : Settings → AppSpec → Secret → String → Deployment → Result Deployment
unfolding on_pod on_main apply_mounts apply_volumes init_mounts init_volumes make_init_container
    with_annotations merge_dicts add_init_container
add_secret config app_spec secret_spec image deployment = do
  let container = make_init_container app_spec image secret_spec.parameters
  changed ←
      on_pod
        (λ pod. do
          mounted ← on_main (apply_mounts (init_mounts app_spec false)) pod
          ok (
              apply_volumes (init_volumes config app_spec)
                (add_init_container config container mounted)))
        deployment
  ok (
      with_annotations
        (merge_dicts (deployment.spec.template_metadata.annotations ∷ secret_spec.annotations ∷ []))
        changed)

-- `GenericInitSecrets.apply`, which reads `containers[0]` before it looks the type up.
unfoldable pub apply_generic : Settings → AppSpec → Secret → Deployment → Result Deployment
unfolding available_containers get on_pod on_main add_secret
apply_generic config app_spec secret_spec deployment =
    on_pod (on_main (λ main. main)) deployment >>= (λ same.
      elim (get (available_containers config) secret_spec.secret_type) [
        | none ↦ ok same
        | some image ↦ add_secret config app_spec secret_spec image same
      ])

-- `_legacy_strongbox_secrets_spec`
unfoldable pub legacy_strongbox : AppSpec → Secret
unfolding join_commas
legacy_strongbox app_spec = record {
  secret_type = "strongbox";
  parameters =
      ("AWS_REGION", app_spec.strongbox.aws_region)
      ∷ ("SECRET_GROUPS", join_commas app_spec.strongbox.groups)
      ∷ [];
  annotations = ("iam.amazonaws.com/role", app_spec.strongbox.iam_role) ∷ [];
}

-- `_default_init_secret`
unfoldable pub default_init_secret : Secret
default_init_secret = record { secret_type = "default"; parameters = []; annotations = [] }

-- `secret_specs` of `Secrets.apply`
unfoldable pub secret_specs : Settings → AppSpec → List Secret
unfolding supports legacy_strongbox default_init_secret
secret_specs config app_spec = elim app_spec.secrets [
  | [] ↦
      if supports config "strongbox" && app_spec.strongbox.enabled
      then legacy_strongbox app_spec ∷ []
      else (if supports config "default" then default_init_secret ∷ [] else [])
  | s ∷ more ↦ s ∷ more
]

-- `for secret_spec in secret_specs`
unfoldable pub apply_each : Settings → AppSpec → List Secret → Deployment → Result Deployment
unfolding apply_generic
apply_each config app_spec [] deployment = ok deployment
apply_each config app_spec (s ∷ secrets) deployment =
    apply_generic config app_spec s deployment >>= apply_each config app_spec secrets

-- `Secrets.apply`
unfoldable pub apply_secrets : Settings → AppSpec → Deployment → Result Deployment
unfolding secret_specs apply_each apply_kubernetes
apply_secrets config app_spec deployment = elim (secret_specs config app_spec) [
  | [] ↦ apply_kubernetes app_spec deployment
  | s ∷ more ↦ apply_each config app_spec (s ∷ more) deployment
]
