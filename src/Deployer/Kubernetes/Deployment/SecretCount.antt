-- ===== src/Deployer/Kubernetes/Deployment/SecretCount.antt =====
-- How many init containers and volumes `GenericInitSecrets.apply` of
-- fiaas_deploy_daemon/deployer/kubernetes/deployment/secrets.py adds to a pod.
use fiaas_deploy_daemon.Deployer.Kubernetes.Deployment.Types.{Deployment}
use fiaas_deploy_daemon.Base.{ℕ, ◌+◌, ◌≤◌, String, ◌<>◌, ◌≡◌, List, [], ◌∷◌, ◌==◌, if◌then◌else◌}
use fiaas_deploy_daemon.Deployer.Spec.{AppSpec}
use fiaas_deploy_daemon.Deployer.Kubernetes.Deployment.Types.{Volume, Container, PodSpec, Settings}
use fiaas_deploy_daemon.Deployer.Kubernetes.Deployment.Secrets.{Secret, init_name, supports}

abbrev pub containers_named : String → List Container → ℕ
containers_named name [] = 0
containers_named name (c ∷ cs) = (if c.name == name then 1 else 0) + containers_named name cs

abbrev pub volumes_named : String → List Volume → ℕ
volumes_named name [] = 0
volumes_named name (v ∷ vs) = (if v.name == name then 1 else 0) + volumes_named name vs

-- How many of the secrets have a type with an init container.
abbrev pub supported : Settings → List Secret → ℕ
supported config [] = 0
supported config (s ∷ secrets) =
    (if supports config s.secret_type then 1 else 0) + supported config secrets

-- So many more init containers, and at least so many more volumes for the secrets.
abbrev GrowsBy : AppSpec → ℕ → PodSpec → PodSpec → Type 0
GrowsBy app_spec n before after =
    (containers_named init_name after.init_containers
      ≡ containers_named init_name before.init_containers + n)
    × (volumes_named (app_spec.name <> "-secret") before.volumes + n
        ≤ volumes_named (app_spec.name <> "-secret") after.volumes)
