-- ===== src/Deployer/Kubernetes/Deployment.antt =====
-- fiaas_deploy_daemon/deployer/kubernetes/deployment: the Deployment of an application.
pub mod Types
pub mod Env
pub mod Pod
pub mod Parts
pub mod Datadog
pub mod Prometheus
pub mod Secrets
pub mod Deploy
pub mod Assemble
pub mod Mounts
pub mod SecretMounts
pub mod PodMounts
pub mod ProbeErrors
pub mod DeployErrors
pub mod EnvLaws
pub mod ScrapedPort
pub mod SecretCount
mod Tests
