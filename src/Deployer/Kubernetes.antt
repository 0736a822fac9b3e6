-- ===== src/Deployer/Kubernetes.antt =====
-- fiaas_deploy_daemon/deployer/kubernetes: which objects an application gets in the cluster, and
-- with which fields.
pub mod Api
pub mod Adapter
pub mod Labels
pub mod Autoscaler
pub mod DisruptionBudget
pub mod Service
pub mod RoleBinding
pub mod ServiceAccount
pub mod Deployment
mod Tests
