-- ===== src/Deployer.antt =====
-- fiaas_deploy_daemon/deployer: from a specification to objects in the cluster.
pub mod Spec
pub mod Sample
pub mod Text
pub mod Shlex
pub mod Integer
pub mod IntegerLaws
pub mod Decimal
pub mod Ingress
pub mod Lifecycle
pub mod ReadyCheck
pub mod Scheduler
pub mod Update
pub mod Waiting
mod Tests
pub mod Kubernetes
