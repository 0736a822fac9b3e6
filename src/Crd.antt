-- ===== src/Crd.antt =====
-- fiaas_deploy_daemon/crd: the Application resources of the cluster and their statuses.
pub mod Watcher
pub mod Status
mod Tests
