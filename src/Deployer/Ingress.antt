-- ===== src/Deployer/Ingress.antt =====
-- fiaas_deploy_daemon/deployer/kubernetes/ingress.py: which ingresses an application gets, and their
-- TLS entries. The regular expressions of the host rewrite rules are functions.
pub mod Issuers
pub mod Hosts
pub mod Group
pub mod Partition
pub mod Names
pub mod Create
pub mod Keys
pub mod Pairs
pub mod Tls
pub mod Adapter
mod Tests
