-- ===== src/Specs.antt =====
-- fiaas_deploy_daemon/specs: from a fiaas.yml document to an application's specification.
pub mod Value
pub mod Models
pub mod Lookup
pub mod V3Factory
pub mod Defaults
pub mod SpecFactory
pub mod V2Transformer
mod Tests
