-- ===== src/Modules.antt =====
-- platform/src/businessos/modules: manifests, the order of activation, upgrades and the lifecycle.
pub mod Packaging
pub mod Manifest
pub mod Ordering
pub mod Upgrade
pub mod Lifecycle
