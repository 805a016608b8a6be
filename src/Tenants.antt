-- ===== src/Tenants.antt =====
-- foundations/tenant/src/businessos_tenant: the lifecycle, the entitlements and the quotas of tenants.
pub mod Periods
pub mod Tables
pub mod Hooks
pub mod Lifecycle
pub mod Steps
pub mod Consistency
pub mod Exports
pub mod Invariant
pub mod Work
