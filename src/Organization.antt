-- ===== src/Organization.antt =====
-- The organization foundation, foundations/organization/src/businessos_organization.
pub mod Tables
pub mod Scopes
pub mod Lineage
pub mod Delegation
pub mod Structure
pub mod Hierarchy
pub mod Climb
pub mod Grants
