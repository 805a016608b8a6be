-- ===== src/Tests.antt =====
-- Concrete inputs, tests of the definitions, and the theorems applied at those inputs.
pub mod Gate
pub mod Registries
pub mod Planning
pub mod Lifecycles
pub mod Policies
pub mod Tenancy
pub mod Injection
pub mod Organizing
pub mod Hierarchies
