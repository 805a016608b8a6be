-- ===== src/Policy.antt =====
-- foundations/policy/src/businessos_policy: the policy engine.
pub mod Models
pub mod Delegation
pub mod Conditions
pub mod Roles
pub mod Evaluation
pub mod Decisions
