-- ===== src/AccessPolicy.antt =====
-- internal/accesspolicy: the installation policy, its validation, its compiled form and its decisions.
pub mod Policy
pub mod Validate
pub mod Compile
pub mod Evaluate
mod Items
pub mod Wellformed
pub mod Permits
pub mod Decisions
pub mod Load
pub mod Loaded
