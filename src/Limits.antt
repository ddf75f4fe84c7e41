-- ===== src/Limits.antt =====
-- internal/limits: the manager-wide limit profile and the byte accountant.
pub mod Profile
pub mod Defaults
pub mod Resolve
pub mod Settings
pub mod Within
pub mod Accountant
