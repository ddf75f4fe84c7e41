-- ===== src/Admission.antt =====
-- internal/admission: the validation of proposed objects.
pub mod Limits
pub mod Budgets
pub mod Fits
pub mod Profiles
pub mod Resolved
pub mod Contracts
pub mod Policies
pub mod Answers
