-- ===== src/Authorization.antt =====
-- internal/authorization: exact decisions on a subject's requests, and the capabilities for those allowed.
pub mod Contracts
pub mod Enforcer
pub mod Batch
pub mod Minted
