-- ===== src/Reconciliation.antt =====
-- internal/reconciliation: freshness of leases, and the bounded trigger ingress.
pub mod Key
pub mod TrackedState
pub mod Tracker
pub mod Trigger
