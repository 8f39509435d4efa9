-- ===== src/Autoscaler.antt =====
-- internal/autoscaler: the demand of the tests, and the reconciliation of the fleet with it.
pub mod Capacity
pub mod Reconciler
pub mod Kept
