-- ===== src/Service.antt =====
-- internal/service: what the handlers of the control plane call.
pub mod Tests
pub mod Workers
pub mod Reads
pub mod Kept
