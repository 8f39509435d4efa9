-- ===== src/Repository.antt =====
-- internal/repository: the statements on the three tables, and the transactions made of them.
pub mod Tests
pub mod Rows
pub mod Workers
pub mod Assignments
pub mod Atomic
pub mod Effects
pub mod Tables
pub mod Keys
pub mod History
pub mod Fleet
pub mod Ledger
pub mod Kept
pub mod Outcomes
pub mod Reservations
pub mod Claims
pub mod Releases
