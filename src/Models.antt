-- ===== src/Models.antt =====
-- internal/models and internal/constants: tests, workers and the assignments that join them.
-- Times are numbers of a clock that the driver reads; `int` fields are ℤ, and the rate of an
-- assignment, which `distribute_rps` computes, is a native number.
use vulcan.Prelude.{ℕ, String, Bool, true, false, Option, ℤ}

pub data TestStatus : Type 0 where
  created starting running stopping stopped completed failed : TestStatus

pub data WorkerStatus : Type 0 where
  idle reserved running draining offline : WorkerStatus

pub data AssignmentStatus : Type 0 where
  reserved running completed failed : AssignmentStatus

pub record Test : Type 0 where
  pub id : String
  pub name : String
  pub status : TestStatus
  pub worker_count : ℤ
  pub target_url : String
  pub method : String
  pub duration_sec : ℤ
  pub rps : ℤ
  pub concurrency : ℤ
  pub created_at : ℕ
  pub updated_at : ℕ

pub record Worker : Type 0 where
  pub id : String
  pub hostname : String
  pub version : String
  pub status : WorkerStatus
  pub cpu_count : ℤ
  pub memory_mb : ℤ
  pub registered_at : ℕ
  pub last_heartbeat : ℕ
  pub updated_at : ℕ

-- A row of the table `test_workers`.
pub record Assignment : Type 0 where
  pub test_id : String
  pub worker_id : String
  pub status : AssignmentStatus
  pub assigned_at : ℕ
  pub started_at : Option ℕ
  pub completed_at : Option ℕ
  pub rps : ℕ

-- The tests `status = '...'` of the statements, and Go's `==` on a status.
abbrev pub test_status_eq : TestStatus → TestStatus → Bool
test_status_eq created created = true
test_status_eq starting starting = true
test_status_eq running running = true
test_status_eq stopping stopping = true
test_status_eq stopped stopped = true
test_status_eq completed completed = true
test_status_eq failed failed = true
test_status_eq _ _ = false

abbrev pub worker_status_eq : WorkerStatus → WorkerStatus → Bool
worker_status_eq idle idle = true
worker_status_eq reserved reserved = true
worker_status_eq running running = true
worker_status_eq draining draining = true
worker_status_eq offline offline = true
worker_status_eq _ _ = false

abbrev pub assignment_status_eq : AssignmentStatus → AssignmentStatus → Bool
assignment_status_eq reserved reserved = true
assignment_status_eq running running = true
assignment_status_eq completed completed = true
assignment_status_eq failed failed = true
assignment_status_eq _ _ = false

-- `status IN ('RESERVED', 'RUNNING')`.
abbrev pub is_live : AssignmentStatus → Bool
is_live reserved = true
is_live running = true
is_live _ = false
