-- ===== src/Service/Workers.antt =====
-- internal/service/worker_service.go, assignment.go and assignment_transition.go: workers
-- register, report, and hand their assignments on.
use vulcan.Prelude.{ℕ, String, Option, ℤ, pos, leb_ℤ}
use vulcan.Errors.{invalid}
use vulcan.Models.{Worker, WorkerStatus}
use vulcan.Driver.{Env, M, ◌>>◌, pure, throw, throw_if, lift, wrapped}
use vulcan.Validation.{Strings, require}
use vulcan.Repository.Workers.{create_worker, update_heartbeat}
use vulcan.Repository.Assignments.{
  AssignmentDetails, get_reserved_assignment, mark_assignment_running, mark_assignment_completed,
  mark_assignment_failed,
}

pub record RegisterWorkerRequest : Type 0 where
  pub hostname : String
  pub version : String
  pub cpu_count : ℤ
  pub memory_mb : ℤ

module _ (env : Env) (strings : Strings) where
  open strings use {trim_space}

  unfoldable pub new_worker : String → ℕ → RegisterWorkerRequest → Worker
  new_worker id now req = record {
    id = id;
    hostname = trim_space req.hostname;
    version = trim_space req.version;
    status = WorkerStatus.idle;
    cpu_count = req.cpu_count;
    memory_mb = req.memory_mb;
    registered_at = now;
    last_heartbeat = now;
    updated_at = now;
  }

  unfoldable pub register_worker : String → ℕ → RegisterWorkerRequest → M Worker
  unfolding new_worker
  register_worker id now req = do
    lift (require strings "hostname" (trim_space req.hostname))
    lift (require strings "version" (trim_space req.version))
    throw_if (leb_ℤ req.cpu_count (pos 0)) (invalid "cpu_count" "must be greater than 0")
    throw_if (leb_ℤ req.memory_mb (pos 0)) (invalid "memory_mb" "must be greater than 0")
    create_worker env (new_worker id now req)
    pure (new_worker id now req)

module _ (env : Env) where
  -- A worker may report every status but OFFLINE.
  unfoldable pub heartbeat : String → WorkerStatus → M (Unit {0})
  heartbeat id WorkerStatus.offline = throw (invalid "status" "invalid worker status")
  heartbeat id status = update_heartbeat env id status

  unfoldable pub get_assignment : String → M (Option AssignmentDetails)
  get_assignment worker = wrapped "get worker assignment" (get_reserved_assignment env worker)

  unfoldable pub start_assignment : String → String → M (Unit {0})
  start_assignment test worker =
      wrapped "start assignment" (mark_assignment_running env test worker)

  unfoldable pub complete_assignment : String → String → M (Unit {0})
  complete_assignment test worker =
      wrapped "complete assignment" (mark_assignment_completed env test worker)

  unfoldable pub fail_assignment : String → String → M (Unit {0})
  fail_assignment test worker = wrapped "fail assignment" (mark_assignment_failed env test worker)
