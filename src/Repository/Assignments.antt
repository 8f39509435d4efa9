-- ===== src/Repository/Assignments.antt =====
-- internal/repository/assignment.go: what a worker reports of the test that it runs.
use vulcan.Prelude.{
  ℕ, String, Bool, true, false, ◌&&◌, Option, none, some, List, [], ◌∷◌, ◌==◌, if◌then◌else◌, ℤ,
  str_eq,
}
use vulcan.Errors.{test_not_found, assignment_not_found}
use vulcan.Models.{
  Test, TestStatus, WorkerStatus, Assignment, AssignmentStatus, assignment_status_eq, is_live,
}
use vulcan.Driver.{
  Env, M, ◌>>=◌, ◌>>◌, pure, throw, throw_if, wrapped, statement, begin, tx_statement, commit,
}
use vulcan.Repository.Tests.{find_test, has_status, set_status, update_tests}
use vulcan.Repository.Rows.{
  joins, worker_is, set_worker, update_workers, update_assignments, start_row, complete_row,
  fail_row, has_incomplete,
}

pub record AssignmentDetails : Type 0 where
  pub test_id : String
  pub worker_id : String
  pub status : AssignmentStatus
  pub assigned_at : ℕ
  pub started_at : Option ℕ
  pub completed_at : Option ℕ
  pub target_url : String
  pub method : String
  pub duration_sec : ℤ
  pub rps : ℕ
  pub concurrency : ℤ

abbrev pub details : Assignment → Test → AssignmentDetails
details a t = record {
  test_id = a.test_id;
  worker_id = a.worker_id;
  status = a.status;
  assigned_at = a.assigned_at;
  started_at = a.started_at;
  completed_at = a.completed_at;
  target_url = t.target_url;
  method = t.method;
  duration_sec = t.duration_sec;
  rps = a.rps;
  concurrency = t.concurrency;
}

abbrev pub joined : Assignment → Option Test → Option AssignmentDetails → Option AssignmentDetails
joined a none rest = rest
joined a (some t) rest = some (details a t)

-- test_workers JOIN tests WHERE worker_id = $1 AND status = 'RESERVED' LIMIT 1, in table order.
abbrev pub reserved_for : String → List Test → List Assignment → Option AssignmentDetails
reserved_for worker tests [] = none
reserved_for worker tests (a ∷ rows) =
    let rest = reserved_for worker tests rows in
    if str_eq a.worker_id worker && assignment_status_eq a.status AssignmentStatus.reserved
    then joined a (find_test a.test_id tests) rest
    else rest

-- A row that can be completed; one that can be failed.
abbrev pub runs : String → String → Assignment → Bool
runs test worker a = joins test worker a && assignment_status_eq a.status AssignmentStatus.running

abbrev pub waits : String → String → Assignment → Bool
waits test worker a = joins test worker a && assignment_status_eq a.status AssignmentStatus.reserved

abbrev pub lives : String → String → Assignment → Bool
lives test worker a = joins test worker a && is_live a.status

abbrev or_no_test : Option Test → M (Unit {0})
or_no_test none = throw test_not_found
or_no_test (some t) = pure tt

module _ (env : Env) where
  unfoldable pub get_reserved_assignment : String → M (Option AssignmentDetails)
  get_reserved_assignment worker =
      wrapped "get assignment"
        (statement env (λ now db. (reserved_for worker db.tests db.assignments, db)))

  unfoldable pub mark_assignment_running : String → String → M (Unit {0})
  mark_assignment_running test worker = do
    wrapped "begin assignment running transaction" (begin env)
    rows ←
        wrapped "mark assignment running"
          (tx_statement env (update_assignments (waits test worker) start_row))
    throw_if (rows == 0) assignment_not_found
    wrapped "update worker to running" (
        tx_statement env (
          update_workers (worker_is worker WorkerStatus.reserved)
            (set_worker WorkerStatus.running)))
    wrapped "commit assignment running transaction" (commit env)

  complete_if : Bool → String → M (Unit {0})
  complete_if true test = pure tt
  complete_if false test = do
    wrapped "mark test completed" (
        tx_statement env
          (update_tests (has_status test TestStatus.running) (set_status TestStatus.completed)))
    pure tt

  -- What the completion does once it holds the row of the test.
  unfoldable pub complete_rows : String → String → M (Unit {0})
  unfolding complete_if
  complete_rows test worker = do
    rows ←
        wrapped "mark assignment completed"
          (tx_statement env (update_assignments (runs test worker) complete_row))
    throw_if (rows == 0) assignment_not_found
    wrapped "update worker to idle" (
        tx_statement env
          (update_workers (worker_is worker WorkerStatus.running) (set_worker WorkerStatus.idle)))
    incomplete ←
        wrapped "check incomplete assignments"
          (tx_statement env (λ now db. (has_incomplete db.assignments test, db)))
    complete_if incomplete test
    wrapped "commit assignment completion transaction" (commit env)

  unfoldable pub mark_assignment_completed : String → String → M (Unit {0})
  mark_assignment_completed test worker = do
    wrapped "begin assignment completion transaction" (begin env)
    row ←
        wrapped "lock test for assignment completion"
          (tx_statement env (λ now db. (find_test test db.tests, db)))
    or_no_test row
    complete_rows test worker

  unfoldable pub mark_assignment_failed : String → String → M (Unit {0})
  mark_assignment_failed test worker = do
    wrapped "begin assignment failure transaction" (begin env)
    rows ←
        wrapped "mark assignment failed"
          (tx_statement env (update_assignments (lives test worker) fail_row))
    throw_if (rows == 0) assignment_not_found
    wrapped "mark test failed" (
        tx_statement env
          (update_tests (has_status test TestStatus.running) (set_status TestStatus.failed)))
    wrapped "commit assignment failure transaction" (commit env)
