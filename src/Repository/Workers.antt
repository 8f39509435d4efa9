-- ===== src/Repository/Workers.antt =====
-- internal/repository/worker_repository.go: the fleet, and the reservations of its workers.
use vulcan.Prelude.{
  ℕ, String, Bool, true, not, ◌&&◌, ◌||◌, Option, none, some, List, [], ◌∷◌, ◌++◌, ltb, ◌==◌,
  if◌then◌else◌, length, take, filter_by, any_by, sort_desc, map, ℤ, pos, pos_part, ltb_ℤ, str_eq,
}
use vulcan.Errors.{worker_not_found, insufficient_workers, message}
use vulcan.Models.{
  Test, Worker, WorkerStatus, Assignment, AssignmentStatus, TestStatus, worker_status_eq, is_live,
}
use vulcan.Driver.{
  Db, Env, M, ◌>>=◌, ◌>>◌, pure, throw, throw_if, wrapped, statement, statement_unless, begin,
  tx_statement, tx_statement_unless, commit,
}
use vulcan.Repository.Tests.{update_tests, set_status}
use vulcan.Repository.Rows.{
  any_id, workers_in, set_worker, worker_ids, update_workers, update_assignments, complete_row,
  fail_row, is_lost, is_broken,
}

abbrev pub find_worker : String → List Worker → Option Worker
find_worker id [] = none
find_worker id (w ∷ ws) = if str_eq w.id id then some w else find_worker id ws

abbrev pub worker_or_not_found : Option Worker → M Worker
worker_or_not_found none = throw worker_not_found
worker_or_not_found (some w) = pure w

-- CASE WHEN status IN ('RESERVED', 'DRAINING', 'OFFLINE') THEN status ELSE $1 END.
abbrev pub heartbeat_status : WorkerStatus → WorkerStatus → WorkerStatus
heartbeat_status WorkerStatus.reserved new = WorkerStatus.reserved
heartbeat_status WorkerStatus.draining new = WorkerStatus.draining
heartbeat_status WorkerStatus.offline new = WorkerStatus.offline
heartbeat_status _ new = new

abbrev pub beat : WorkerStatus → ℕ → Worker → Worker
beat new now w = record w {
  status = heartbeat_status w.status new;
  last_heartbeat = now;
  updated_at = now;
}

-- status != 'OFFLINE' AND last_heartbeat < $1.
abbrev pub is_dead : ℕ → Worker → Bool
is_dead cutoff w =
    not (worker_status_eq w.status WorkerStatus.offline) && ltb w.last_heartbeat cutoff

-- The rows that the reservation selects: IDLE, not locked by another, latest heartbeat first.
abbrev pub idle_rows : (Worker → Bool) → ℕ → List Worker → List Worker
idle_rows locked limit ws = take limit (
    sort_desc (λ w. w.last_heartbeat)
      (filter_by (λ w. worker_status_eq w.status WorkerStatus.idle && not (locked w)) ws))

-- The rows of the bulk INSERT: worker i with allocation i.
abbrev pub assignment_rows : String → ℕ → List Worker → List ℕ → List Assignment
assignment_rows test now [] shares = []
assignment_rows test now (w ∷ ws) [] = []
assignment_rows test now (w ∷ ws) (x ∷ shares) =
    record {
      test_id = test;
      worker_id = w.id;
      status = AssignmentStatus.reserved;
      assigned_at = now;
      started_at = none;
      completed_at = none;
      rps = x;
    }
    ∷ assignment_rows test now ws shares

-- The copies that are handed out carry the new status.
abbrev pub as_reserved : Worker → Worker
as_reserved w = record w { status = WorkerStatus.reserved }

-- The keys of `test_workers`: no test and worker joined before, and the test is there. With no row
-- to insert, the VALUES of the statement are empty, which is not SQL.
abbrev pub rejects_rows : String → List String → Db → Bool
rejects_rows test [] db = true
rejects_rows test (id ∷ ids) db =
    any_by (λ a. str_eq a.test_id test && any_id (id ∷ ids) a.worker_id) db.assignments
    || not (any_by (λ (t : Test). str_eq t.id test) db.tests)

module _ (env : Env) where
  unfoldable pub create_worker : Worker → M (Unit {0})
  create_worker w = wrapped "create worker" (
      statement_unless env (λ db. any_by (λ v. str_eq v.id w.id) db.workers)
        (λ now db. (tt, record db { workers = w ∷ db.workers })))

  unfoldable pub get_workers : M (List Worker)
  get_workers =
      wrapped "list workers"
        (statement env (λ now db. (sort_desc (λ w. w.registered_at) db.workers, db)))

  unfoldable pub get_worker_by_id : String → M Worker
  get_worker_by_id id = do
    row ← wrapped "get worker" (statement env (λ now db. (find_worker id db.workers, db)))
    worker_or_not_found row

  unfoldable pub update_heartbeat : String → WorkerStatus → M (Unit {0})
  update_heartbeat id status = do
    rows ←
        wrapped "update heartbeat"
          (statement env (update_workers (λ w. str_eq w.id id) (beat status)))
    throw_if (rows == 0) worker_not_found

  unfoldable pub mark_offline_workers : ℕ → M ℕ
  mark_offline_workers cutoff =
      wrapped "mark worker offline"
        (statement env (update_workers (is_dead cutoff) (set_worker WorkerStatus.offline)))

  -- What the reservation does with the rows that it has locked.
  unfoldable pub reserve_rows : String → ℤ → List ℕ → List Worker → M (List Worker)
  reserve_rows test count shares chosen = do
    throw_if (ltb_ℤ (pos (length chosen)) count) insufficient_workers
    wrapped "reserve workers" (
        tx_statement env (
          update_workers (λ w. any_id (worker_ids chosen) w.id) (set_worker WorkerStatus.reserved)))
    throw_if (not (length shares == length chosen))
        (message "rps allocation count does not match worker count")
    wrapped "create test-worker mappings" (
        tx_statement_unless env (rejects_rows test (worker_ids chosen)) (λ now db. (
          tt,
          record db { assignments = assignment_rows test now chosen shares ++ db.assignments },
        )))
    wrapped "commit reservation transaction" (commit env)
    pure (map as_reserved chosen)

  unfoldable pub reserve_workers_for_test : String → ℤ → List ℕ → M (List Worker)
  reserve_workers_for_test test count shares = do
    wrapped "begin reservation transaction" (begin env)
    chosen ← wrapped "lock idle workers" (λ c.
        tx_statement_unless env (λ _. ltb_ℤ count (pos 0))
          (λ now db. (idle_rows (env.locked c.calls) (pos_part count) db.workers, db)) c)
    reserve_rows test count shares chosen

  unfoldable pub release_rows : String → List String → M (Unit {0})
  release_rows test [] = commit env
  release_rows test (id ∷ ids) = do
    wrapped "release workers" (
        tx_statement env (
          update_workers (workers_in (id ∷ ids) WorkerStatus.reserved)
            (set_worker WorkerStatus.idle)))
    wrapped "complete test-worker assignments" (
        tx_statement env
          (update_assignments (λ a. str_eq a.test_id test && is_live a.status) complete_row))
    wrapped "commit release transaction" (commit env)

  unfoldable pub release_workers_for_test : String → M (Unit {0})
  unfolding release_rows
  release_workers_for_test test = do
    wrapped "begin release transaction" (begin env)
    ids ← wrapped "lock test-worker mappings" (
        tx_statement env (λ now db.
          (map (λ a. a.worker_id) (filter_by (λ a. str_eq a.test_id test) db.assignments), db)))
    release_rows test ids

  unfoldable pub mark_assignments_failed_for_offline_workers : M ℕ
  mark_assignments_failed_for_offline_workers = do
    wrapped "begin offline assignment reconciliation transaction" (begin env)
    affected ←
        wrapped "fail assignments for offline workers"
          (tx_statement env (λ now db. update_assignments (is_lost db.workers) fail_row now db))
    wrapped "fail tests for offline workers" (
        tx_statement env
          (λ now db. update_tests (is_broken db.assignments) (set_status TestStatus.failed) now db))
    wrapped "commit offline assignment reconciliation transaction" (commit env)
    pure affected

  unfoldable pub terminate_rows : List String → M (List String)
  terminate_rows [] = do wrapped "commit empty termination transaction" (commit env); pure []
  terminate_rows (id ∷ ids) = do
    wrapped "mark workers draining" (
        tx_statement env
          (update_workers (λ w. any_id (id ∷ ids) w.id) (set_worker WorkerStatus.draining)))
    wrapped "commit worker termination transaction" (commit env)
    pure (id ∷ ids)

  unfoldable pub terminate_idle_workers : List String → M (List String)
  unfolding terminate_rows
  terminate_idle_workers [] = pure []
  terminate_idle_workers (id ∷ ids) = do
    wrapped "begin worker termination transaction" (begin env)
    removable ← wrapped "lock idle workers for termination" (
        tx_statement env (λ now db.
          (worker_ids (filter_by (workers_in (id ∷ ids) WorkerStatus.idle) db.workers), db)))
    terminate_rows removable
