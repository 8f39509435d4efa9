-- ===== src/Repository/Rows.antt =====
-- The WHERE clauses and SET lists on the tables of workers and assignments, which the statements
-- of internal/repository/worker_repository.go and internal/repository/assignment.go share.
use vulcan.Prelude.{
  ℕ, String, Bool, not, ◌&&◌, some, List, any_by, count_by, update_where, str_eq, map,
}
use vulcan.Models.{
  Test, TestStatus, Worker, WorkerStatus, Assignment, AssignmentStatus, worker_status_eq,
  assignment_status_eq, test_status_eq, is_live,
}
use vulcan.Driver.{Db}

-- id = ANY($1).
abbrev pub any_id : List String → String → Bool
any_id ids id = any_by (λ i. str_eq i id) ids

abbrev pub worker_is : String → WorkerStatus → Worker → Bool
worker_is id from w = str_eq w.id id && worker_status_eq w.status from

abbrev pub workers_in : List String → WorkerStatus → Worker → Bool
workers_in ids from w = any_id ids w.id && worker_status_eq w.status from

abbrev pub set_worker : WorkerStatus → ℕ → Worker → Worker
set_worker to now w = record w { status = to; updated_at = now }

abbrev pub worker_ids : List Worker → List String
worker_ids ws = map (λ w. w.id) ws

abbrev pub update_workers : (Worker → Bool) → (ℕ → Worker → Worker) → ℕ → Db → ℕ × Db
update_workers p f now db =
    (count_by p db.workers, record db { workers = update_where p (f now) db.workers })

-- test_id = $1 AND worker_id = $2.
abbrev pub joins : String → String → Assignment → Bool
joins test worker a = str_eq a.test_id test && str_eq a.worker_id worker

abbrev pub update_assignments :
    (Assignment → Bool) → (ℕ → Assignment → Assignment) → ℕ → Db → ℕ × Db
update_assignments p f now db =
    (count_by p db.assignments, record db { assignments = update_where p (f now) db.assignments })

abbrev pub start_row : ℕ → Assignment → Assignment
start_row now a = record a { status = AssignmentStatus.running; started_at = some now }

abbrev pub complete_row : ℕ → Assignment → Assignment
complete_row now a = record a { status = AssignmentStatus.completed; completed_at = some now }

abbrev pub fail_row : ℕ → Assignment → Assignment
fail_row now a = record a { status = AssignmentStatus.failed; completed_at = some now }

-- The worker of the assignment is OFFLINE.
abbrev pub is_lost : List Worker → Assignment → Bool
is_lost ws a = any_by (worker_is a.worker_id WorkerStatus.offline) ws && is_live a.status

-- EXISTS (SELECT 1 FROM test_workers WHERE test_id = $1 AND status = ...).
abbrev pub has_assignment : AssignmentStatus → List Assignment → String → Bool
has_assignment status rows id =
    any_by (λ a. str_eq a.test_id id && assignment_status_eq a.status status) rows

abbrev pub has_incomplete : List Assignment → String → Bool
has_incomplete rows id =
    any_by
      (λ a. str_eq a.test_id id && not (assignment_status_eq a.status AssignmentStatus.completed))
      rows

-- t.status = 'RUNNING' AND EXISTS a failed assignment of it.
abbrev pub is_broken : List Assignment → Test → Bool
is_broken rows t =
    test_status_eq t.status TestStatus.running && has_assignment AssignmentStatus.failed rows t.id
