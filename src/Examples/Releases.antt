-- ===== src/Examples/Releases.antt =====
-- The theorems on reports, sweeps and releases of internal/repository, at a fleet.
use vulcan.Prelude.{◌≡◌, refl, [], ◌∷◌, arith, count_by}
use vulcan.Models.{WorkerStatus, AssignmentStatus}
use vulcan.Driver.{Db}
use vulcan.Repository.Workers.{release_workers_for_test, release_rows}
use vulcan.Repository.Rows.{worker_is}
use vulcan.Repository.Assignments.{runs, mark_assignment_completed, complete_rows}
use vulcan.Repository.Outcomes.{mark_assignment_completed_lem}
use vulcan.Repository.Releases.{release_workers_for_test_lem, release_workers_for_test_strips}
use vulcan.Examples.{worker, assignment, fleet, quiet, at}

-- The worker of t2 completes; the other one of its assignments runs on.
mark_assignment_completed_lem_example :
    count_by
      (runs "t2" "w3")
      (mark_assignment_completed quiet "t2" "w3" (at fleet)).1.db.assignments
    ≡ 0
mark_assignment_completed_lem_example =
    (mark_assignment_completed_lem quiet (at fleet) "t2" "w3"
      (unfold mark_assignment_completed complete_rows in refl)).1

-- The assignment of the OFFLINE w4 fails, and t2 with it.
release_workers_for_test_lem_example :
    (release_workers_for_test quiet "t2" (at fleet)).1.db.tests ≡ fleet.tests
release_workers_for_test_lem_example =
    (release_workers_for_test_lem quiet "t2" (at fleet)
      (unfold release_workers_for_test release_rows in refl)).3

-- w1 finished t2 long ago, and is held by t1 now.
abbrev held : Db
held = record {
  tests = fleet.tests;
  workers = worker "w1" "vulcan-auto-worker-1" WorkerStatus.reserved ∷ [];
  assignments =
      assignment "t1" "w1" AssignmentStatus.reserved
      ∷ assignment "t2" "w1" AssignmentStatus.completed
      ∷ [];
}

release_workers_for_test_strips_example :
    count_by
      (worker_is "w1" WorkerStatus.reserved)
      (release_workers_for_test quiet "t2" (at held)).1.db.workers
    ≡ 0
release_workers_for_test_strips_example =
    (release_workers_for_test_strips quiet "t2" (at held) "w1" "t1"
      (unfold release_workers_for_test release_rows in refl) refl refl (omega arith)).0
