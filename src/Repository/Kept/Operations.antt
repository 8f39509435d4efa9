-- ===== src/Repository/Kept/Operations.antt =====
-- Every operation of internal/repository keeps workers and assignments.
use vulcan.Prelude.{ℕ, String, Option, none, some, List, ℤ}
use vulcan.Models.{Test, TestStatus, Worker, WorkerStatus}
use vulcan.Driver.{Env, Conn}
use vulcan.Repository.Keys.{Keyed}
use vulcan.Repository.Tests.{
  create_test, get_tests, get_test_by_id, update_status, update_worker_count, try_transition_status,
  or_not_found,
}
use vulcan.Repository.Workers.{
  create_worker, get_workers, worker_or_not_found, get_worker_by_id, update_heartbeat,
  mark_offline_workers, reserve_workers_for_test, release_workers_for_test, terminate_idle_workers,
  mark_assignments_failed_for_offline_workers,
}
use vulcan.Repository.Assignments.{
  get_reserved_assignment, mark_assignment_running, mark_assignment_completed,
  mark_assignment_failed,
}
use vulcan.Repository.History.{
  Op, register, beats, expire, reserve, release, start, complete, fail, sweep, terminate, perform,
}
use vulcan.Repository.Fleet.Steps.{perform-FleetKept}
use vulcan.Repository.Ledger.Steps.{perform-LedgerKept}
use vulcan.Repository.Kept.{StateKept, Keeps, OthersKeep, statement-Keeps, keeps}

module _ (env : Env) (rely : OthersKeep env) where
  performed : (op : Op) (c : Conn) → Keyed c.db.workers → StateKept c.db (perform env op c).db
  performed op c k = record {
    fleet = perform-FleetKept env rely.fleet op c k;
    ledger = perform-LedgerKept env rely.ledger op c;
  }

  pub create_worker-Keeps : (w : Worker) → Keeps (create_worker env w)
  unfolding perform
  create_worker-Keeps w = record { keeps = performed (register w) }

  pub update_heartbeat-Keeps :
      (id : String) (status : WorkerStatus) → Keeps (update_heartbeat env id status)
  unfolding perform
  update_heartbeat-Keeps id status = record { keeps = performed (beats id status) }

  pub mark_offline_workers-Keeps : (cutoff : ℕ) → Keeps (mark_offline_workers env cutoff)
  unfolding perform
  mark_offline_workers-Keeps cutoff = record { keeps = performed (expire cutoff) }

  pub reserve_workers_for_test-Keeps :
      (test : String) (count : ℤ) (shares : List ℕ)
      → Keeps (reserve_workers_for_test env test count shares)
  unfolding perform
  reserve_workers_for_test-Keeps test count shares = record {
    keeps = performed (reserve test count shares);
  }

  pub release_workers_for_test-Keeps : (test : String) → Keeps (release_workers_for_test env test)
  unfolding perform
  release_workers_for_test-Keeps test = record { keeps = performed (release test) }

  pub mark_assignment_running-Keeps :
      (test worker : String) → Keeps (mark_assignment_running env test worker)
  unfolding perform
  mark_assignment_running-Keeps test worker = record { keeps = performed (start test worker) }

  pub mark_assignment_completed-Keeps :
      (test worker : String) → Keeps (mark_assignment_completed env test worker)
  unfolding perform
  mark_assignment_completed-Keeps test worker = record { keeps = performed (complete test worker) }

  pub mark_assignment_failed-Keeps :
      (test worker : String) → Keeps (mark_assignment_failed env test worker)
  unfolding perform
  mark_assignment_failed-Keeps test worker = record { keeps = performed (fail test worker) }

  pub sweep-Keeps : Keeps (mark_assignments_failed_for_offline_workers env)
  unfolding perform
  sweep-Keeps = record { keeps = performed sweep }

  pub terminate_idle_workers-Keeps : (ids : List String) → Keeps (terminate_idle_workers env ids)
  unfolding perform
  terminate_idle_workers-Keeps ids = record { keeps = performed (terminate ids) }

  pub create_test-Keeps : (t : Test) → Keeps (create_test env t)
  unfolding create_test
  create_test-Keeps t = search (keeps, statement-Keeps env rely)

  pub get_tests-Keeps : Keeps (get_tests env)
  unfolding get_tests
  get_tests-Keeps = search (keeps, statement-Keeps env rely)

  or_not_found-Keeps : (row : Option Test) → Keeps (or_not_found row)
  or_not_found-Keeps none = search keeps
  or_not_found-Keeps (some t) = search keeps

  pub get_test_by_id-Keeps : (id : String) → Keeps (get_test_by_id env id)
  unfolding get_test_by_id
  get_test_by_id-Keeps id = search (keeps, statement-Keeps env rely, or_not_found-Keeps)

  pub update_status-Keeps :
      (id : String) (status : TestStatus) → Keeps (update_status env id status)
  unfolding update_status
  update_status-Keeps id status = search (keeps, statement-Keeps env rely)

  pub update_worker_count-Keeps : (id : String) (n : ℤ) → Keeps (update_worker_count env id n)
  unfolding update_worker_count
  update_worker_count-Keeps id n = search (keeps, statement-Keeps env rely)

  pub try_transition_status-Keeps :
      (id : String) (from to : TestStatus) → Keeps (try_transition_status env id from to)
  unfolding try_transition_status
  try_transition_status-Keeps id from to = search (keeps, statement-Keeps env rely)

  pub get_workers-Keeps : Keeps (get_workers env)
  unfolding get_workers
  get_workers-Keeps = search (keeps, statement-Keeps env rely)

  worker_or_not_found-Keeps : (row : Option Worker) → Keeps (worker_or_not_found row)
  worker_or_not_found-Keeps none = search keeps
  worker_or_not_found-Keeps (some w) = search keeps

  pub get_worker_by_id-Keeps : (id : String) → Keeps (get_worker_by_id env id)
  unfolding get_worker_by_id
  get_worker_by_id-Keeps id = search (keeps, statement-Keeps env rely, worker_or_not_found-Keeps)

  pub get_reserved_assignment-Keeps : (worker : String) → Keeps (get_reserved_assignment env worker)
  unfolding get_reserved_assignment
  get_reserved_assignment-Keeps worker = search (keeps, statement-Keeps env rely)
