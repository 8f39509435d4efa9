-- ===== src/Examples/Starts.antt =====
-- The theorems on claims, reservations, starts and stops, at a fleet.
use vulcan.Prelude.{
  ◌≡◌, ◌≢◌, refl, ◌⊎◌, true, ◌&&◌, none, List, [], ◌∷◌, arith, count_by, map, sort_desc, add64,
  sub64, quot64, pos, str_eq,
}
use vulcan.Errors.{ok, insufficient_workers}
use vulcan.Models.{Test, TestStatus, Worker, WorkerStatus, is_live}
use vulcan.Driver.{Conn}
use vulcan.Rps.{required_workers, distribute_rps}
use vulcan.Repository.Workers.{
  reserve_workers_for_test, reserve_rows, as_reserved, release_workers_for_test, release_rows,
  get_workers,
}
use vulcan.Repository.Tests.{
  has_status, try_transition_status, get_test_by_id, update_status, update_worker_count,
}
use vulcan.Repository.Tables.{Pointwise}
use vulcan.Repository.Effects.{chosen_at}
use vulcan.Repository.Reservations.{
  HandedOut, reserve_workers_for_test_lem, reserve_workers_for_test_enough,
}
use vulcan.Repository.Claims.{try_transition_status_once}
use vulcan.Service.Tests.{
  TestService, prepare_test, start_test, stop_test, stop_unfinished, is_finished,
  ensure_workers_available, allocate_workers,
}
use vulcan.Service.Tests.Start.{prepare_test_lem, start_test_rolls_back}
use vulcan.Service.Tests.Stop.{stop_test_lem, not_stopped}
use vulcan.Examples.{worker, test, fleet, quiet, at, two_idle}

reserve_workers_for_test_lem_example :
    Pointwise
      (HandedOut (as_reserved (worker "w1" "vulcan-auto-worker-1" WorkerStatus.idle) ∷ []))
      fleet.workers
      (reserve_workers_for_test quiet "t1" (pos 1) (150 ∷ []) (at fleet)).1.db.workers
reserve_workers_for_test_lem_example =
    let (_, _, _, _, _, _, table, _, _, _, _) =
      reserve_workers_for_test_lem quiet "t1" 1 (150 ∷ []) (at fleet)
        {ws = as_reserved (worker "w1" "vulcan-auto-worker-1" WorkerStatus.idle) ∷ []}
        (unfold reserve_workers_for_test reserve_rows sort_desc in refl) in
    table

reserve_workers_for_test_enough_example :
    (reserve_workers_for_test quiet "t1" (pos 2) (75 ∷ 75 ∷ []) (at fleet)).0
    ≡ ok (map as_reserved (chosen_at quiet (pos 2) (at fleet)))
unfolding sort_desc
reserve_workers_for_test_enough_example =
    reserve_workers_for_test_enough quiet (λ k. refl) "t1" 2 (75 ∷ 75 ∷ []) (at fleet) (omega arith)
      refl refl

try_transition_status_once_example :
    (try_transition_status quiet "t1" TestStatus.created TestStatus.starting
      (try_transition_status quiet "t1" TestStatus.created TestStatus.starting (at fleet)).1).0
    ≢ ok true
try_transition_status_once_example =
    try_transition_status_once quiet "t1" TestStatus.created TestStatus.starting (at fleet) refl
      (unfold try_transition_status in refl) refl

abbrev claimed : Conn
claimed = (try_transition_status quiet "t1" TestStatus.created TestStatus.starting (at fleet)).1

abbrev service : TestService
service = record { worker_capacity_rps = pos 100; reconcile = none; provision = none; ticks = 60 }

-- Too small a worker: three are needed, two are IDLE, and nobody can be asked for more.
abbrev small_service : TestService
small_service = record {
  worker_capacity_rps = pos 50;
  reconcile = none;
  provision = none;
  ticks = 60;
}

prepare_test_lem_example :
    (found : List Worker) × Pointwise
      (HandedOut (map as_reserved two_idle))
      found
      (prepare_test quiet service (test "t1" TestStatus.created) (at fleet)).1.db.workers
prepare_test_lem_example =
    let (at', _, _, _, _, _, _, _, table, _, _, _, _, _) =
      prepare_test_lem quiet service (test "t1" TestStatus.created) (at fleet) 150 100
        {ws = map as_reserved two_idle} refl refl (omega arith) (omega arith) (omega arith)
        (unfold prepare_test required_workers distribute_rps update_worker_count
            ensure_workers_available get_workers allocate_workers reserve_workers_for_test
            reserve_rows sort_desc add64 sub64 quot64 in
          refl) in
    (at'.db.workers, table)

start_test_rolls_back_example :
    count_by
      (has_status "t1" TestStatus.starting)
      (start_test quiet small_service "t1" (at fleet)).1.db.tests
    ≡ 0
unfolding get_test_by_id try_transition_status prepare_test required_workers update_worker_count
    ensure_workers_available get_workers sort_desc add64 sub64 quot64
start_test_rolls_back_example =
    (start_test_rolls_back quiet small_service "t1" (test "t1" TestStatus.created)
      insufficient_workers (at fleet) (get_test_by_id quiet "t1" (at fleet)).1
      (try_transition_status quiet "t1" TestStatus.created TestStatus.starting
        (get_test_by_id quiet "t1" (at fleet)).1).1
      (prepare_test quiet small_service (test "t1" TestStatus.created)
        (try_transition_status quiet "t1" TestStatus.created TestStatus.starting
          (get_test_by_id quiet "t1" (at fleet)).1).1).1
      refl refl refl refl).1

stop_test_lem_example :
    ((t : Test) × ((get_test_by_id quiet "t2" (at fleet)).0 ≡ ok t)
      × (is_finished quiet service t.status ≡ true)
      × ((stop_test quiet service "t2" (at fleet)).1.db ≡ fleet))
    ⊎ ((count_by (not_stopped "t2") (stop_test quiet service "t2" (at fleet)).1.db.tests ≡ 0)
        × (count_by
              (λ a. str_eq a.test_id "t2" && is_live a.status)
              (stop_test quiet service "t2" (at fleet)).1.db.assignments
            ≡ 0))
stop_test_lem_example =
    stop_test_lem quiet service (λ n d. refl) "t2" (at fleet)
      (unfold stop_test stop_unfinished is_finished get_test_by_id try_transition_status
          release_workers_for_test release_rows update_status in
        refl)
