-- ===== src/Service/Kept.antt =====
-- The operations of internal/service keep workers and assignments, if the autoscaler and the
-- provisioner that they ask do.
use vulcan.Prelude.{ℕ, zero, suc, String, Bool, true, false, Option, none, some, List, ℤ}
use vulcan.Errors.{Result, ok, err}
use vulcan.Models.{Test, TestStatus, WorkerStatus}
use vulcan.Driver.{Db, Env, Conn, M}
use vulcan.Validation.{Strings}
use vulcan.Repository.Kept.{
  StateKept, StateKept-trans, Keeps, OthersKeep, bind-Keeps, if-Keeps, pure-Keeps, keeps,
}
use vulcan.Repository.Workers.{get_workers}
use vulcan.Repository.Kept.Operations.{
  create_worker-Keeps, update_heartbeat-Keeps, reserve_workers_for_test-Keeps,
  release_workers_for_test-Keeps, mark_assignment_running-Keeps, mark_assignment_completed-Keeps,
  mark_assignment_failed-Keeps, create_test-Keeps, get_test_by_id-Keeps, update_status-Keeps,
  update_worker_count-Keeps, try_transition_status-Keeps, get_workers-Keeps,
  get_reserved_assignment-Keeps,
}
use vulcan.Service.Tests.{
  CreateTestRequest, TestService, submit_test, stop_unfinished, stop_test, wait_for_workers,
  ask_for_workers, ensure_workers_available, allocate_workers, or_roll_back, prepare_test,
  start_test,
}
use vulcan.Service.Workers.{
  RegisterWorkerRequest, register_worker, heartbeat, get_assignment, start_assignment,
  complete_assignment, fail_assignment,
}

-- The parts that a start asks for workers keep the state, where they are set.
abbrev pub CycleKeeps : Option (M (Unit {0})) → Type 0
CycleKeeps none = Unit
CycleKeeps (some m) = Keeps m

abbrev pub ProvisionKeeps : Option (ℤ → M (Unit {0})) → Type 0
ProvisionKeeps none = Unit
ProvisionKeeps (some p) = (n : ℤ) → Keeps (p n)

pub record ServiceKeeps (service : TestService) : Type 0 where
  pub cycle : CycleKeeps service.reconcile
  pub provision : ProvisionKeeps service.provision

module _ (env : Env) (rely : OthersKeep env) where
  module _ (strings : Strings) where
    pub submit_test-Keeps :
        (service : TestService) (id : String) (now : ℕ) (req : CreateTestRequest)
        → Keeps (submit_test env strings service id now req)
    unfolding submit_test
    submit_test-Keeps service id now req = search (keeps, create_test-Keeps env rely) depth 30

    pub register_worker-Keeps :
        (id : String) (now : ℕ) (req : RegisterWorkerRequest)
        → Keeps (register_worker env strings id now req)
    unfolding register_worker
    register_worker-Keeps id now req = search (keeps, create_worker-Keeps env rely) depth 30

  pub heartbeat-Keeps : (id : String) (status : WorkerStatus) → Keeps (heartbeat env id status)
  unfolding heartbeat
  heartbeat-Keeps id WorkerStatus.offline = search keeps
  heartbeat-Keeps id WorkerStatus.idle = update_heartbeat-Keeps env rely id WorkerStatus.idle
  heartbeat-Keeps id WorkerStatus.reserved =
      update_heartbeat-Keeps env rely id WorkerStatus.reserved
  heartbeat-Keeps id WorkerStatus.running = update_heartbeat-Keeps env rely id WorkerStatus.running
  heartbeat-Keeps id WorkerStatus.draining =
      update_heartbeat-Keeps env rely id WorkerStatus.draining

  pub get_assignment-Keeps : (worker : String) → Keeps (get_assignment env worker)
  unfolding get_assignment
  get_assignment-Keeps worker = search (keeps, get_reserved_assignment-Keeps env rely)

  pub start_assignment-Keeps : (test worker : String) → Keeps (start_assignment env test worker)
  unfolding start_assignment
  start_assignment-Keeps test worker = search (keeps, mark_assignment_running-Keeps env rely)

  pub complete_assignment-Keeps :
      (test worker : String) → Keeps (complete_assignment env test worker)
  unfolding complete_assignment
  complete_assignment-Keeps test worker = search (keeps, mark_assignment_completed-Keeps env rely)

  pub fail_assignment-Keeps : (test worker : String) → Keeps (fail_assignment env test worker)
  unfolding fail_assignment
  fail_assignment-Keeps test worker = search (keeps, mark_assignment_failed-Keeps env rely)

  module _ (service : TestService) (asked : ServiceKeeps service) where
    stop_unfinished-Keeps :
        (over : Bool) (id : String) (seen : TestStatus)
        → Keeps (stop_unfinished env service over id seen)
    unfolding stop_unfinished
    stop_unfinished-Keeps true id seen = search keeps
    stop_unfinished-Keeps false id seen = search (
      keeps,
      try_transition_status-Keeps env rely,
      release_workers_for_test-Keeps env rely,
      update_status-Keeps env rely,
    )

    pub stop_test-Keeps : (id : String) → Keeps (stop_test env service id)
    unfolding stop_test
    stop_test-Keeps id = search (keeps, get_test_by_id-Keeps env rely, stop_unfinished-Keeps)

    wait_for_workers-Keeps :
        (left : ℕ) (required : ℤ) → Keeps (wait_for_workers env service left required)
    unfolding wait_for_workers
    wait_for_workers-Keeps zero required = search (keeps, get_workers-Keeps env rely)
    wait_for_workers-Keeps (suc left) required =
        bind-Keeps (get_workers env) _ (get_workers-Keeps env rely)
          (λ ws. if-Keeps _ _ _ (wait_for_workers-Keeps left required) (pure-Keeps tt))

    ask_for_workers-Keeps :
        (r : Option (M (Unit {0}))) (p : Option (ℤ → M (Unit {0}))) (missing : ℤ)
        → CycleKeeps r
        → ProvisionKeeps p
        → Keeps (ask_for_workers env service r p missing)
    unfolding ask_for_workers
    ask_for_workers-Keeps (some m) p missing hr hp = hr
    ask_for_workers-Keeps none (some p) missing hr hp = hp missing
    ask_for_workers-Keeps none none missing hr hp = search keeps

    ensure_workers_available-Keeps :
        (required : ℤ) → Keeps (ensure_workers_available env service required)
    unfolding ensure_workers_available
    ensure_workers_available-Keeps required =
        bind-Keeps (get_workers env) _ (get_workers-Keeps env rely) (λ ws.
          if-Keeps _ _ _ (pure-Keeps tt) (
            bind-Keeps (ask_for_workers env service service.reconcile service.provision _) _
              (ask_for_workers-Keeps service.reconcile service.provision _ asked.cycle
                asked.provision)
              (λ _. wait_for_workers-Keeps service.ticks required)))

    allocate_workers-Keeps :
        (test : String) (count : ℤ) (shares : List ℕ)
        → Keeps (allocate_workers env service test count shares)
    unfolding allocate_workers
    allocate_workers-Keeps test count shares =
        search (keeps, reserve_workers_for_test-Keeps env rely)

    prepare_test-Keeps : (t : Test) → Keeps (prepare_test env service t)
    unfolding prepare_test
    prepare_test-Keeps t =
        search
          (
            keeps,
            update_worker_count-Keeps env rely,
            ensure_workers_available-Keeps,
            allocate_workers-Keeps,
          )
          depth 12

    rolled_back-Keeps :
        {A : Type 0} (id : String) (d : Db) (r : Result A × Conn)
        → StateKept d r.1.db
        → StateKept d (or_roll_back env service id r).1.db
    unfolding or_roll_back
    rolled_back-Keeps id d (ok a, c) h = h
    rolled_back-Keeps id d (err e, c) h = StateKept-trans d c.db _ h (
        (try_transition_status-Keeps env rely id TestStatus.starting TestStatus.created).keeps c
          h.fleet.keyed)

    or_roll_back-Keeps :
        {A : Type 0} (id : String) (m : M A)
        → Keeps m
        → Keeps (λ c. or_roll_back env service id (m c))
    or_roll_back-Keeps id m h = record {
      keeps = λ c k. rolled_back-Keeps id c.db (m c) (h.keeps c k);
    }

    pub start_test-Keeps : (id : String) → Keeps (start_test env service id)
    unfolding start_test
    start_test-Keeps id =
        search
          (
            keeps,
            get_test_by_id-Keeps env rely,
            try_transition_status-Keeps env rely,
            or_roll_back-Keeps,
            prepare_test-Keeps,
            update_status-Keeps env rely,
          )
          depth 12
