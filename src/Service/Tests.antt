-- ===== src/Service/Tests.antt =====
-- internal/service/test_service.go, with internal/scheduler/scheduler.go that it starts tests
-- through: a test is created, started and stopped.
pub mod Start
pub mod Stop
use vulcan.Prelude.{
  ℕ, zero, suc, String, Bool, true, false, not, ◌&&◌, ◌||◌, Option, none, some, List, [], ◌∷◌, ltb,
  if◌then◌else◌, count_by, ℤ, pos, leb_ℤ, ltb_ℤ, sub64, str_eq,
}
use vulcan.Errors.{
  Error, validation, insufficient_workers, invalid_test_state, deadline_exceeded, Result, ok, err,
}
use vulcan.Models.{Test, TestStatus, Worker, WorkerStatus, test_status_eq, worker_status_eq}
use vulcan.Driver.{Env, Conn, M, ◌>>=◌, ◌>>◌, pure, throw, throw_if, lift, wrapped}
use vulcan.Validation.{Strings, require}
use vulcan.Rps.{required_workers, distribute_rps}
use vulcan.Repository.Tests.{
  create_test, get_test_by_id, update_status, update_worker_count, try_transition_status,
}
use vulcan.Repository.Workers.{get_workers, reserve_workers_for_test, release_workers_for_test}

pub record CreateTestRequest : Type 0 where
  pub name : String
  pub worker_count : ℤ
  pub target_url : String
  pub method : String
  pub duration_sec : ℤ
  pub rps : ℤ
  pub concurrency : ℤ

-- The fields of `TestService` that are not repositories. `reconcile` is the autoscaler's cycle
-- and `provision` the provisioner, where they are set; `ticks` is the number of ticks of the
-- 500 ms ticker that a wait sees before its timeout of 30 s.
pub record TestService : Type 0 where
  pub worker_capacity_rps : ℤ
  pub reconcile : Option (M (Unit {0}))
  pub provision : Option (ℤ → M (Unit {0}))
  pub ticks : ℕ

abbrev is_method : String → Bool
is_method m = str_eq m "GET" || str_eq m "POST"

module _ (env : Env) (strings : Strings) (service : TestService) where
  open strings use {trim_space, to_upper}
  open service use {worker_capacity_rps}

  -- The row that `CreateTest` inserts. The identifier comes from the ULID library.
  unfoldable pub new_test : String → ℕ → CreateTestRequest → ℤ → Test
  new_test id now req workers = record {
    id = id;
    name = trim_space req.name;
    status = TestStatus.created;
    worker_count = workers;
    target_url = trim_space (trim_space req.target_url);
    method = to_upper (trim_space (to_upper (trim_space req.method)));
    duration_sec = req.duration_sec;
    rps = req.rps;
    concurrency = req.concurrency;
    created_at = now;
    updated_at = now;
  }

  unfoldable pub submit_test : String → ℕ → CreateTestRequest → M Test
  unfolding new_test
  submit_test id now req = do
    lift (require strings "name" (trim_space req.name))
    lift (require strings "target_url" (trim_space req.target_url))
    throw_if (not (is_method (to_upper (trim_space req.method)))) validation
    throw_if (leb_ℤ req.duration_sec (pos 0)) validation
    throw_if (leb_ℤ req.rps (pos 0)) validation
    throw_if (leb_ℤ req.concurrency (pos 0)) validation
    workers ← lift (required_workers req.rps worker_capacity_rps)
    create_test env (new_test id now req workers)
    pure (new_test id now req workers)

module _ (env : Env) (service : TestService) where
  open service use {worker_capacity_rps, reconcile, provision, ticks}

  unfoldable pub is_finished : TestStatus → Bool
  is_finished status =
      test_status_eq status TestStatus.stopped
      || test_status_eq status TestStatus.completed
      || test_status_eq status TestStatus.failed

  unfoldable pub stop_unfinished : Bool → String → TestStatus → M (Unit {0})
  stop_unfinished true id seen = pure tt
  stop_unfinished false id seen = do
    try_transition_status env id seen TestStatus.stopping
    release_workers_for_test env id
    update_status env id TestStatus.stopped

  unfoldable pub stop_test : String → M (Unit {0})
  unfolding is_finished stop_unfinished
  stop_test id = do
    test ← get_test_by_id env id
    stop_unfinished (is_finished test.status) id test.status

  count_idle : List Worker → ℤ
  count_idle ws = pos (count_by (λ w. worker_status_eq w.status WorkerStatus.idle) ws)

  -- The loop of the wait: `left` ticks come before the timeout.
  unfoldable pub wait_for_workers : ℕ → ℤ → M (Unit {0})
  unfolding count_idle
  wait_for_workers zero required = do
    workers ← get_workers env
    throw_if (ltb_ℤ (count_idle workers) required) deadline_exceeded
  wait_for_workers (suc left) required =
      let rest = wait_for_workers left required in
      do workers ← get_workers env; if ltb_ℤ (count_idle workers) required then rest else pure tt

  -- The switch: the autoscaler if there is one, else the provisioner, else nothing can be done.
  unfoldable pub ask_for_workers :
      Option (M (Unit {0})) → Option (ℤ → M (Unit {0})) → ℤ → M (Unit {0})
  ask_for_workers (some cycle) p missing = cycle
  ask_for_workers none (some p) missing = p missing
  ask_for_workers none none missing = throw insufficient_workers

  unfoldable pub ensure_workers_available : ℤ → M (Unit {0})
  unfolding ask_for_workers count_idle
  ensure_workers_available required = do
    workers ← get_workers env
    if leb_ℤ (sub64 required (count_idle workers)) (pos 0)
        then pure tt
        else (ask_for_workers reconcile provision (sub64 required (count_idle workers))
            >> wait_for_workers ticks required)

  -- `DefaultScheduler.AllocateWorkers`.
  unfoldable pub allocate_workers : String → ℤ → List ℕ → M (List Worker)
  allocate_workers test count shares =
      wrapped "allocate workers" (reserve_workers_for_test env test count shares)

  unfoldable pub or_roll_back : {A : Type 0} → String → Result A × Conn → Result A × Conn
  or_roll_back id (ok a, c) = (ok a, c)
  or_roll_back id (err e, c) =
      (err e, (try_transition_status env id TestStatus.starting TestStatus.created c).1)

  -- The steps between the claim and RUNNING; each rolls back and returns its error. `test.id` is the
  -- identifier that the test was read by.
  unfoldable pub prepare_test : Test → M (List Worker)
  prepare_test test = do
    required ← lift (required_workers test.rps worker_capacity_rps)
    update_worker_count env test.id required
    ensure_workers_available required
    shares ← lift (distribute_rps test.rps required)
    allocate_workers test.id required shares

  unfoldable pub start_test : String → M (List Worker)
  unfolding or_roll_back
  start_test id = do
    test ← get_test_by_id env id
    won ← try_transition_status env id TestStatus.created TestStatus.starting
    throw_if (not won) invalid_test_state
    workers ← λ c. or_roll_back id (prepare_test test c)
    update_status env test.id TestStatus.running
    pure workers
