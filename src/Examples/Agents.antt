-- ===== src/Examples/Agents.antt =====
-- The theorems on workers, their counters and the health loop, at a fleet and an execution.
use vulcan.Prelude.{◌≡◌, refl, true, false, some, [], ◌∷◌, ◌++◌, count_by, map, pos, ◌-◌}
use vulcan.Errors.{driver, cancelled, assignment_stopped, ok, err}
use vulcan.Models.{WorkerStatus}
use vulcan.Metrics.{RequestResult, new_collector}
use vulcan.Runner.{
  answered, tick, finished, Execution, Answers, Runner, process_assignment, registered, refused,
  register_with_retry, execute, report, flush_and_publish,
}
use vulcan.Runner.Stops.{process_assignment_stopped, process_assignment_lem}
use vulcan.Runner.Registration.{Doubles, register_with_retry_lem}
use vulcan.Repository.Workers.{
  is_dead, mark_offline_workers, mark_assignments_failed_for_offline_workers,
}
use vulcan.Health.{health_sweep, heartbeat_timeout}
use vulcan.Health.Sweep.{health_sweep_lem}
use vulcan.Examples.{fleet, quiet, at}

abbrev pub answer : RequestResult
answer = record {
  latency = pos 30000000;
  success = true;
  bytes_sent = pos 100;
  bytes_received = pos 900;
}

abbrev failure : RequestResult
failure = record {
  latency = pos 90000000;
  success = false;
  bytes_sent = pos 100;
  bytes_received = pos 0;
}

abbrev pub execution : Execution
execution = record { stopped = false; collector = new_collector "t1" "w1" 0; published = [] }

abbrev pub runner : Runner
runner = record {
  id = "w1";
  hostname = "host";
  version = "1";
  status = WorkerStatus.idle;
  requests = [];
}

abbrev answers : Answers
answers = record { on_start = ok tt; on_complete = ok tt; is_shut_down = false }

process_assignment_stopped_example :
    (process_assignment answers "t1"
      (answered answer ∷ tick 1 (ok "STOPPED") ∷ finished 2 (err cancelled) ∷ [])
      execution
      runner).0
    ≡ some (err assignment_stopped)
process_assignment_stopped_example =
    (process_assignment_stopped answers "t1" (answered answer ∷ tick 1 (ok "STOPPED") ∷ []) 2
      (err cancelled) execution runner refl refl (refl, (refl, tt)) refl).0

process_assignment_lem_example :
    (process_assignment answers "t1" (finished 2 (ok tt) ∷ []) execution runner).1.status
    ≡ WorkerStatus.idle
process_assignment_lem_example =
    (process_assignment_lem answers "t1" (finished 2 (ok tt) ∷ []) execution runner {r = ok tt}
      (unfold process_assignment execute report flush_and_publish in refl)).0

register_with_retry_lem_example :
    Doubles 1
      (register_with_retry
        (map refused (driver 0 ∷ driver 1 ∷ []) ++ (registered "w9" WorkerStatus.idle ∷ []))
        runner).2
register_with_retry_lem_example =
    (register_with_retry_lem "w9" WorkerStatus.idle runner (driver 0 ∷ driver 1 ∷ [])).3

health_sweep_lem_example :
    count_by
      (is_dead (quiet.clock 0 - heartbeat_timeout))
      (health_sweep quiet (at fleet)).1.db.workers
    ≡ 0
health_sweep_lem_example =
    (health_sweep_lem quiet (at fleet) (λ n d. refl) 1
      (unfold health_sweep mark_offline_workers mark_assignments_failed_for_offline_workers in
        refl)).0
