-- ===== src/Runner.antt =====
-- internal/worker: the process on a worker (worker.go), the execution of one assignment
-- (executor.go) and the registration at its start (runtime.go). The calls of the control plane and
-- the engine are other components, so their answers come as data.
pub mod Stops
pub mod Registration
pub mod Published
pub mod Online
use vulcan.Prelude.{
  ℕ, String, Bool, true, false, not, ◌||◌, Option, none, some, List, [], ◌∷◌, ℤ, pos, ltb, ltb_ℤ,
  if◌then◌else◌, str_eq, ◌*◌,
}
use vulcan.Errors.{
  Error, assignment_stopped, worker_assignment_stopped, cancelled, cause, Result, ok, err,
}
use vulcan.Models.{WorkerStatus}
use vulcan.Metrics.{RequestResult, MetricBucket, Collector, record_result, flush, new_collector}

-- What the `select` of an execution receives, in the order in which it receives it; `answered` is
-- a result that the engine hands to its callback. A tick comes with the time and with the answer
-- to the question for the status of the test, if it is asked.
pub data Event : Type 0 where
  shutdown : Event
  answered : RequestResult → Event
  tick : ℕ → Result String → Event
  finished : ℕ → Result (Unit {0}) → Event

-- The variables of `execute`; `published` has what was given to the publisher, the latest first.
pub record Execution : Type 0 where
  pub stopped : Bool
  pub collector : Collector
  pub published : List MetricBucket

abbrev pub is_stop : Result String → Bool
is_stop (ok status) = str_eq status "STOPPING" || str_eq status "STOPPED"
is_stop (err e) = false

-- The bucket since the last flush is published unless it is empty.
unfoldable pub flush_and_publish : ℕ → Execution → Execution
flush_and_publish now x =
    let (bucket, collector) = flush now x.collector in
    record x {
      collector = collector;
      published = if ltb_ℤ (pos 0) bucket.requests then bucket ∷ x.published else x.published;
    }

abbrev pub outcome : Bool → Result (Unit {0}) → Result (Unit {0})
outcome true result = err assignment_stopped
outcome false result = result

-- The loop. With no more events it waits, and has no result yet.
unfoldable pub execute : List Event → Execution → Option (Result (Unit {0})) × Execution
unfolding flush_and_publish
execute [] x = (none, x)
execute (shutdown ∷ es) x = (some (err cancelled), x)
execute (answered r ∷ es) x = execute es (record x { collector = record_result r x.collector })
execute (tick now status ∷ es) x =
    execute es (flush_and_publish now (record x { stopped = x.stopped || is_stop status }))
execute (finished now result ∷ es) x = (some (outcome x.stopped result), flush_and_publish now x)

-- A request that changes an assignment.
pub data Request : Type 0 where
  start complete fail : String → Request

-- `Worker`, with the requests that it has made, the latest first.
pub record Runner : Type 0 where
  pub id : String
  pub hostname : String
  pub version : String
  pub status : WorkerStatus
  pub requests : List Request

-- What the control plane answers to the requests, and whether the worker is shutting down when an
-- execution ends.
pub record Answers : Type 0 where
  pub on_start : Result (Unit {0})
  pub on_complete : Result (Unit {0})
  pub is_shut_down : Bool

abbrev pub idle_again : Runner → Runner
idle_again w = record w { status = WorkerStatus.idle }

abbrev pub requested : Request → Runner → Runner
requested r w = record w { requests = r ∷ w.requests }

-- `errors.Is(err, ErrAssignmentStopped)`, with the variable of the package.
abbrev pub is_worker_stop : Error → Bool
is_worker_stop worker_assignment_stopped = true
is_worker_stop _ = false

-- What follows an execution. The answer to `FailAssignment` is only logged.
unfoldable pub report : Answers → String → Result (Unit {0}) → Runner → Result (Unit {0}) × Runner
report answers test (ok _) w = (answers.on_complete, idle_again (requested (complete test) w))
report answers test (err e) w =
    if is_worker_stop (cause e)
    then (ok tt, idle_again w)
    else if answers.is_shut_down
    then (err e, idle_again w)
    else (err e, idle_again (requested (fail test) w))

abbrev pub report_if :
    Answers
    → String
    → Option (Result (Unit {0})) × Execution
    → Runner
    → Option (Result (Unit {0})) × Runner
report_if answers test (none, x) w = (none, w)
report_if answers test (some result, x) w =
    let (r, w') = report answers test result w in (some r, w')

abbrev after_start :
    Answers
    → String
    → List Event
    → Execution
    → Result (Unit {0})
    → Runner
    → Option (Result (Unit {0})) × Runner
after_start answers test events x (ok _) w = report_if answers test (execute events x) w
after_start answers test events x (err e) w = (some (err e), idle_again w)

-- `processAssignment`; no result while the execution has none.
unfoldable pub process_assignment :
    Answers → String → List Event → Execution → Runner → Option (Result (Unit {0})) × Runner
process_assignment answers test events x w =
    after_start answers test events x answers.on_start
      (requested (start test) (record w { status = WorkerStatus.running }))

-- `poll`, with what `GetAssignment` answers: no assignment, or one of the test. An execution starts
-- with a new collector.
unfoldable pub poll :
    Answers → Result (Option String) → ℕ → List Event → Runner → Option (Result (Unit {0})) × Runner
poll answers (err e) now events w = (some (err e), w)
poll answers (ok none) now events w = (some (ok tt), w)
poll answers (ok (some test)) now events w =
    process_assignment answers test events
      (record { stopped = false; collector = new_collector test w.id now; published = [] }) w

-- What comes of an attempt to register: the identifier and the status that the control plane
-- gives, or an error and then either a shutdown or the end of the wait.
pub data Attempt : Type 0 where
  registered : String → WorkerStatus → Attempt
  refused_for_good refused : Error → Attempt

-- The next wait, in seconds: `registerMaxBackoff` is 30 s.
unfoldable pub next_backoff : ℕ → ℕ
next_backoff b = if ltb 30 (b * 2) then 30 else b * 2

-- `registerWithRetry` from the wait of `b` seconds on, with the waits that it made. With no more
-- attempts it has no result yet.
unfoldable pub register_from :
    ℕ → List Attempt → Runner → Option (Result (Unit {0})) × Runner × List ℕ
register_from b [] w = (none, w, [])
register_from b (registered id status ∷ attempts) w =
    (some (ok tt), record w { id = id; status = status }, [])
register_from b (refused_for_good e ∷ attempts) w = (some (err cancelled), w, [])
register_from b (refused e ∷ attempts) w =
    let (r, v, waits) = register_from (next_backoff b) attempts w in (r, v, b ∷ waits)

-- `registerInitialBackoff` is 1 s.
unfoldable pub register_with_retry :
    List Attempt → Runner → Option (Result (Unit {0})) × Runner × List ℕ
register_with_retry attempts w = register_from 1 attempts w
