-- ===== src/Examples/Load.antt =====
-- The theorems on the load that workers make, what becomes of its counts, and the processes of the
-- workers, at small runs.
use vulcan.Prelude.{
  ℕ, String, ◌≡◌, ◌≤◌, ◌+◌, ◌||◌, Bool, ◌==◌, quot64, refl, true, false, none, some, List, [], ◌∷◌,
  arith, ℤ, pos, ltb_ℤ, str_eq, All, length, if◌then◌else◌,
}
use vulcan.Errors.{message, Result, ok, err}
use vulcan.Metrics.{MetricBucket, RequestResult}
use vulcan.Aggregator.{Floats, Aggregator, Snapshot, receive, merge_held, report}
use vulcan.Aggregator.Conservation.{bucket, run, run_conserves}
use vulcan.Aggregator.Windows.{waiting, reported}
use vulcan.Aggregator.Conservation
use vulcan.Aggregator.Delivery.{Work, published_by, answers}
use vulcan.Aggregator.Loop.{Outside, run_loop}
use vulcan.Aggregator.Written.{Posted, turns, run_loop-execute}
use vulcan.Aggregator.Payload.{samples as payload_samples}
use mathlib.Core.List.Perm
use vulcan.Runner
use vulcan.Runner.{execute, flush_and_publish}
use vulcan.Prelude.{◌++◌, quot64, add64}
use vulcan.Metrics.{flush, new_collector, record_result}
use vulcan.Aggregator.Races.{is_test, merge_held-orphan}
use vulcan.Execution.{
  ExecutionConfig, Run, new_run, tick, answered, expired, steps, has_returned, run_scheduler,
  panicked, returned,
}
use vulcan.Execution
use vulcan.Execution.Pacing.{
  steps-IsPaced, run_scheduler-accounts, steps-returns, run_scheduler_panics,
}
use vulcan.Config.{Environment, load_server_config, load, is_empty, with_defaults}
use vulcan.Config.Checks.{load_server_config-IsComplete}
use vulcan.Provisioner.{System, ProcessProvisioner}
use vulcan.Provisioner.Fleet.{IsManaged, add, remove, ended, steps-IsManaged}
use vulcan.Provisioner.Fleet
use vulcan.Dashboard.{
  Numbers, DataPoint, get_history, get_live_metrics, metric_query, Query, number, text, item, nil,
}
use vulcan.Dashboard.Live.{get_live_metrics-samples}
use vulcan.Dashboard.Parsing.{Printer, response_of, answering, get_history-answering}

-- Integers in place of floating-point numbers.
abbrev floats : Floats ℤ
floats = record {
  zero = pos 0;
  of_int = λ n. n;
  quotient = λ a. a.total_ms;
  add = add64;
  mul = λ x y. x;
  div = λ x y. x;
  less = ltb_ℤ;
}

abbrev counted : String → String → ℕ → MetricBucket
counted test worker n = record {
  test_id = test;
  worker_id = worker;
  window_start = 1;
  window_end = 2;
  requests = pos n;
  successes = pos n;
  failures = pos 0;
  bytes_sent = pos 100;
  bytes_received = pos 900;
  avg_latency = record { total_ms = pos 90; over = pos 3 };
  max_latency_ms = pos 45;
}

abbrev minute : List Conservation.Event
minute =
    bucket (counted "t1" "w1" 3)
    ∷ bucket (counted "t2" "w2" 4)
    ∷ Conservation.tick
    ∷ bucket (counted "t1" "w2" 5)
    ∷ []

run_conserves_example :
    let r = run floats minute (record { tests = []; next = 0; held = none }) in
    reported (is_test "t1") r.1 + waiting (is_test "t1") r.0.tests ≡ 8
run_conserves_example =
    run_conserves floats (is_test "t1") minute ((3, refl), ((4, refl), (tt, ((5, refl), tt))))
      (omega arith)

-- The window of t1 that the last report has emptied.
abbrev emptied : Aggregator ℤ
emptied = record { tests = []; next = 1; held = none }

merge_held-orphan_example :
    waiting
      (is_test "t1")
      (merge_held floats (report floats (receive floats (counted "t1" "w1" 3) emptied)).0).tests
    ≡ 0
merge_held-orphan_example = (merge_held-orphan floats (counted "t1" "w1" 3) emptied tt refl).1

abbrev result : RequestResult
result = record {
  latency = pos 30000000;
  success = true;
  bytes_sent = pos 100;
  bytes_received = pos 900;
}

abbrev pressed : List Execution.Event
pressed = tick ∷ tick ∷ tick ∷ answered result ∷ expired ∷ answered result ∷ []

steps-IsPaced_example : (steps 2 pressed new_run).taken ≤ 2
unfolding new_run
steps-IsPaced_example =
    (steps-IsPaced 2 pressed new_run
      (record { bounded = omega arith; whole = omega arith })).bounded

abbrev config : ℕ → ExecutionConfig
config rps = record { duration = pos 30000000000; rps = pos rps; concurrency = pos 2 }

run_scheduler-accounts_example :
    length (run_scheduler (config 100) pressed).1.recorded
      + (run_scheduler (config 100) pressed).1.dropped
    ≡ 3
run_scheduler-accounts_example =
    (run_scheduler-accounts (config 100) pressed (
      unfold run_scheduler Execution.check_config Execution.interval quot64 has_returned steps
        Execution.step new_run in
      refl)).1

steps-returns_example :
    has_returned
      (steps 2 (tick ∷ answered result ∷ []) (record new_run { taken = 1; is_over = true }))
    ≡ true
steps-returns_example =
    steps-returns 2 (tick ∷ answered result ∷ []) (record new_run { taken = 1; is_over = true })
      refl (omega arith)

run_scheduler_panics_example : run_scheduler (config 2000000000) [] ≡ (panicked, new_run)
run_scheduler_panics_example =
    run_scheduler_panics (config 2000000000) [] 2000000000 30000000000 2 refl refl refl
      (omega arith) (omega arith) (omega arith)

-- Every variable is set, to a text that is no number.
abbrev environment : Environment
environment = record {
  get_env = λ name. "8080";
  scan_int = λ s. some (pos 8080);
  parse_duration = λ s. none;
}

load_server_config-IsComplete_example :
    is_empty (with_defaults environment (load environment)).worker_binary_path ≡ false
load_server_config-IsComplete_example =
    let (_, _, _, _, binary, _, _, _) =
      load_server_config-IsComplete environment (with_defaults environment (load environment))
        (unfold load_server_config load in refl) in
    binary

abbrev system : System
system = record {
  cancelled_at = λ n. false;
  starts = λ n. none;
  kills = λ n host. some (message "os: process already finished");
  nano = λ n. "1700000000000000000";
  itoa = λ n. if n == 0 then "0" else "1";
}

abbrev no_process : ProcessProvisioner
no_process = record { binary_path = "./worker"; processes = []; calls = 0 }

abbrev orders : List Fleet.Event
orders =
    add (pos 2)
    ∷ remove ("vulcan-auto-worker-1700000000000000000-1" ∷ [])
    ∷ ended "vulcan-auto-worker-1700000000000000000-1"
    ∷ []

steps-IsManaged_example : All IsManaged (Fleet.steps system orders no_process).processes
steps-IsManaged_example = steps-IsManaged system orders no_process tt

abbrev pub numbers : Numbers ℤ
numbers = record {
  zero = pos 0;
  parse_float = λ s. some (if str_eq s "7" then pos 7 else pos 8);
  truncate = λ n. n;
}

abbrev printer : Printer ℤ
printer = record { instant = λ n. n; print = λ x. if ltb_ℤ x (pos 8) then "7" else "8" }

abbrev samples : List (DataPoint ℤ)
samples =
    record { timestamp = pos 1000; value = pos 7 }
    ∷ record { timestamp = pos 1005; value = pos 8 }
    ∷ []

get_history-answering_example :
    get_history numbers (answering numbers printer (λ q. samples)) "t1"
    ≡ ok (
        record { metric = "requests"; points = samples }
        ∷ record { metric = "latency"; points = samples }
        ∷ record { metric = "workers"; points = samples }
        ∷ [])
get_history-answering_example =
    get_history-answering numbers printer (λ q. samples) "t1"
      (λ q. ((refl, refl), ((refl, refl), tt)))

abbrev worked : String → String → Work
worked test worker = record {
  test = test;
  worker = worker;
  from = 1;
  events = Runner.answered result ∷ Runner.answered result ∷ [];
  to = 9;
  result = ok tt;
}

abbrev both : List Work
both = worked "t1" "w1" ∷ worked "t2" "w2" ∷ []

-- The buckets arrive, and a report comes after each.
abbrev reported_each : List MetricBucket → List Conservation.Event
reported_each [] = []
reported_each (b ∷ bs) = bucket b ∷ Conservation.tick ∷ reported_each bs

abbrev second_first : List Conservation.Event
second_first = reported_each (published_by (worked "t2" "w2") ++ published_by (worked "t1" "w1"))

-- A bucket is sent as the name of its test, from which it is worked out again.
abbrev first_bucket : List MetricBucket → Result MetricBucket
first_bucket [] = err (message "unexpected EOF")
first_bucket (b ∷ bs) = ok b

-- The state of the world is the list of what was posted, the earliest first.
abbrev outside : Outside ℤ (List (String × String))
outside = record {
  decode = λ s. first_bucket (published_by (worked s (if str_eq s "t1" then "w1" else "w2")));
  unix_milli = λ w. pos 1700000000000;
  post = λ url body w. (ok (record { status = 204; body = "" }), w ++ ((url, body) ∷ []));
  url = "http://localhost:8428";
  fmt = record { d = λ n. if ltb_ℤ n (pos 8) then "7" else "8"; f2 = λ x. "8" };
}

run_loop-execute_example :
    let r =
      run_loop floats outside
        (turns (λ b. b.test_id) second_first)
        (record { tests = []; next = 0; held = none })
        [] in
    (ss : List (Snapshot ℤ)) × (posts : List (String × String)) × (r.1 ≡ posts)
    × Posted outside ss posts
    × ((p : String → Bool) → reported p ss + waiting p r.0.tests ≡ answers p both)
unfolding execute flush_and_publish flush new_collector record_result add64 quot64
run_loop-execute_example =
    run_loop-execute floats outside (λ b. b.test_id) (λ w. w) (λ url body w. refl) both second_first
      [] ((refl, (refl, tt)), ((refl, (refl, tt)), tt)) (Perm.swap _ _ []) (refl, (refl, tt))
      (omega arith)

abbrev seven : Snapshot ℤ
seven = record {
  test_id = "t1";
  workers = 7;
  requests = pos 7;
  successes = pos 7;
  failures = pos 7;
  bytes_sent = pos 8;
  bytes_received = pos 8;
  avg_latency = pos 8;
  max_latency = pos 8;
  success_rate = pos 100;
  rps = pos 7;
}

-- The server has 8 for the bytes and the latencies, and 7 for the rest.
abbrev answering_seven : Query ℤ
answering_seven q = ok (
    response_of "value" (
      item (number (pos 1)) (
        item
          (text (
            if str_eq q (metric_query "vulcan_avg_latency_ms" "t1")
              || (str_eq q (metric_query "vulcan_max_latency_ms" "t1")
                  || (str_eq q (metric_query "vulcan_bytes_sent_total" "t1")
                      || str_eq q (metric_query "vulcan_bytes_received_total" "t1")))
            then "8"
            else "7"))
          nil)))

get_live_metrics-samples_example :
    get_live_metrics numbers answering_seven "t1"
    ≡ ok (record {
      test_id = "t1";
      requests = pos 7;
      successes = pos 7;
      failures = pos 7;
      workers = pos 7;
      avg_latency_ms = pos 8;
      max_latency_ms = pos 8;
      bytes_sent = pos 8;
      bytes_received = pos 8;
    })
unfolding metric_query payload_samples
get_live_metrics-samples_example =
    get_live_metrics-samples numbers outside.fmt (λ x. pos 8) answering_seven (pos 1) seven
      (refl, (refl, (refl, (refl, (refl, (refl, (refl, (refl, tt))))))))
      (
        (pos 7, refl, refl),
        (
          (pos 7, refl, refl),
          (
            (pos 7, refl, refl),
            ((pos 7, refl, refl), ((pos 8, refl, refl), ((pos 8, refl, refl), tt))),
          ),
        ),
      )
      (λ x. refl)
