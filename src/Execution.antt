-- ===== src/Execution.antt =====
-- internal/execution: the engine that sends the requests of an assignment (engine.go), the scheduler
-- that starts them at a fixed rate (scheduler.go), and the judgement of a response
-- (http_executor.go).
pub mod Pacing
use vulcan.Prelude.{
  ℕ, suc, ◌-◌, Bool, true, false, not, ◌&&◌, ◌||◌, Option, none, some, List, [], ◌∷◌, ℤ, pos, leb_ℤ,
  ltb_ℤ, quot64, pos_part, ltb, leb, if◌then◌else◌,
}
use vulcan.Errors.{message, nil_scheduler, nil_executor, Result, ok, err}
use vulcan.Metrics.{RequestResult}

-- The fields of `ExecutionConfig` that the scheduler reads; the duration is in nanoseconds.
pub record ExecutionConfig : Type 0 where
  pub duration : ℤ
  pub rps : ℤ
  pub concurrency : ℤ

-- The tests at the start of `Run`; the functions that it is given are there.
unfoldable pub check_config : ExecutionConfig → Result (Unit {0})
check_config cfg =
    if leb_ℤ cfg.rps (pos 0)
    then err (message "rps must be greater than zero")
    else if leb_ℤ cfg.concurrency (pos 0)
    then err (message "concurrency must be greater than zero")
    else if leb_ℤ cfg.duration (pos 0)
    then err (message "duration must be greater than zero")
    else ok tt

-- A run of the scheduler: the slots of the semaphore that are taken, what was handed to `record`
-- (the latest first), the ticks that found no slot, and whether the duration is over.
pub record Run : Type 0 where
  pub taken : ℕ
  pub started : ℕ
  pub recorded : List RequestResult
  pub dropped : ℕ
  pub is_over : Bool

unfoldable pub new_run : Run
new_run = record { taken = 0; started = 0; recorded = []; dropped = 0; is_over = false }

-- What may happen: the loop receives a tick of the pacing ticker, a request ends in its goroutine, and
-- the loop receives the end of the duration or of the caller's context.
pub data Event : Type 0 where
  tick : Event
  answered : RequestResult → Event
  expired : Event

module _ (slots : ℕ) where
  -- The inner `select`: with no free slot, the tick is dropped. After the end the loop receives no tick.
  unfoldable pub on_tick : Run → Run
  on_tick r =
      if r.is_over
      then r
      else if ltb r.taken slots
      then record r { taken = suc r.taken; started = suc r.started }
      else record r { dropped = suc r.dropped }

  -- The goroutine records its result and then leaves its slot; with none taken, none runs.
  unfoldable pub on_answer : RequestResult → Run → Run
  on_answer result r =
      if ltb 0 r.taken then record r { taken = r.taken - 1; recorded = result ∷ r.recorded } else r

  unfoldable pub step : Event → Run → Run
  unfolding on_tick on_answer
  step tick r = on_tick r
  step (answered result) r = on_answer result r
  step expired r = record r { is_over = true }

  unfoldable pub steps : List Event → Run → Run
  steps [] r = r
  steps (e ∷ es) r = steps es (step e r)

-- `wg.Wait()` after the end lets `Run` return.
unfoldable pub has_returned : Run → Bool
has_returned r = r.is_over && not (ltb 0 r.taken)

-- `time.Second / time.Duration(cfg.RPS)`, for a positive rate.
unfoldable pub interval : ExecutionConfig → ℤ
interval cfg = quot64 (pos 1000000000) (pos_part cfg.rps)

pub data Outcome : Type 0 where
  returned : Result (Unit {0}) → Outcome
  waits panicked : Outcome

-- `FixedRateScheduler.Run`. `time.NewTicker` panics for an interval that is not positive.
unfoldable pub run_scheduler : ExecutionConfig → List Event → Outcome × Run
run_scheduler cfg es = elim (check_config cfg) [
  | err e ↦ (returned (err e), new_run)
  | ok _ ↦
      let r = steps (pos_part cfg.concurrency) es new_run in
      if leb_ℤ (interval cfg) (pos 0)
      then (panicked, new_run)
      else if has_returned r
      then (returned (ok tt), r)
      else (waits, r)
]

-- `DefaultEngine.Run`, where a part may be nil.
unfoldable pub run_engine : Bool → Bool → ExecutionConfig → List Event → Outcome × Run
run_engine has_scheduler has_executor cfg es =
    if not has_scheduler
    then (returned (err nil_scheduler), new_run)
    else if not has_executor
    then (returned (err nil_executor), new_run)
    else run_scheduler cfg es

-- `execution.Result`; `failed` says that `Err` is set.
pub record HttpResult : Type 0 where
  pub status_code : ℕ
  pub latency : ℤ
  pub success : Bool
  pub bytes_sent : ℤ
  pub bytes_received : ℤ
  pub failed : Bool

-- What comes of a request: it cannot be built, it has no answer, or it has one whose body is cut off
-- or complete after so many bytes.
pub data Exchange : Type 0 where
  unbuilt unanswered : Exchange
  cut_off complete : ℕ → ℤ → Exchange

-- `resp.StatusCode >= 200 && resp.StatusCode < 400`.
unfoldable pub is_success : ℕ → Bool
is_success code = leb 200 code && ltb code 400

-- `HTTPExecutor.Execute`, by the time that it took and the size of the body that it sent.
unfoldable pub execute_http : ℤ → ℤ → Exchange → HttpResult
unfolding is_success
execute_http latency sent unbuilt = record {
  status_code = 0;
  latency = latency;
  success = false;
  bytes_sent = pos 0;
  bytes_received = pos 0;
  failed = true;
}
execute_http latency sent unanswered = record {
  status_code = 0;
  latency = latency;
  success = false;
  bytes_sent = sent;
  bytes_received = pos 0;
  failed = true;
}
execute_http latency sent (cut_off code bytes) = record {
  status_code = code;
  latency = latency;
  success = false;
  bytes_sent = sent;
  bytes_received = bytes;
  failed = true;
}
execute_http latency sent (complete code bytes) = record {
  status_code = code;
  latency = latency;
  success = is_success code;
  bytes_sent = sent;
  bytes_received = bytes;
  failed = false;
}

-- What a worker's callback passes on to its collector.
unfoldable pub request_result : HttpResult → RequestResult
request_result r = record {
  latency = r.latency;
  success = r.success;
  bytes_sent = r.bytes_sent;
  bytes_received = r.bytes_received;
}
