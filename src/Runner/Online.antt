-- ===== src/Runner/Online.antt =====
-- internal/worker with the client of internal/controlplane in the place of the answers: the worker's calls
-- (worker.go, executor.go) and its loops (heartbeat.go, polling.go, runtime.go) act on the control
-- plane. Every call is made with the transport `send`.
pub mod Replies
pub mod Completion
pub mod Lost
pub mod Stopping
use vulcan.Prelude.{
  ℕ, String, Bool, true, false, ◌||◌, Option, none, some, List, [], ◌∷◌, ℤ, if◌then◌else◌,
}
use vulcan.Errors.{Error, cause, cancelled, message, Result, ok, err}
use vulcan.Models.{WorkerStatus}
use vulcan.Driver.{Conn, M}
use vulcan.Metrics.{RequestResult, record_result, new_collector}
use vulcan.Config.{WorkerConfig}
use vulcan.Ticker.{Signal, done}
use vulcan.Ticker
use vulcan.Api.{AssignmentResponse}
use vulcan.Client.{
  RegisterWorkerResponse, TestStatusResponse, ClientCodec, Transport, post_registration,
  post_heartbeat, fetch_assignment, post_start, post_complete, post_fail, fetch_test,
}
use vulcan.Runner.{
  Execution, is_stop, flush_and_publish, outcome, Runner, start, complete, fail, requested,
  idle_again, is_worker_stop,
}

-- What the `select` of an execution receives; `beat` is a tick of the heartbeat loop, which runs beside
-- it.
pub data Input : Type 0 where
  beat : Input
  shutdown : Input
  answered : RequestResult → Input
  tick : ℕ → Input
  finished : ℕ → Result (Unit {0}) → Input

-- What the worker's own state and the control plane's come to, with a result.
abbrev pub Outcome : Type 0 → Type 0
Outcome S = Option (Result (Unit {0})) × S × Conn

abbrev status_of : Result TestStatusResponse → Result String
status_of (ok r) = ok r.status
status_of (err e) = err e

-- What the two loops of a worker receive; a poll comes with what its execution receives.
pub data Turn : Type 0 where
  heartbeat_tick stop : Turn
  poll_tick : Bool → ℕ → List Input → Turn

module _ (send : Transport) (codec : ClientCodec) where
  -- `models.WorkerStatus(resp.Status)`; `as_status` reads the text.
  abbrev registered_as :
      (String → WorkerStatus)
      → Runner
      → Result RegisterWorkerResponse × Conn
      → Result (Unit {0}) × Runner × Conn
  registered_as as_status w (ok r, c) =
      (ok tt, record w { id = r.id; status = as_status r.status }, c)
  registered_as as_status w (err e, c) = (err e, w, c)

  unfoldable pub register :
      (String → WorkerStatus) → WorkerConfig → Runner → Conn → Result (Unit {0}) × Runner × Conn
  register as_status cfg w c = registered_as as_status w (
      post_registration send codec
        (record {
          hostname = w.hostname;
          version = w.version;
          cpu_count = cfg.cpu_count;
          memory_mb = cfg.memory_mb;
        })
        c)

  unfoldable pub send_heartbeat : Runner → M (Unit {0})
  send_heartbeat w = post_heartbeat send codec w.id w.status

  -- A tick asks for the status of the test until it has heard that it is stopped.
  unfoldable pub ask_status : Bool → String → Conn → Result String × Conn
  ask_status true test c = (err (message "not asked"), c)
  ask_status false test c = let (r, c') = fetch_test send codec test c in (status_of r, c')

  unfoldable pub execute_online :
      Runner → String → List Input → Execution → Conn → Outcome Execution
  execute_online w test [] x c = (none, x, c)
  execute_online w test (beat ∷ es) x c = execute_online w test es x (send_heartbeat w c).1
  execute_online w test (shutdown ∷ es) x c = (some (err cancelled), x, c)
  execute_online w test (answered r ∷ es) x c =
      execute_online w test es (record x { collector = record_result r x.collector }) c
  execute_online w test (tick now ∷ es) x c =
      let (status, c') = ask_status x.stopped test c in
      execute_online w test es
        (flush_and_publish now (record x { stopped = x.stopped || is_stop status })) c'
  execute_online w test (finished now result ∷ es) x c =
      (some (outcome x.stopped result), flush_and_publish now x, c)

  -- What follows an execution; the answer to a failure is only logged.
  unfoldable pub report_online :
      Bool → String → Result (Unit {0}) → Runner → Conn → Result (Unit {0}) × Runner × Conn
  report_online is_shut_down test (ok _) w c =
      let (r, c') = post_complete send codec w.id test c in
      (r, idle_again (requested (complete test) w), c')
  report_online is_shut_down test (err e) w c =
      let (r, c') = post_fail send codec w.id test c in
      if is_worker_stop (cause e)
      then (ok tt, idle_again w, c)
      else if is_shut_down
      then (err e, idle_again w, c)
      else (err e, idle_again (requested (fail test) w), c')

  abbrev pub reported_if : Bool → String → Runner → Outcome Execution → Outcome Runner
  reported_if is_shut_down test w (none, x, c) = (none, w, c)
  reported_if is_shut_down test w (some result, x, c) =
      let (r, w', c') = report_online is_shut_down test result w c in (some r, w', c')

  abbrev started_online :
      Bool → String → List Input → Execution → Runner → Result (Unit {0}) × Conn → Outcome Runner
  started_online is_shut_down test es x w (ok _, c) =
      reported_if is_shut_down test w (execute_online w test es x c)
  started_online is_shut_down test es x w (err e, c) = (some (err e), idle_again w, c)

  -- `is_shut_down` is what the context says when the execution has ended.
  unfoldable pub process_online :
      Bool → String → List Input → Execution → Runner → Conn → Outcome Runner
  process_online is_shut_down test es x w c =
      let v = requested (start test) (record w { status = WorkerStatus.running }) in
      started_online is_shut_down test es x v (post_start send codec v.id test c)

  abbrev assigned_online :
      Bool → ℕ → List Input → Runner → Result AssignmentResponse × Conn → Outcome Runner
  assigned_online is_shut_down now es w (err e, c) = (some (err e), w, c)
  assigned_online is_shut_down now es w (ok a, c) =
      if a.assigned
      then process_online is_shut_down a.test_id es
          (record { stopped = false; collector = new_collector a.test_id w.id now; published = [] })
          w c
      else (some (ok tt), w, c)

  unfoldable pub poll_online : Bool → ℕ → List Input → Runner → Conn → Outcome Runner
  poll_online is_shut_down now es w c =
      assigned_online is_shut_down now es w (fetch_assignment send codec w.id c)

  abbrev unless_registered : Outcome Runner → Result (Unit {0}) × Runner × Conn → Outcome Runner
  unless_registered again (ok _, w, c) = (some (ok tt), w, c)
  unless_registered again (err e, w, c) = again

  -- `registerWithRetry`; `tick` ends the wait after an attempt, `done` ends the context.
  unfoldable pub register_online :
      (String → WorkerStatus) → WorkerConfig → List Signal → Runner → Conn → Outcome Runner
  register_online as_status cfg [] w c =
      let r = register as_status cfg w c in unless_registered (none, r.1, r.2) r
  register_online as_status cfg (done ∷ signals) w c =
      let r = register as_status cfg w c in unless_registered (some (err cancelled), r.1, r.2) r
  register_online as_status cfg (Signal.tick ∷ signals) w c =
      let r = register as_status cfg w c in
      let again = register_online as_status cfg signals r.1 r.2 in unless_registered again r

  abbrev after_poll : Outcome Runner → Outcome Runner → Outcome Runner
  after_poll (none, w, c) rest = (none, w, c)
  after_poll (some _, w, c) rest = rest

  -- The heartbeat loop and the poll loop of a worker, by the order of their ticks, until both end; an
  -- error of either is logged. While an execution has no end, the poll loop has no next tick.
  unfoldable pub run_loops : List Turn → Runner → Conn → Outcome Runner
  run_loops [] w c = (none, w, c)
  run_loops (stop ∷ turns) w c = (some (ok tt), w, c)
  run_loops (heartbeat_tick ∷ turns) w c = run_loops turns w (send_heartbeat w c).1
  run_loops (poll_tick is_shut_down now es ∷ turns) w c =
      let o = poll_online is_shut_down now es w c in
      let rest = run_loops turns o.1 o.2 in after_poll o rest

  abbrev started_loops : List Turn → Outcome Runner → Outcome Runner
  started_loops turns (some (ok _), w, c) = run_loops turns w c
  started_loops turns (some (err e), w, c) = (some (err e), w, c)
  started_loops turns (none, w, c) = (none, w, c)

  -- `Runtime.Start`.
  unfoldable pub start_runtime :
      (String → WorkerStatus)
      → WorkerConfig
      → List Signal
      → List Turn
      → Runner
      → Conn
      → Outcome Runner
  start_runtime as_status cfg signals turns w c =
      started_loops turns (register_online as_status cfg signals w c)
