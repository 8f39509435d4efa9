-- ===== src/Runner/Online/Lost.antt =====
-- A worker whose start of an assignment reaches the control plane, and whose answer does not reach the
-- worker.
use vulcan.Prelude.{
  ℕ, String, ◌≡◌, ◌∙◌, sym, refl, Bool, true, some, List, ◌∷◌, arith, count_by, ◌<◌, str_eq,
  update_where,
}
use vulcan.Errors.{Error, Result, ok, err, is_ok}
use vulcan.Models.{WorkerStatus}
use vulcan.Driver.{Conn}
use vulcan.Repository.Rows.{worker_is}
use vulcan.Repository.Tables.{count_by-update_where}
use vulcan.Repository.Workers.{update_heartbeat, beat}
use vulcan.Repository.Effects.{found}
use vulcan.Repository.Assignments.{runs, waits, mark_assignment_running}
use vulcan.Repository.Outcomes.{mark_assignment_running_lem}
use vulcan.Service.Workers.{heartbeat, start_assignment}
use vulcan.Service.Tests.Stop.{IsAlone}
use vulcan.Api.Endpoints.{Endpoint, path_of}
use vulcan.Api.Router.{Server, Routes, control_plane}
use vulcan.Api.{Request, Response, Decoder}
use vulcan.Client.{ClientCodec, Transport, read_body, ignore_body, do_request, post_start}
use vulcan.Client.Serving.{Agrees, transitions-serve}
use vulcan.Runner.{Execution, Runner, start}
use vulcan.Runner.Online.{Input, process_online}
use vulcan.Runner.Online.Completion.{wrapped-ok, ok-unit}

abbrev start_request : String → String → Request
start_request worker body = record {
  method = "POST";
  path = path_of (Endpoint.start_assignment worker);
  body = body;
}

-- The control plane handles the start that the worker makes at `c`, and its answer is lost.
abbrev pub LosesStart : Transport → Server → String → Conn → Error → Type 0
LosesStart send server worker c e =
    (body : String)
    → send (start_request worker body) c
      ≡ (err e, (control_plane server (start_request worker body) c).1)

-- What the client makes of an answer changes nothing on the other side.
do_request-state :
    {A : Type 0} (send : Transport) (method : String) (path : List String) (body : String)
    → (expected : ℕ) (decode : Decoder A) (c : Conn)
    → (do_request send method path (ok body) expected decode c).1
      ≡ (send (record { method = method; path = path; body = body }) c).1
unfolding do_request
do_request-state send method path body expected decode c =
    go (send (record { method = method; path = path; body = body }) c)
  where
    go : (r : Result Response × Conn) → (read_body expected decode r).1 ≡ r.1
    go (ok r, d) = ground arith
    go (err e, d) = refl

module _ (server : Server) (codec : ClientCodec) (test : String) where
  open server use {env, worker_codec}

  read :
      (send : Transport) (worker body : String) {c : Conn} {e : Error} {d : Conn}
      → send (start_request worker body) c ≡ (err e, d)
      → do_request send "POST"
          (path_of (Endpoint.start_assignment worker))
          (ok body)
          204
          ignore_body
          c
        ≡ (err e, d)
  unfolding do_request
  read send worker body h = rw h refl

  beaten :
      (worker : String) (c : Conn)
      → (update_heartbeat env worker WorkerStatus.idle c).0 ≡ ok tt
      → (update_heartbeat env worker WorkerStatus.idle c).1.db ≡ record (found env c) {
        workers =
            update_where
              (λ w. str_eq w.id worker)
              (beat WorkerStatus.idle (env.clock c.calls))
              (found env c).workers;
      }
  unfolding update_heartbeat
  beaten worker c k = ground arith

  -- A heartbeat that succeeds, where the worker is idle.
  heartbeat-idle :
      (worker : String) (c : Conn)
      → IsAlone env
      → (heartbeat env worker WorkerStatus.idle c).0 ≡ ok tt
      → let d = (heartbeat env worker WorkerStatus.idle c).1.db in
        (count_by (worker_is worker WorkerStatus.running) d.workers ≡ 0)
        × (d.assignments ≡ c.db.assignments)
  unfolding heartbeat
  heartbeat-idle worker c alone h =
      let same = beaten worker c h in
      rw (same, alone c.calls c.db)
        (
          count_by-update_where (worker_is worker WorkerStatus.running) (λ w. str_eq w.id worker)
              (beat WorkerStatus.idle (env.clock c.calls)) c.db.workers (λ w k. ground arith)
              (λ w k. ground arith),
          refl,
        )

  start-applied :
      (send : Transport) (worker : String) (c : Conn) (e : Error)
      → Agrees (codec.transition_request test) worker_codec.transition_request test
      → LosesStart send server worker c e
      → post_start send codec worker test c
        ≡ (err e, (post_start (control_plane server) codec worker test c).1)
  unfolding post_start
  start-applied send worker c e (s, wrote, reads) lost =
      rw
        (
          wrote,
          do_request-state (control_plane server) "POST"
              (path_of (Endpoint.start_assignment worker)) s 204 ignore_body c,
        )
        (read send worker s (lost s))

  -- Where the control plane carries out the start of an assignment and its answer is lost, the run of
  -- the assignment ends with an error; the worker is idle and has reported neither a completion nor
  -- a failure. The assignment is RUNNING, and does not wait for the worker any more. Once a heartbeat
  -- of the worker has succeeded, where no other client writes meanwhile, no row has the worker as
  -- RUNNING, and the assignment is still RUNNING.
  pub process_online-start_lost :
      (send : Transport) (is_shut_down : Bool) (es : List Input) (x : Execution) (w : Runner)
      (c : Conn) (e : Error)
      → Routes server.router w.id
      → Agrees (codec.transition_request test) worker_codec.transition_request test
      → IsAlone env
      → LosesStart send server w.id c e
      → is_ok (start_assignment env test w.id c).0 ≡ true
      → let (r, w', c') = process_online send codec is_shut_down test es x w c in
        let beaten = heartbeat env w.id w'.status c' in
        (r ≡ some (err e))
        × (w'.status ≡ WorkerStatus.idle)
        × (w'.requests ≡ start test ∷ w.requests)
        × (count_by (waits test w.id) c'.db.assignments ≡ 0)
        × (0 < count_by (runs test w.id) c'.db.assignments)
        × (beaten.0 ≡ ok tt
            → (count_by (worker_is w.id WorkerStatus.running) beaten.1.db.workers ≡ 0)
              × (beaten.1.db.assignments ≡ c'.db.assignments))
  unfolding process_online start_assignment
  process_online-start_lost send is_shut_down es x w c e routes reads alone lost began =
      let applied = start-applied send w.id c e reads lost in
      let (same, _, _) = transitions-serve server w.id routes codec test c reads in
      let (fine, at) =
        wrapped-ok "start assignment" (mark_assignment_running env test w.id c) began in
      let (_, none_waits, one_runs) =
        mark_assignment_running_lem env c test w.id (ok-unit _ fine) in
      let there = sym at ∙ sym same.1 in
      rw applied (
        refl,
        refl,
        refl,
        rw there at none_waits,
        rw there at one_runs,
        heartbeat-idle w.id _ alone,
      )
