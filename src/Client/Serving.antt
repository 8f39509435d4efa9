-- ===== src/Client/Serving.antt =====
-- A worker that calls the control plane over HTTP does to it what the service does.
use vulcan.Prelude.{
  String, ◌≡◌, ◌∙◌, refl, Bool, true, false, ◌⊎◌, inl, inr, none, pos, ◌==◌, Option, some, arith,
}
use vulcan.Errors.{Result, ok, is_ok}
use mathlib.Core.List.{Mem}
use vulcan.Service.Reads.{IsShown, get_assignment-IsShown}
use vulcan.Models.{WorkerStatus, Test, Assignment, AssignmentStatus}
use vulcan.Driver.{Db, Conn, M}
use vulcan.Repository.Tests.{find_test}
use vulcan.Repository.Effects.{found}
use vulcan.Repository.Assignments.{AssignmentDetails}
use vulcan.Service.Workers.{
  heartbeat, get_assignment, start_assignment, complete_assignment, fail_assignment,
}
use vulcan.Api.{AssignmentResponse, Response, json, error}
use vulcan.Api.Endpoints.{Endpoint, method_of, path_of, id_of}
use vulcan.Api.Errors.{answer-agrees}
use vulcan.Api.Router.{Routes, Server, serve, control_plane, control_plane-serve}
use vulcan.Api.Workers.{
  assignment_response, handle_heartbeat, handle_get_assignment, handle_start_assignment,
  handle_complete_assignment, handle_fail_assignment, handle_transition, heartbeat_with,
}
use vulcan.Client.{
  ClientCodec, do_request, post_heartbeat, post_start, post_complete, post_fail, fetch_assignment,
  ignore_body,
}

-- One side reads what the other has written.
abbrev pub Agrees : {B : Type 0} → Option String → (String → Result B) → B → Type 0
Agrees written read b = (s : String) × (written ≡ some s) × (read s ≡ ok b)

-- Two runs that both succeed or both fail, and end in the same state.
abbrev pub SameEffect : {A B : Type 0} → Result A × Conn → Result B × Conn → Type 0
SameEffect r q = (is_ok r.0 ≡ is_ok q.0) × (r.1 ≡ q.1)

abbrev is_no_content : Response → Bool
is_no_content r = r.status == 204

-- What the worker is told, where the service has found `o`.
abbrev pub IsTold : Db → String → Option AssignmentDetails → AssignmentResponse → Type 0
IsTold d worker o r =
    ((o ≡ none) × (r.assigned ≡ false))
    ⊎ ((a : Assignment) × (t : Test) × Mem a d.assignments
        × (find_test a.test_id d.tests ≡ some t)
        × (a.worker_id ≡ worker)
        × (a.status ≡ AssignmentStatus.reserved)
        × (r.assigned ≡ true)
        × (r.test_id ≡ a.test_id)
        × (r.rps ≡ pos a.rps)
        × (r.target_url ≡ t.target_url)
        × (r.method ≡ t.method)
        × (r.duration_sec ≡ t.duration_sec)
        × (r.concurrency ≡ t.concurrency))

module _ (server : Server) (worker : String) (routes : Routes server.router worker) where
  -- A call whose answer has no body succeeds exactly when the server answers 204.
  empty_call :
      (e : Endpoint) (body : String) (c : Conn)
      → id_of e ≡ worker
      → let r =
          do_request (control_plane server) (method_of e) (path_of e) (ok body) 204 ignore_body c in
        (is_ok r.0 ≡ is_no_content (serve server e body c).0) × (r.1 ≡ (serve server e body c).1)
  unfolding do_request
  empty_call e body c h =
      rw (control_plane-serve server worker routes e body c h) (ground arith, ground arith)

  open server use {env, strings, worker_codec}

  transition-serves :
      (step : String → String → M (Unit {0})) (body test : String) (c : Conn)
      → worker_codec.transition_request body ≡ ok test
      → (is_no_content (handle_transition env strings worker_codec step worker body c).0
          ≡ is_ok (step test worker c).0)
        × ((handle_transition env strings worker_codec step worker body c).1
            ≡ (step test worker c).1)
  unfolding handle_transition error json
  transition-serves step body test c h =
      rw h (answer-agrees is_no_content _ _ (step test worker) c (λ _. refl) (λ e. ground arith))

  heartbeat-serves :
      (status : WorkerStatus) (body : String) (c : Conn)
      → worker_codec.heartbeat_request body ≡ ok (some status)
      → (is_no_content (handle_heartbeat env strings worker_codec worker body c).0
          ≡ is_ok (heartbeat env worker status c).0)
        × ((handle_heartbeat env strings worker_codec worker body c).1
            ≡ (heartbeat env worker status c).1)
  unfolding handle_heartbeat heartbeat_with error json
  heartbeat-serves status body c h = rw h (
      answer-agrees is_no_content _ _ (heartbeat env worker status) c (λ _. refl)
        (λ e. ground arith))

  -- Through a chain of two agreements.
  chained :
      {A B : Type 0} {p : Bool} (r : Result A × Conn) (m : Conn) (q : Result B × Conn)
      → (is_ok r.0 ≡ p) × (r.1 ≡ m)
      → (p ≡ is_ok q.0) × (m ≡ q.1)
      → SameEffect r q
  chained r m q h k = (h.0 ∙ k.0, h.1 ∙ k.1)

  module _ (codec : ClientCodec) where
    pub transitions-serve :
        (test : String) (c : Conn)
        → Agrees (codec.transition_request test) worker_codec.transition_request test
        → let send = control_plane server in
          SameEffect (post_start send codec worker test c) (start_assignment env test worker c)
          × SameEffect
              (post_complete send codec worker test c)
              (complete_assignment env test worker c)
          × SameEffect (post_fail send codec worker test c) (fail_assignment env test worker c)
    unfolding post_start post_complete post_fail serve handle_start_assignment
        handle_complete_assignment handle_fail_assignment
    transitions-serve test c (d, wrote_test, reads_test) = rw wrote_test (
      chained _ _ _ (empty_call (Endpoint.start_assignment worker) d c refl)
          (transition-serves (start_assignment env) d test c reads_test),
      chained _ _ _ (empty_call (Endpoint.complete_assignment worker) d c refl)
          (transition-serves (complete_assignment env) d test c reads_test),
      chained _ _ _ (empty_call (Endpoint.fail_assignment worker) d c refl)
          (transition-serves (fail_assignment env) d test c reads_test),
    )

    fetched :
        (a : Option AssignmentDetails) (c c' : Conn)
        → get_assignment env worker c ≡ (ok a, c')
        → Agrees
            (worker_codec.assignment (assignment_response a))
            codec.assignment
            (assignment_response a)
        → fetch_assignment (control_plane server) codec worker c ≡ (ok (assignment_response a), c')
    unfolding fetch_assignment do_request serve handle_get_assignment json
    fetched a c c' found (s, wrote, reads) =
        rw (control_plane-serve server worker routes (Endpoint.get_assignment worker) "" c refl)
          (ground (arith, found, wrote, reads))

    -- The calls by which a worker reports to the control plane over HTTP, where no request and no
    -- answer is lost, succeed exactly when the operations of the service succeed that they stand for,
    -- and leave the database as these leave it: the heartbeat, and the starts, completions and
    -- failures of assignments. The path must be routed, and the server must read what the worker has
    -- written into the bodies.
    pub reports_refine :
        (test : String) (status : WorkerStatus) (c : Conn)
        → Agrees (codec.heartbeat_request status) worker_codec.heartbeat_request (some status)
        → Agrees (codec.transition_request test) worker_codec.transition_request test
        → let send = control_plane server in
          SameEffect (post_heartbeat send codec worker status c) (heartbeat env worker status c)
          × SameEffect (post_start send codec worker test c) (start_assignment env test worker c)
          × SameEffect
              (post_complete send codec worker test c)
              (complete_assignment env test worker c)
          × SameEffect (post_fail send codec worker test c) (fail_assignment env test worker c)
    unfolding post_heartbeat serve
    reports_refine test status c (b, wrote, reads) agrees =
        let (start, complete, fail) = transitions-serve test c agrees in
        (
          rw wrote (
              chained _ _ _ (empty_call (Endpoint.heartbeat worker) b c refl)
                (heartbeat-serves status b c reads)),
          start,
          complete,
          fail,
        )

    -- A worker that asks for its assignment over HTTP, where nothing is lost and the service can read the
    -- database, is told of a RESERVED row of its own in the table of assignments, or, where the service
    -- has found none, that it has no assignment. Of a row it gets the identifier of its test, its share of
    -- the rate, and the target, the method, the duration and the concurrency that the test has in the
    -- table of tests. The path must be routed, and the worker must read back what the server has written.
    pub fetch_assignment-roundtrip :
        (o : Option AssignmentDetails) (c c' : Conn)
        → get_assignment env worker c ≡ (ok o, c')
        → Agrees
            (worker_codec.assignment (assignment_response o))
            codec.assignment
            (assignment_response o)
        → (r : AssignmentResponse) × (fetch_assignment (control_plane server) codec worker c
            ≡ (ok r, c'))
          × IsTold (found env c) worker o r
    unfolding assignment_response
    fetch_assignment-roundtrip o c c' got agrees = (
      assignment_response o,
      fetched o c c' got agrees,
      told o (get_assignment-IsShown env worker c got),
    )
      where
        told :
            (o : Option AssignmentDetails)
            → IsShown (found env c) worker o
            → IsTold (found env c) worker o (assignment_response o)
        told none h = inl (refl, refl)
        told (some d) (a, t, m, f, w, s, e) = inr (
          a,
          t,
          m,
          f,
          w,
          s,
          refl,
          rw e refl,
          rw e refl,
          rw e refl,
          rw e refl,
          rw e refl,
          rw e refl,
        )
