-- ===== src/Client.antt =====
-- internal/controlplane/client.go: the calls that a worker makes of the control plane. `http.Client.Do`
-- is a parameter, and so is encoding/json.
pub mod Serving
pub mod Stops
use vulcan.Prelude.{ℕ, String, Bool, Option, none, some, List, [], ◌∷◌, ◌==◌, if◌then◌else◌}
use vulcan.Errors.{Error, message, Result, ok, err}
use vulcan.Models.{WorkerStatus}
use vulcan.Driver.{Conn, M, ◌>>=◌}
use vulcan.Api.{Request, Response, AssignmentResponse, Encoder, Decoder}
use vulcan.Service.Workers.{RegisterWorkerRequest}

-- The fields `id`, `hostname` and `status` of the answer to a registration.
pub record RegisterWorkerResponse : Type 0 where
  pub id : String
  pub hostname : String
  pub status : String

pub record TestStatusResponse : Type 0 where
  pub id : String
  pub status : String

-- encoding/json for the types of the client.
pub record ClientCodec : Type 0 where
  pub register_request : Encoder RegisterWorkerRequest
  pub heartbeat_request : Encoder WorkerStatus
  pub transition_request : Encoder String
  pub register_response : Decoder RegisterWorkerResponse
  pub assignment : Decoder AssignmentResponse
  pub test_status : Decoder TestStatusResponse

-- `http.Client.Do` and the state of the world that it acts on.
abbrev pub Transport : Type 0
Transport = Request → M Response

-- The payload of a request that has one.
abbrev pub marshalled : Option String → Result String
marshalled none = err (message "json: unsupported value")
marshalled (some s) = ok s

abbrev pub read_body : {A : Type 0} → ℕ → Decoder A → Result Response × Conn → Result A × Conn
read_body expected decode (err e, c) = (err e, c)
read_body expected decode (ok r, c) =
    if r.status == expected then (decode r.body, c) else (err (message "request failed"), c)

-- `doRequest`; a caller without a variable for the response ignores the body.
unfoldable pub do_request :
    {A : Type 0} → Transport → String → List String → Result String → ℕ → Decoder A → M A
do_request send method path (err e) expected decode c = (err e, c)
do_request send method path (ok body) expected decode c =
    read_body expected decode (send (record { method = method; path = path; body = body }) c)

abbrev pub ignore_body : Decoder (Unit {0})
ignore_body s = ok tt

module _ (send : Transport) (codec : ClientCodec) where
  unfoldable pub post_registration : RegisterWorkerRequest → M RegisterWorkerResponse
  post_registration req =
      do_request send "POST" ("api" ∷ "v1" ∷ "workers" ∷ [])
        (marshalled (codec.register_request req)) 201 codec.register_response

  unfoldable pub post_heartbeat : String → WorkerStatus → M (Unit {0})
  post_heartbeat worker status =
      do_request send "POST" ("api" ∷ "v1" ∷ "workers" ∷ worker ∷ "heartbeat" ∷ [])
        (marshalled (codec.heartbeat_request status)) 204 ignore_body

  unfoldable pub fetch_assignment : String → M AssignmentResponse
  fetch_assignment worker =
      do_request send "GET" ("api" ∷ "v1" ∷ "workers" ∷ worker ∷ "assignment" ∷ []) (ok "") 200
        codec.assignment

  unfoldable pub post_start : String → String → M (Unit {0})
  post_start worker test =
      do_request send "POST" ("api" ∷ "v1" ∷ "workers" ∷ worker ∷ "assignment" ∷ "start" ∷ [])
        (marshalled (codec.transition_request test)) 204 ignore_body

  unfoldable pub post_complete : String → String → M (Unit {0})
  post_complete worker test =
      do_request send "POST" ("api" ∷ "v1" ∷ "workers" ∷ worker ∷ "assignment" ∷ "complete" ∷ [])
        (marshalled (codec.transition_request test)) 204 ignore_body

  unfoldable pub post_fail : String → String → M (Unit {0})
  post_fail worker test =
      do_request send "POST" ("api" ∷ "v1" ∷ "workers" ∷ worker ∷ "assignment" ∷ "fail" ∷ [])
        (marshalled (codec.transition_request test)) 204 ignore_body

  unfoldable pub fetch_test : String → M TestStatusResponse
  fetch_test test =
      do_request send "GET" ("api" ∷ "v1" ∷ "tests" ∷ test ∷ []) (ok "") 200 codec.test_status
