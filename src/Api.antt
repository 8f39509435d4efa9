-- ===== src/Api.antt =====
-- internal/api: what the control plane answers over HTTP. Requests name the endpoint of
-- router/router.go that they are for; a body is a text. encoding/json and the texts of errors come in
-- a record.
pub mod Endpoints
pub mod Tests
pub mod Workers
pub mod Router
pub mod Errors
pub mod Metrics
pub mod Kept
use vulcan.Prelude.{ℕ, String, Bool, true, false, Option, none, some, List, ℤ}
use vulcan.Errors.{
  Error, test_not_found, worker_not_found, invalid_test_state, insufficient_workers, Result, ok,
  err,
}
use vulcan.Models.{Test, Worker, WorkerStatus}
use vulcan.Driver.{Conn, M}

-- The path is in its segments; the address of the server before it is left out. A request without a
-- body has an empty one.
pub record Request : Type 0 where
  pub method : String
  pub path : List String
  pub body : String

pub record Response : Type 0 where
  pub status : ℕ
  pub body : String

-- `response.APIError`.
pub record ApiError : Type 0 where
  pub code : String
  pub message : String

pub record WorkerSummary : Type 0 where
  pub id : String
  pub hostname : String

pub record StartTestResponse : Type 0 where
  pub test_id : String
  pub status : String
  pub workers : List WorkerSummary

-- `controlplane.AssignmentResponse`. The field `status` is the text of the assignment's status.
pub record AssignmentResponse : Type 0 where
  pub assigned : Bool
  pub test_id : String
  pub status : String
  pub target_url : String
  pub method : String
  pub duration_sec : ℤ
  pub rps : ℤ
  pub concurrency : ℤ

-- `json.Encoder.Encode`, which may fail.
abbrev pub Encoder : Type 0 → Type 0
Encoder A = A → Option String

-- `json.Decoder.Decode` into a variable of the type.
abbrev pub Decoder : Type 0 → Type 0
Decoder A = String → Result A

abbrev written : ℕ → Option String → Response
written status none = record { status = 500; body = "failed to encode response\n" }
written status (some s) = record { status = status; body = s }

-- `response.JSON`. `http.Error` ends its text with a newline.
unfoldable pub json : {A : Type 0} → Encoder A → ℕ → A → Response
json encode status a = written status (encode a)

-- `w.WriteHeader(http.StatusNoContent)`.
abbrev pub no_content : Response
no_content = record { status = 204; body = "" }

-- `response.Error`.
unfoldable pub error : Encoder ApiError → ℕ → String → String → Response
unfolding json
error encode status code message = json encode status (record { code = code; message = message })

abbrev pub Handler : Type 0
Handler = Conn → Response × Conn

abbrev pub answered :
    {A : Type 0} → (A → Response) → (Error → Response) → Result A × Conn → Response × Conn
answered good bad (ok a, c) = (good a, c)
answered good bad (err e, c) = (bad e, c)

-- A handler calls a service and answers by its result.
abbrev pub answer : {A : Type 0} → (A → Response) → (Error → Response) → M A → Handler
answer good bad m c = answered good bad (m c)

-- A handler first decodes the body; where that fails it calls no service.
abbrev pub decoded : {A : Type 0} → Result A → (Error → Response) → (A → Handler) → Handler
decoded (ok a) bad next c = next a c
decoded (err e) bad next c = (bad e, c)

-- `errors.Is` for the errors that the handlers ask for.
abbrev pub is_test_not_found : Error → Bool
is_test_not_found test_not_found = true
is_test_not_found _ = false

abbrev pub is_worker_not_found : Error → Bool
is_worker_not_found worker_not_found = true
is_worker_not_found _ = false

abbrev pub is_invalid_test_state : Error → Bool
is_invalid_test_state invalid_test_state = true
is_invalid_test_state _ = false

abbrev pub is_insufficient_workers : Error → Bool
is_insufficient_workers insufficient_workers = true
is_insufficient_workers _ = false
