-- ===== src/Api/Workers.antt =====
-- internal/api/handlers/worker_handler.go and assignment.go.
use vulcan.Prelude.{ℕ, String, true, false, Option, none, some, List, pos, if◌then◌else◌}
use vulcan.Errors.{Error, cause, invalid}
use vulcan.Models.{Worker, WorkerStatus, AssignmentStatus}
use vulcan.Driver.{Env, M, throw}
use vulcan.Validation.{Strings}
use vulcan.Repository.Workers.{get_workers, get_worker_by_id}
use vulcan.Repository.Assignments.{AssignmentDetails}
use vulcan.Service.Workers.{
  RegisterWorkerRequest, register_worker, heartbeat, get_assignment, start_assignment,
  complete_assignment, fail_assignment,
}
use vulcan.Api.{
  Response, ApiError, AssignmentResponse, Encoder, Decoder, json, no_content, error, Handler,
  answer, decoded, is_worker_not_found,
}

-- encoding/json for the types of the handlers, and `err.Error()`. The status of a heartbeat is a
-- text; `none` stands for the texts that are no status.
pub record WorkerCodec : Type 0 where
  pub register_request : Decoder RegisterWorkerRequest
  pub heartbeat_request : Decoder (Option WorkerStatus)
  -- `models.AssignmentTransitionRequest`, the identifier of a test.
  pub transition_request : Decoder String
  pub worker : Encoder Worker
  pub workers : Encoder (List Worker)
  pub assignment : Encoder AssignmentResponse
  pub api_error : Encoder ApiError
  pub text : Error → String

-- The texts of models/assignment.go.
abbrev pub status_text : AssignmentStatus → String
status_text AssignmentStatus.reserved = "RESERVED"
status_text AssignmentStatus.running = "RUNNING"
status_text AssignmentStatus.completed = "COMPLETED"
status_text AssignmentStatus.failed = "FAILED"

unfoldable pub unassigned : AssignmentResponse
unassigned = record {
  assigned = false;
  test_id = "";
  status = "";
  target_url = "";
  method = "";
  duration_sec = pos 0;
  rps = pos 0;
  concurrency = pos 0;
}

unfoldable pub assignment_response : Option AssignmentDetails → AssignmentResponse
unfolding unassigned
assignment_response none = unassigned
assignment_response (some a) = record {
  assigned = true;
  test_id = a.test_id;
  status = status_text a.status;
  target_url = a.target_url;
  method = a.method;
  duration_sec = a.duration_sec;
  rps = pos a.rps;
  concurrency = a.concurrency;
}

module _ (env : Env) (strings : Strings) (codec : WorkerCodec) where
  open codec use {api_error, text}

  refused : ℕ → String → Error → Response
  refused status code e = error api_error status code (text e)

  unfoldable pub handle_register_worker : String → ℕ → String → Handler
  unfolding refused
  handle_register_worker id now body =
      decoded (codec.register_request body) (refused 400 "VALIDATION_ERROR") λ req.
        answer (json codec.worker 201) (refused 400 "VALIDATION_ERROR")
          (register_worker env strings id now req)

  unfoldable pub handle_get_workers : Handler
  handle_get_workers =
      answer (json codec.workers 200)
        (λ e. error api_error 500 "INTERNAL_ERROR" "failed to fetch workers") (get_workers env)

  unfoldable pub handle_get_worker : String → Handler
  handle_get_worker id =
      answer (json codec.worker 200)
        (λ e.
          if is_worker_not_found (cause e)
          then error api_error 404 "NOT_FOUND" (text e)
          else error api_error 500 "INTERNAL_ERROR" "internal server error")
        (get_worker_by_id env id)

  -- The service refuses a text that is no status as it refuses OFFLINE.
  unfoldable pub heartbeat_with : String → Option WorkerStatus → M (Unit {0})
  heartbeat_with id none = throw (invalid "status" "invalid worker status")
  heartbeat_with id (some status) = heartbeat env id status

  unfoldable pub handle_heartbeat : String → String → Handler
  unfolding refused heartbeat_with
  handle_heartbeat id body =
      decoded (codec.heartbeat_request body) (refused 400 "VALIDATION_ERROR") λ status.
        answer (λ _. no_content)
          (λ e.
            if is_worker_not_found (cause e)
            then error api_error 404 "NOT_FOUND" (text e)
            else error api_error 400 "VALIDATION_ERROR" (text e))
          (heartbeat_with id status)

  unfoldable pub handle_get_assignment : String → Handler
  unfolding refused
  handle_get_assignment worker =
      answer (λ a. json codec.assignment 200 (assignment_response a))
        (refused 500 "INTERNAL_SERVER_ERROR") (get_assignment env worker)

  -- The three transitions differ in the call of the service.
  unfoldable pub handle_transition : (String → String → M (Unit {0})) → String → String → Handler
  unfolding refused
  handle_transition step worker body =
      decoded (codec.transition_request body)
        (λ e. error api_error 400 "INVALID_REQUEST" "invalid request body")
        λ test. answer (λ _. no_content) (refused 500 "INTERNAL_SERVER_ERROR") (step test worker)

  unfoldable pub handle_start_assignment : String → String → Handler
  unfolding handle_transition
  handle_start_assignment worker body = handle_transition (start_assignment env) worker body

  unfoldable pub handle_complete_assignment : String → String → Handler
  unfolding handle_transition
  handle_complete_assignment worker body = handle_transition (complete_assignment env) worker body

  unfoldable pub handle_fail_assignment : String → String → Handler
  unfolding handle_transition
  handle_fail_assignment worker body = handle_transition (fail_assignment env) worker body
