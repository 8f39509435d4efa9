-- ===== src/Api/Tests.antt =====
-- internal/api/handlers/test_handler.go.
use vulcan.Prelude.{ℕ, String, List, map, if◌then◌else◌}
use vulcan.Errors.{Error, cause}
use vulcan.Models.{Test, Worker}
use vulcan.Driver.{Env}
use vulcan.Validation.{Strings}
use vulcan.Repository.Tests.{get_tests, get_test_by_id}
use vulcan.Service.Tests.{CreateTestRequest, TestService, submit_test, stop_test, start_test}
use vulcan.Api.{
  Response, ApiError, WorkerSummary, StartTestResponse, Encoder, Decoder, json, no_content, error,
  Handler, answer, decoded, is_test_not_found, is_invalid_test_state, is_insufficient_workers,
}

-- encoding/json for the types of the handlers, and `err.Error()`.
pub record TestCodec : Type 0 where
  pub create_request : Decoder CreateTestRequest
  pub test : Encoder Test
  pub tests : Encoder (List Test)
  pub started : Encoder StartTestResponse
  pub api_error : Encoder ApiError
  pub text : Error → String

abbrev pub summary : Worker → WorkerSummary
summary w = record { id = w.id; hostname = w.hostname }

module _ (env : Env) (strings : Strings) (service : TestService) (codec : TestCodec) where
  open codec use {api_error, text}

  -- `err.Error()` is the message.
  unfoldable pub invalid_request : Error → Response
  invalid_request e = error api_error 400 "VALIDATION_ERROR" (text e)

  unfoldable pub missing_or_internal : Error → Response
  missing_or_internal e =
      if is_test_not_found (cause e)
      then error api_error 404 "NOT_FOUND" (text e)
      else error api_error 500 "INTERNAL_ERROR" "internal server error"

  -- The identifier and the time come from the service's libraries.
  unfoldable pub handle_create_test : String → ℕ → String → Handler
  handle_create_test id now body = decoded (codec.create_request body) invalid_request λ req.
      answer (json codec.test 201) invalid_request (submit_test env strings service id now req)

  unfoldable pub handle_get_tests : Handler
  handle_get_tests =
      answer (json codec.tests 200)
        (λ e. error api_error 500 "INTERNAL_ERROR" "failed to fetch tests") (get_tests env)

  unfoldable pub handle_get_test : String → Handler
  handle_get_test id = answer (json codec.test 200) missing_or_internal (get_test_by_id env id)

  unfoldable pub handle_stop_test : String → Handler
  handle_stop_test id = answer (λ _. no_content) missing_or_internal (stop_test env service id)

  -- The switch of `StartTest`.
  unfoldable pub start_refusal : Error → Response
  start_refusal e =
      if is_test_not_found (cause e)
      then error api_error 404 "NOT_FOUND" (text e)
      else if is_invalid_test_state (cause e)
      then error api_error 409 "VALIDATION_ERROR" (text e)
      else if is_insufficient_workers (cause e)
      then error api_error 409 "VALIDATION_ERROR" (text e)
      else error api_error 500 "INTERNAL_ERROR" "internal server error"

  unfoldable pub handle_start_test : String → Handler
  handle_start_test id =
      answer
        (λ workers.
          json codec.started 200
            (record { test_id = id; status = "RUNNING"; workers = map summary workers }))
        start_refusal (start_test env service id)
