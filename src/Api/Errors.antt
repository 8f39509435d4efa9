-- ===== src/Api/Errors.antt =====
-- Which status the handlers of internal/api/handlers answer with.
use vulcan.Prelude.{
  ℕ, String, ◌≡◌, ◌≤◌, ◌<◌, refl, Bool, true, false, Option, some, arith, ltb, count_by,
  if◌then◌else◌,
}
use vulcan.Errors.{Error, invalid_test_state, cause, Result, ok, err, is_ok}
use vulcan.Models.{Test, TestStatus, WorkerStatus}
use vulcan.Driver.{Env, Conn, M}
use vulcan.Validation.{Strings}
use vulcan.Repository.Effects.{found}
use vulcan.Repository.Tests.{has_status, get_test_by_id}
use vulcan.Repository.Assignments.{lives}
use vulcan.Repository.Outcomes.{mark_assignment_failed_refused}
use vulcan.Service.Tests.{CreateTestRequest, TestService, submit_test, stop_test, start_test}
use vulcan.Service.Tests.Start.{start_test_refused}
use vulcan.Service.Workers.{start_assignment, complete_assignment, fail_assignment}
use vulcan.Api.{ApiError, Response, Encoder, json, error, answer, answered, is_worker_not_found}
use vulcan.Api.Tests.{
  TestCodec, handle_create_test, handle_get_test, handle_stop_test, handle_start_test,
  invalid_request, missing_or_internal, start_refusal,
}
use vulcan.Api.Workers.{
  WorkerCodec, handle_heartbeat, handle_start_assignment, handle_complete_assignment,
  handle_fail_assignment, handle_transition, heartbeat_with,
}

abbrev pub succeeds : Response → Bool
succeeds r = ltb r.status 400

-- The encoder never fails.
abbrev pub Encodes : {A : Type 0} → Encoder A → Type 0
Encodes {A} encode = (a : A) → (s : String) × (encode a ≡ some s)

json-succeeds :
    {A : Type 0} (encode : Encoder A) (status : ℕ)
    → Encodes encode
    → status < 400
    → (a : A) → succeeds (json encode status a) ≡ true
unfolding json
json-succeeds encode status total h a = let (s, e) = total a in ground (arith, e)

error-fails :
    (encode : Encoder ApiError) (status : ℕ) (code message : String)
    → 400 ≤ status
    → succeeds (error encode status code message) ≡ false
unfolding error
error-fails encode status code message h = ground arith

pub answer-agrees :
    (p : Response → Bool)
    → {A : Type 0} (good : A → Response) (bad : Error → Response) (m : M A) (c : Conn)
    → ((a : A) → p (good a) ≡ true)
    → ((e : Error) → p (bad e) ≡ false)
    → (p (answer good bad m c).0 ≡ is_ok (m c).0) × ((answer good bad m c).1 ≡ (m c).1)
answer-agrees p {A} good bad m c fine fails = go (m c)
  where
    go :
        (r : Result A × Conn)
        → (p (answered good bad r).0 ≡ is_ok r.0) × ((answered good bad r).1 ≡ r.1)
    go (ok a, c') = (fine a, refl)
    go (err e, c') = (fails e, refl)

module _ (env : Env) (strings : Strings) (service : TestService) (codec : TestCodec) where
  invalid_request-fails :
      (e : Error) → succeeds (invalid_request env strings service codec e) ≡ false
  unfolding invalid_request error
  invalid_request-fails e = ground arith

  missing_or_internal-fails :
      (e : Error) → succeeds (missing_or_internal env strings service codec e) ≡ false
  unfolding missing_or_internal error
  missing_or_internal-fails e = ground arith

  start_refusal-fails : (e : Error) → succeeds (start_refusal env strings service codec e) ≡ false
  unfolding start_refusal error
  start_refusal-fails e = ground arith

module _ (env : Env) (strings : Strings) (service : TestService) (codec : TestCodec)
    (test_total : Encodes codec.test) (started_total : Encodes codec.started) where
  -- The handlers that create, read, start and stop a test answer with success exactly when the
  -- service does what they ask, and leave the database as the service leaves it, if the body of the
  -- creation decodes and tests and answers to a start can be encoded.
  pub test_handlers-agree :
      (id : String) (now : ℕ) (body : String) (req : CreateTestRequest) (c : Conn)
      → codec.create_request body ≡ ok req
      → let create = handle_create_test env strings service codec id now body c in
        let get = handle_get_test env strings service codec id c in
        let start = handle_start_test env strings service codec id c in
        let stop = handle_stop_test env strings service codec id c in
        ((succeeds create.0 ≡ is_ok (submit_test env strings service id now req c).0)
          × (create.1 ≡ (submit_test env strings service id now req c).1))
        × ((succeeds get.0 ≡ is_ok (get_test_by_id env id c).0)
            × (get.1 ≡ (get_test_by_id env id c).1))
        × ((succeeds start.0 ≡ is_ok (start_test env service id c).0)
            × (start.1 ≡ (start_test env service id c).1))
        × ((succeeds stop.0 ≡ is_ok (stop_test env service id c).0)
            × (stop.1 ≡ (stop_test env service id c).1))
  unfolding handle_create_test handle_get_test handle_start_test handle_stop_test
  test_handlers-agree id now body req c h = (
    rw h (
        answer-agrees succeeds _ _ (submit_test env strings service id now req) c
          (json-succeeds codec.test 201 test_total (omega arith))
          (invalid_request-fails env strings service codec)),
    answer-agrees succeeds _ _ (get_test_by_id env id) c
        (json-succeeds codec.test 200 test_total (omega arith))
        (missing_or_internal-fails env strings service codec),
    answer-agrees succeeds _ _ (start_test env service id) c
        (λ ws. json-succeeds codec.started 200 started_total (omega arith) _)
        (start_refusal-fails env strings service codec),
    answer-agrees succeeds _ _ (stop_test env service id) c (λ _. refl)
        (missing_or_internal-fails env strings service codec),
  )

-- A start that finds its test in another status than CREATED is answered with 409 Conflict, where
-- errors can be encoded, and leaves the database as it found it.
handle_start_test_conflict :
    (env : Env) (strings : Strings) (service : TestService) (codec : TestCodec) (id : String)
    (t : Test) (c c₁ : Conn)
    → Encodes codec.api_error
    → get_test_by_id env id c ≡ (ok t, c₁)
    → env.fails c₁.calls ≡ false
    → count_by (has_status id TestStatus.created) (found env c₁).tests ≡ 0
    → ((handle_start_test env strings service codec id c).0.status ≡ 409)
      × ((handle_start_test env strings service codec id c).1.db ≡ found env c₁)
unfolding handle_start_test start_refusal error json cause
handle_start_test_conflict env strings service codec id t c c₁ total read accepted absent =
    let (refused, same) = start_test_refused env service id t c c₁ read accepted absent in
    ground (
      arith,
      refused,
      same,
      total (record { code = "VALIDATION_ERROR"; message = codec.text invalid_test_state }),
    )

module _ (env : Env) (strings : Strings) (codec : WorkerCodec) where
  heartbeat_refusal-fails :
      (e : Error)
      → succeeds (
          if is_worker_not_found (cause e)
          then error codec.api_error 404 "NOT_FOUND" (codec.text e)
          else error codec.api_error 400 "VALIDATION_ERROR" (codec.text e))
        ≡ false
  unfolding error
  heartbeat_refusal-fails e = ground arith

  transition-succeeds :
      (step : String → String → M (Unit {0})) (worker body test : String) (c : Conn)
      → codec.transition_request body ≡ ok test
      → (succeeds (handle_transition env strings codec step worker body c).0
          ≡ is_ok (step test worker c).0)
        × ((handle_transition env strings codec step worker body c).1 ≡ (step test worker c).1)
  unfolding handle_transition
  transition-succeeds step worker body test c h = rw h (
      answer-agrees succeeds _ _ (step test worker) c (λ _. refl)
        (λ e. error-fails codec.api_error 500 "INTERNAL_SERVER_ERROR" (codec.text e) (omega arith)))

  -- The handlers that take a heartbeat, and the reports that an assignment starts, completes or
  -- fails, answer with success exactly when the service does what they ask, and leave the database as
  -- the service leaves it, if their bodies decode.
  worker_handlers-agree :
      (worker beat_body body test : String) (status : Option WorkerStatus) (c : Conn)
      → codec.heartbeat_request beat_body ≡ ok status
      → codec.transition_request body ≡ ok test
      → let beat = handle_heartbeat env strings codec worker beat_body c in
        let start = handle_start_assignment env strings codec worker body c in
        let complete = handle_complete_assignment env strings codec worker body c in
        let fail = handle_fail_assignment env strings codec worker body c in
        ((succeeds beat.0 ≡ is_ok (heartbeat_with env strings codec worker status c).0)
          × (beat.1 ≡ (heartbeat_with env strings codec worker status c).1))
        × ((succeeds start.0 ≡ is_ok (start_assignment env test worker c).0)
            × (start.1 ≡ (start_assignment env test worker c).1))
        × ((succeeds complete.0 ≡ is_ok (complete_assignment env test worker c).0)
            × (complete.1 ≡ (complete_assignment env test worker c).1))
        × ((succeeds fail.0 ≡ is_ok (fail_assignment env test worker c).0)
            × (fail.1 ≡ (fail_assignment env test worker c).1))
  unfolding handle_heartbeat handle_start_assignment handle_complete_assignment
      handle_fail_assignment
  worker_handlers-agree worker beat_body body test status c h k = (
    rw h (
        answer-agrees succeeds _ _ (heartbeat_with env strings codec worker status) c (λ _. refl)
          heartbeat_refusal-fails),
    transition-succeeds (start_assignment env) worker body test c k,
    transition-succeeds (complete_assignment env) worker body test c k,
    transition-succeeds (fail_assignment env) worker body test c k,
  )

-- The report that an unknown assignment failed is answered with 500 Internal Server Error, not 404,
-- if its body decodes, and leaves the database as it found it.
handle_fail_assignment_unknown :
    (env : Env) (strings : Strings) (codec : WorkerCodec) (worker body test : String) (c : Conn)
    → codec.transition_request body ≡ ok test
    → count_by (lives test worker) (found env c).assignments ≡ 0
    → ((handle_fail_assignment env strings codec worker body c).0.status ≡ 500)
      × ((handle_fail_assignment env strings codec worker body c).1.db ≡ found env c)
unfolding handle_fail_assignment error json fail_assignment
handle_fail_assignment_unknown env strings codec worker body test c h absent =
    let (bad, same) = mark_assignment_failed_refused env c test worker absent in
    rw h (ground (arith, bad, same))
