-- ===== src/Examples/Http.antt =====
-- The theorems on the HTTP API and its client, at a control plane with a small fleet.
use vulcan.Prelude.{
  String, ◌≡◌, refl, Option, none, some, List, [], ◌∷◌, pos, str_eq, if◌then◌else◌,
}
use vulcan.Errors.{message, ok, err, is_ok}
use vulcan.Models.{TestStatus, WorkerStatus, AssignmentStatus}
use vulcan.Driver.{Db}
use vulcan.Validation.{Strings}
use vulcan.Repository.Assignments.{AssignmentDetails, details, get_reserved_assignment}
use vulcan.Service.Tests.{CreateTestRequest, TestService, submit_test}
use vulcan.Service.Workers.{complete_assignment, get_assignment}
use vulcan.Api.{AssignmentResponse}
use vulcan.Api.Endpoints.{Endpoint}
use vulcan.Api.Tests.{TestCodec, handle_create_test}
use vulcan.Api.Workers.{WorkerCodec, assignment_response}
use vulcan.Api.Router.{Router, Routes, Server, control_plane}
use vulcan.Api.Errors.{succeeds, test_handlers-agree}
use vulcan.Client.{ClientCodec, post_complete, fetch_assignment}
use vulcan.Client.Serving.{SameEffect, IsTold, reports_refine, fetch_assignment-roundtrip}
use vulcan.Client.Stops.{test_status_text}
use vulcan.Examples.{test, assignment, fleet, quiet, at}

abbrev collection : String → String → Endpoint
collection method kind =
    if str_eq kind "workers"
    then if str_eq method "GET" then Endpoint.get_workers else Endpoint.register_worker
    else if str_eq method "GET"
    then Endpoint.get_tests
    else Endpoint.create_test

abbrev worker_route : String → List String → Endpoint
worker_route id [] = Endpoint.get_worker id
worker_route id (a ∷ []) =
    if str_eq a "heartbeat" then Endpoint.heartbeat id else Endpoint.get_assignment id
worker_route id (a ∷ b ∷ rest) =
    if str_eq b "start"
    then Endpoint.start_assignment id
    else if str_eq b "complete"
    then Endpoint.complete_assignment id
    else Endpoint.fail_assignment id

abbrev test_route : String → List String → Endpoint
test_route id [] = Endpoint.get_test id
test_route id (a ∷ []) =
    if str_eq a "start"
    then Endpoint.start_test id
    else if str_eq a "stop"
    then Endpoint.stop_test id
    else Endpoint.get_metrics id
test_route id (a ∷ b ∷ rest) = Endpoint.get_history id

abbrev route : String → List String → Option Endpoint
route method (a ∷ []) = some Endpoint.health
route method (a ∷ v ∷ kind ∷ []) = some (collection method kind)
route method (a ∷ v ∷ kind ∷ id ∷ rest) =
    some (if str_eq kind "workers" then worker_route id rest else test_route id rest)
route method _ = none

abbrev pub router : Router
router = record {
  route = λ req. route req.method req.path;
  unrouted = record { status = 404; body = "404 page not found\n" };
}

pub router-Routes : (id : String) → Routes router id
router-Routes id Endpoint.health body h = refl
router-Routes id Endpoint.get_workers body h = refl
router-Routes id Endpoint.get_tests body h = refl
router-Routes id Endpoint.register_worker body h = refl
router-Routes id Endpoint.create_test body h = refl
router-Routes id (Endpoint.get_worker w) body h = refl
router-Routes id (Endpoint.heartbeat w) body h = refl
router-Routes id (Endpoint.get_assignment w) body h = refl
router-Routes id (Endpoint.start_assignment w) body h = refl
router-Routes id (Endpoint.complete_assignment w) body h = refl
router-Routes id (Endpoint.fail_assignment w) body h = refl
router-Routes id (Endpoint.get_test t) body h = refl
router-Routes id (Endpoint.start_test t) body h = refl
router-Routes id (Endpoint.stop_test t) body h = refl
router-Routes id (Endpoint.get_metrics t) body h = refl
router-Routes id (Endpoint.get_history t) body h = refl

abbrev create_request : CreateTestRequest
create_request = record {
  name = "smoke";
  worker_count = pos 0;
  target_url = "http://localhost";
  method = "GET";
  duration_sec = pos 30;
  rps = pos 150;
  concurrency = pos 10;
}

-- Texts that carry what the theorems below need of a value.
abbrev pub test_codec : TestCodec
test_codec = record {
  create_request = λ s. ok create_request;
  test = λ t. some (test_status_text t.status);
  tests = λ ts. some "[]";
  started = λ s. some s.test_id;
  api_error = λ e. some e.code;
  text = λ e. "error";
}

abbrev status_of : String → Option WorkerStatus
status_of s = if str_eq s "RUNNING" then some WorkerStatus.running else none

abbrev pub worker_codec : WorkerCodec
worker_codec = record {
  register_request = λ s. err (message "unexpected EOF");
  heartbeat_request = λ s. ok (status_of s);
  transition_request = λ s. ok s;
  worker = λ w. some w.id;
  workers = λ ws. some "[]";
  assignment = λ a. some a.test_id;
  api_error = λ e. some e.code;
  text = λ e. "error";
}

abbrev pub strings : Strings
strings = record { trim_space = λ s. s; to_upper = λ s. s; len = λ s. 5 }

abbrev service : TestService
service = record { worker_capacity_rps = pos 100; reconcile = none; provision = none; ticks = 60 }

abbrev pub server : Server
server = record {
  env = quiet;
  strings = strings;
  service = service;
  test_codec = test_codec;
  worker_codec = worker_codec;
  router = router;
  fresh = λ n. "fresh";
  dashboard = λ e c. (record { status = 200; body = "{}" }, c);
  health_answer = record { status = 200; body = "OK" };
}

-- Worker w4 has been reserved for test t2.
abbrev reserved : Db
reserved = record fleet { assignments = assignment "t2" "w4" AssignmentStatus.reserved ∷ [] }

abbrev share : AssignmentDetails
share = details (assignment "t2" "w4" AssignmentStatus.reserved) (test "t2" TestStatus.running)

abbrev pub codec : ClientCodec
codec = record {
  register_request = λ r. some r.hostname;
  heartbeat_request = λ s. some "RUNNING";
  transition_request = λ t. some t;
  register_response = λ s. err (message "unexpected EOF");
  assignment = λ s. ok (assignment_response (some share));
  test_status = λ s. ok (record { id = "t2"; status = s });
}

reports_refine_example :
    SameEffect
      (post_complete (control_plane server) codec "w3" "t2" (at fleet))
      (complete_assignment quiet "t2" "w3" (at fleet))
reports_refine_example =
    let (_, _, complete, _) =
      reports_refine server "w3" (router-Routes "w3") codec "t2" WorkerStatus.running (at fleet)
        ("RUNNING", refl, refl) ("t2", refl, refl) in
    complete

test_handlers-agree_example :
    succeeds (handle_create_test quiet strings service test_codec "t3" 7 "{}" (at fleet)).0
    ≡ is_ok (submit_test quiet strings service "t3" 7 create_request (at fleet)).0
test_handlers-agree_example =
    (test_handlers-agree quiet strings service test_codec (λ t. (test_status_text t.status, refl))
      (λ s. (s.test_id, refl)) "t3" 7 "{}" create_request (at fleet) refl).0.0

fetch_assignment-roundtrip_example :
    (r : AssignmentResponse) × ((fetch_assignment (control_plane server) codec "w4" (at reserved))
      ≡ (ok r, (get_assignment quiet "w4" (at reserved)).1))
    × IsTold reserved "w4" (some share) r
fetch_assignment-roundtrip_example =
    fetch_assignment-roundtrip server "w4" (router-Routes "w4") codec (some share) (at reserved)
      (get_assignment quiet "w4" (at reserved)).1
      (unfold get_assignment get_reserved_assignment in refl)
      (unfold assignment_response in ("t2", refl, refl))
