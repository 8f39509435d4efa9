-- ===== src/Api/Endpoints.antt =====
-- The routes of internal/api/router/router.go under /api/v1. chi finds the route of a request.
use vulcan.Prelude.{String, List, [], ◌∷◌}

pub data Endpoint : Type 0 where
  health get_workers get_tests register_worker create_test : Endpoint
  get_worker heartbeat get_assignment start_assignment complete_assignment fail_assignment :
      String → Endpoint
  get_test start_test stop_test get_metrics get_history : String → Endpoint

-- The table: the method, and the path in its segments, `{id}` filled in.
abbrev pub method_of : Endpoint → String
method_of health = "GET"
method_of get_workers = "GET"
method_of get_tests = "GET"
method_of register_worker = "POST"
method_of create_test = "POST"
method_of (get_worker id) = "GET"
method_of (heartbeat id) = "POST"
method_of (get_assignment id) = "GET"
method_of (start_assignment id) = "POST"
method_of (complete_assignment id) = "POST"
method_of (fail_assignment id) = "POST"
method_of (get_test id) = "GET"
method_of (start_test id) = "POST"
method_of (stop_test id) = "POST"
method_of (get_metrics id) = "GET"
method_of (get_history id) = "GET"

abbrev worker_path : String → List String → List String
worker_path id rest = "api" ∷ "v1" ∷ "workers" ∷ id ∷ rest

abbrev test_path : String → List String → List String
test_path id rest = "api" ∷ "v1" ∷ "tests" ∷ id ∷ rest

abbrev pub path_of : Endpoint → List String
path_of health = "health" ∷ []
path_of get_workers = "api" ∷ "v1" ∷ "workers" ∷ []
path_of get_tests = "api" ∷ "v1" ∷ "tests" ∷ []
path_of register_worker = "api" ∷ "v1" ∷ "workers" ∷ []
path_of create_test = "api" ∷ "v1" ∷ "tests" ∷ []
path_of (get_worker id) = worker_path id []
path_of (heartbeat id) = worker_path id ("heartbeat" ∷ [])
path_of (get_assignment id) = worker_path id ("assignment" ∷ [])
path_of (start_assignment id) = worker_path id ("assignment" ∷ "start" ∷ [])
path_of (complete_assignment id) = worker_path id ("assignment" ∷ "complete" ∷ [])
path_of (fail_assignment id) = worker_path id ("assignment" ∷ "fail" ∷ [])
path_of (get_test id) = test_path id []
path_of (start_test id) = test_path id ("start" ∷ [])
path_of (stop_test id) = test_path id ("stop" ∷ [])
path_of (get_metrics id) = test_path id ("metrics" ∷ [])
path_of (get_history id) = test_path id ("metrics" ∷ "history" ∷ [])

-- The worker or test that the request names; there is none for the collections.
abbrev pub id_of : Endpoint → String
id_of (get_worker id) = id
id_of (heartbeat id) = id
id_of (get_assignment id) = id
id_of (start_assignment id) = id
id_of (complete_assignment id) = id
id_of (fail_assignment id) = id
id_of (get_test id) = id
id_of (start_test id) = id
id_of (stop_test id) = id
id_of (get_metrics id) = id
id_of (get_history id) = id
id_of _ = ""
