-- ===== src/Api/Router.antt =====
-- internal/api/router/router.go: requests are handed to the handlers. chi and its middleware find
-- the endpoint that a request is for, so that comes in a record.
use vulcan.Prelude.{ℕ, String, Option, none, some, ◌≡◌, refl}
use vulcan.Errors.{Result, ok}
use vulcan.Driver.{Env, Conn, M}
use vulcan.Validation.{Strings}
use vulcan.Service.Tests.{TestService}
use vulcan.Api.{Request, Response, Handler}
use vulcan.Api.Endpoints.{
  Endpoint, health, get_workers, get_tests, register_worker, create_test, get_worker, heartbeat,
  get_assignment, start_assignment, complete_assignment, fail_assignment, get_test, start_test,
  stop_test, get_metrics, get_history, method_of, path_of, id_of,
}
use vulcan.Api.Tests.{
  TestCodec, handle_create_test, handle_get_tests, handle_get_test, handle_stop_test,
  handle_start_test,
}
use vulcan.Api.Workers.{
  WorkerCodec, handle_register_worker, handle_get_workers, handle_get_worker, handle_heartbeat,
  handle_get_assignment, handle_start_assignment, handle_complete_assignment,
  handle_fail_assignment,
}

-- `unrouted` is the answer where no route fits.
pub record Router : Type 0 where
  pub route : Request → Option Endpoint
  pub unrouted : Response

-- A path that names `id` where the pattern of a route has `{id}` goes to that route.
abbrev pub Routes : Router → String → Type 0
Routes router id =
    (e : Endpoint) (body : String)
    → id_of e ≡ id
    → router.route (record { method = method_of e; path = path_of e; body = body }) ≡ some e

-- What the handlers work with; the dashboard answers `get_metrics` and `get_history`, and `fresh`
-- gives the identifiers that the services make.
pub record Server : Type 0 where
  pub env : Env
  pub strings : Strings
  pub service : TestService
  pub test_codec : TestCodec
  pub worker_codec : WorkerCodec
  pub router : Router
  pub fresh : ℕ → String
  pub dashboard : Endpoint → Handler
  pub health_answer : Response

module _ (server : Server) where
  open server use {
    env, strings, service, test_codec, worker_codec, router, fresh, dashboard, health_answer,
  }

  -- The table of `NewRouter`.
  unfoldable pub serve : Endpoint → String → Handler
  serve health body = λ c. (health_answer, c)
  serve get_workers body = handle_get_workers env strings worker_codec
  serve get_tests body = handle_get_tests env strings service test_codec
  serve register_worker body = λ c.
      handle_register_worker env strings worker_codec (fresh c.calls) (env.clock c.calls) body c
  serve create_test body = λ c.
      handle_create_test env strings service test_codec (fresh c.calls) (env.clock c.calls) body c
  serve (get_worker id) body = handle_get_worker env strings worker_codec id
  serve (heartbeat id) body = handle_heartbeat env strings worker_codec id body
  serve (get_assignment id) body = handle_get_assignment env strings worker_codec id
  serve (start_assignment id) body = handle_start_assignment env strings worker_codec id body
  serve (complete_assignment id) body = handle_complete_assignment env strings worker_codec id body
  serve (fail_assignment id) body = handle_fail_assignment env strings worker_codec id body
  serve (get_test id) body = handle_get_test env strings service test_codec id
  serve (start_test id) body = handle_start_test env strings service test_codec id
  serve (stop_test id) body = handle_stop_test env strings service test_codec id
  serve (get_metrics id) body = dashboard (get_metrics id)
  serve (get_history id) body = dashboard (get_history id)

  abbrev pub dispatched : Option Endpoint → String → Conn → Result Response × Conn
  dispatched none body c = (ok router.unrouted, c)
  dispatched (some e) body c = let (r, c') = serve e body c in (ok r, c')

  -- The whole control plane, as the network sees it when no request is lost.
  unfoldable pub control_plane : Request → M Response
  control_plane req = dispatched (router.route req) req.body

pub control_plane-serve :
    (server : Server) (id : String)
    → Routes server.router id
    → (e : Endpoint) (body : String) (c : Conn) → id_of e ≡ id
    → control_plane server (record { method = method_of e; path = path_of e; body = body }) c
      ≡ (ok (serve server e body c).0, (serve server e body c).1)
unfolding control_plane
control_plane-serve server id routes e body c h = rw (routes e body h) refl
