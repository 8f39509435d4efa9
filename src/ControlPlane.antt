-- ===== src/ControlPlane.antt =====
-- cmd/server/main.go with internal/db/db.go: the control plane puts its parts together, and then serves
-- requests while the health loop and the autoscaler run beside it.
pub mod Runs
use vulcan.Prelude.{ℕ, String, Bool, Option, none, some, List, [], ◌∷◌, ℤ, pos}
use vulcan.Errors.{Error, wrap, Result, ok, err, and_then}
use vulcan.Driver.{Env, Conn}
use vulcan.Validation.{Strings}
use vulcan.Config.{Environment, Config, load_server_config}
use vulcan.Service.Tests.{TestService}
use vulcan.Autoscaler.Reconciler.{Provisioner, reconcile, run_once}
use vulcan.Health.{reconcile_health}
use vulcan.Dashboard.{Numbers, Query}
use vulcan.Api.{Request, Response, Handler}
use vulcan.Api.Endpoints.{Endpoint, get_metrics, get_history}
use vulcan.Api.Tests.{TestCodec}
use vulcan.Api.Workers.{WorkerCodec}
use vulcan.Api.Metrics.{DashboardCodec, handle_get_metrics, handle_get_history}
use vulcan.Api.Router.{Router, Server, control_plane}

-- What the process takes from Go's library, from other libraries and from the machine. `provisioner`
-- stands for the calls of the process provisioner, whose processes are not in the database.
pub record Machine (F : Type 0) : Type 0 where
  pub strings : Strings
  pub test_codec : TestCodec
  pub worker_codec : WorkerCodec
  pub dashboard_codec : DashboardCodec F
  pub numbers : Numbers F
  pub query : String → Query F
  pub range_query : String → Query F
  pub provisioner : Config → Provisioner
  pub router : Router
  pub fresh : ℕ → String
  pub health_answer : Response

-- `db.New`: `pgxpool.New` for the address, and a ping.
unfoldable pub new_pool : (String → Result Env) → (Env → Result (Unit {0})) → Config → Result Env
new_pool open_pool ping cfg = elim (open_pool cfg.database_url) [
  | err e ↦ err (wrap "failed to create database pool" e)
  | ok env ↦ elim (ping env) [
    | err e ↦ err (wrap "failed to connect to database" e)
    | ok _ ↦ ok env
  ]
]

-- What happens to a control plane that runs: a request, a tick of the health loop, and a cycle of the
-- autoscaler.
pub data Event : Type 0 where
  request : Request → Event
  health_tick autoscaler_tick : Event

module _ {F : Type 0} (machine : Machine F) where
  open machine use {
    strings, test_codec, worker_codec, dashboard_codec, numbers, query, range_query, provisioner,
    router, fresh, health_answer,
  }

  -- The service that starts tests asks the same autoscaler that runs beside it. A wait has 60 ticks of
  -- 500 ms in its 30 s.
  unfoldable pub wire_service : Config → Env → TestService
  wire_service cfg env = record {
    worker_capacity_rps = cfg.worker_capacity_rps;
    reconcile = some (reconcile env (provisioner cfg) cfg.worker_capacity_rps);
    provision = some ((provisioner cfg).provision);
    ticks = 60;
  }

  unfoldable pub show_metrics : Config → Endpoint → Response
  show_metrics cfg (get_metrics id) =
      handle_get_metrics numbers dashboard_codec (query cfg.victoria_metrics_url) id
  show_metrics cfg (get_history id) =
      handle_get_history numbers dashboard_codec (range_query cfg.victoria_metrics_url) id
  show_metrics cfg _ = router.unrouted

  unfoldable pub wire : Config → Env → Server
  unfolding wire_service show_metrics
  wire cfg env = record {
    env = env;
    strings = strings;
    service = wire_service cfg env;
    test_codec = test_codec;
    worker_codec = worker_codec;
    router = router;
    fresh = fresh;
    dashboard = λ e c. (show_metrics cfg e, c);
    health_answer = health_answer;
  }

  unfoldable pub on_event : Config → Env → Event → Conn → Conn
  on_event cfg env (request req) c = (control_plane (wire cfg env) req c).1
  on_event cfg env health_tick c = reconcile_health env c
  on_event cfg env autoscaler_tick c = run_once env (provisioner cfg) cfg.worker_capacity_rps c

  -- In the order in which their statements take effect; what runs at the same time as one of them is
  -- in `Env.others`.
  unfoldable pub run_events : Config → Env → List Event → Conn → Conn
  unfolding on_event
  run_events cfg env [] c = c
  run_events cfg env (e ∷ es) c = run_events cfg env es (on_event cfg env e c)

-- How `main` goes on: it exits with a code, or it serves.
pub data Started : Type 0 where
  exits : ℕ → Started
  serves : Config → Env → Started

-- `main` up to `http.ListenAndServe`.
unfoldable pub start_server :
    Environment → (String → Result Env) → (Env → Result (Unit {0})) → Started
start_server environment open_pool ping = elim (load_server_config environment) [
  | err e ↦ exits 1
  | ok cfg ↦ elim (new_pool open_pool ping cfg) [ err e ↦ exits 1 | ok env ↦ serves cfg env ]
]
