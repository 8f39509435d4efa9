-- ===== src/Api/Kept.antt =====
-- Every request that the handlers of internal/api serve keeps workers and assignments.
use vulcan.Prelude.{ℕ, String, Option, none, some}
use vulcan.Errors.{Error, Result, ok, err}
use vulcan.Models.{WorkerStatus}
use vulcan.Driver.{Db, Conn, M}
use vulcan.Repository.Keys.{Keyed}
use vulcan.Repository.Kept.{StateKept, StateKept-refl, Keeps, OthersKeep, keeps}
use vulcan.Repository.Kept.Operations.{
  get_tests-Keeps, get_test_by_id-Keeps, get_workers-Keeps, get_worker_by_id-Keeps,
}
use vulcan.Service.Kept.{
  ServiceKeeps, submit_test-Keeps, register_worker-Keeps, heartbeat-Keeps, get_assignment-Keeps,
  start_assignment-Keeps, complete_assignment-Keeps, fail_assignment-Keeps, stop_test-Keeps,
  start_test-Keeps,
}
use vulcan.Api.{Response, Handler, answer, answered, decoded}
use vulcan.Api.Endpoints.{
  Endpoint, health, get_workers, get_tests, register_worker, create_test, get_worker, heartbeat,
  get_assignment, start_assignment, complete_assignment, fail_assignment, get_test, start_test,
  stop_test, get_metrics, get_history,
}
use vulcan.Api.Tests.{
  handle_create_test, handle_get_tests, handle_get_test, handle_stop_test, handle_start_test,
}
use vulcan.Api.Workers.{
  heartbeat_with, handle_register_worker, handle_get_workers, handle_get_worker, handle_heartbeat,
  handle_get_assignment, handle_transition, handle_start_assignment, handle_complete_assignment,
  handle_fail_assignment,
}
use vulcan.Api.Router.{Server, serve}

pub record HandlerKeeps (h : Handler) : Type 0 where
  pub keeps : (c : Conn) → Keyed c.db.workers → StateKept c.db (h c).1.db

answered-Keeps :
    {A : Type 0} (good : A → Response) (bad : Error → Response) (d : Db) (r : Result A × Conn)
    → StateKept d r.1.db
    → StateKept d (answered good bad r).1.db
answered-Keeps good bad d (ok a, c) h = h
answered-Keeps good bad d (err e, c) h = h

answer-Keeps :
    {A : Type 0} (good : A → Response) (bad : Error → Response) (m : M A)
    → Keeps m
    → HandlerKeeps (answer good bad m)
answer-Keeps good bad m h = record {
  keeps = λ c k. answered-Keeps good bad c.db (m c) (h.keeps c k);
}

decoded-Keeps :
    {A : Type 0} (r : Result A) (bad : Error → Response) (next : A → Handler)
    → ((a : A) → HandlerKeeps (next a))
    → HandlerKeeps (decoded r bad next)
decoded-Keeps (ok a) bad next h = record { keeps = λ c k. (h a).keeps c k }
decoded-Keeps (err e) bad next h = record { keeps = λ c k. StateKept-refl c.db k }

ruleset handled = (answer-Keeps, decoded-Keeps)

-- The parts of a server that are parameters here keep the state.
pub record ServerKeeps (server : Server) : Type 0 where
  pub rely : OthersKeep server.env
  pub asked : ServiceKeeps server.service
  pub shows : (e : Endpoint) → HandlerKeeps (server.dashboard e)

module _ (server : Server) (k : ServerKeeps server) where
  open server use {env, strings, service, test_codec, worker_codec}

  transition-Keeps :
      (step : String → String → M (Unit {0})) (worker body : String)
      → ((test w : String) → Keeps (step test w))
      → HandlerKeeps (handle_transition env strings worker_codec step worker body)
  unfolding handle_transition
  transition-Keeps step worker body h = search (handled, h)

  heartbeat_with-Keeps :
      (id : String) (status : Option WorkerStatus)
      → Keeps (heartbeat_with env strings worker_codec id status)
  unfolding heartbeat_with
  heartbeat_with-Keeps id none = search keeps
  heartbeat_with-Keeps id (some status) = heartbeat-Keeps env k.rely id status

  registration-Keeps :
      (id : String) (now : ℕ) (body : String)
      → HandlerKeeps (handle_register_worker env strings worker_codec id now body)
  unfolding handle_register_worker
  registration-Keeps id now body = search (handled, register_worker-Keeps env k.rely strings)

  creation-Keeps :
      (id : String) (now : ℕ) (body : String)
      → HandlerKeeps (handle_create_test env strings service test_codec id now body)
  unfolding handle_create_test
  creation-Keeps id now body = search (handled, submit_test-Keeps env k.rely strings service)

  pub serve-Keeps : (e : Endpoint) (body : String) → HandlerKeeps (serve server e body)
  unfolding serve handle_register_worker handle_get_workers handle_get_worker handle_heartbeat
      handle_get_assignment handle_start_assignment handle_complete_assignment
      handle_fail_assignment handle_create_test handle_get_tests handle_get_test handle_stop_test
      handle_start_test
  serve-Keeps health body = record { keeps = λ c h. StateKept-refl c.db h }
  serve-Keeps get_workers body = search (handled, get_workers-Keeps env k.rely)
  serve-Keeps get_tests body = search (handled, get_tests-Keeps env k.rely)
  serve-Keeps register_worker body = record {
    keeps = λ c h. (registration-Keeps (server.fresh c.calls) (env.clock c.calls) body).keeps c h;
  }
  serve-Keeps create_test body = record {
    keeps = λ c h. (creation-Keeps (server.fresh c.calls) (env.clock c.calls) body).keeps c h;
  }
  serve-Keeps (get_worker id) body = search (handled, get_worker_by_id-Keeps env k.rely)
  serve-Keeps (heartbeat id) body = search (handled, heartbeat_with-Keeps)
  serve-Keeps (get_assignment id) body = search (handled, get_assignment-Keeps env k.rely)
  serve-Keeps (start_assignment id) body =
      search (transition-Keeps, start_assignment-Keeps env k.rely)
  serve-Keeps (complete_assignment id) body =
      search (transition-Keeps, complete_assignment-Keeps env k.rely)
  serve-Keeps (fail_assignment id) body =
      search (transition-Keeps, fail_assignment-Keeps env k.rely)
  serve-Keeps (get_test id) body = search (handled, get_test_by_id-Keeps env k.rely)
  serve-Keeps (start_test id) body = search (handled, start_test-Keeps env k.rely service k.asked)
  serve-Keeps (stop_test id) body = search (handled, stop_test-Keeps env k.rely service k.asked)
  serve-Keeps (get_metrics id) body = k.shows (get_metrics id)
  serve-Keeps (get_history id) body = k.shows (get_history id)
