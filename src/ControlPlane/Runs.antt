-- ===== src/ControlPlane/Runs.antt =====
-- The control plane of cmd/server/main.go in operation: its requests and its two loops on one database.
use vulcan.Prelude.{String, Option, none, some, List, [], ◌∷◌, ◌-◌}
use vulcan.Driver.{Env, Conn}
use vulcan.Config.{Config}
use vulcan.Repository.Keys.{Keyed}
use vulcan.Repository.Kept.{
  StateKept, StateKept-refl, StateKept-trans, Keeps, OthersKeep, bind-Keeps,
}
use vulcan.Repository.Kept.Operations.{mark_offline_workers-Keeps, sweep-Keeps}
use vulcan.Autoscaler.Reconciler.{run_once}
use vulcan.Autoscaler.Kept.{ProvisionerKeeps, reconcile-Keeps}
use vulcan.Repository.Workers.{mark_offline_workers}
use vulcan.Health.{heartbeat_timeout, health_sweep, reconcile_health}
use vulcan.Api.{Request}
use vulcan.Api.Endpoints.{Endpoint}
use vulcan.Api.Router.{Server, control_plane, dispatched}
use vulcan.Api.Kept.{ServerKeeps, serve-Keeps}
use vulcan.ControlPlane.{
  Machine, Event, request, health_tick, autoscaler_tick, wire_service, wire, on_event, run_events,
}

dispatched-Keeps :
    (server : Server)
    → ServerKeeps server
    → (e : Option Endpoint) (body : String) (c : Conn) → Keyed c.db.workers
    → StateKept c.db (dispatched server e body c).1.db
dispatched-Keeps server k none body c h = StateKept-refl c.db h
dispatched-Keeps server k (some e) body c h = (serve-Keeps server k e body).keeps c h

control_plane-Keeps :
    (server : Server) → ServerKeeps server → (req : Request) → Keeps (control_plane server req)
unfolding control_plane
control_plane-Keeps server k req = record {
  keeps = λ c h. dispatched-Keeps server k (server.router.route req) req.body c h;
}

health_sweep-Keeps : (env : Env) → OthersKeep env → Keeps (health_sweep env)
unfolding health_sweep
health_sweep-Keeps env rely = record {
  keeps = λ c h.
      (bind-Keeps (mark_offline_workers env (env.clock c.calls - heartbeat_timeout)) _
          (mark_offline_workers-Keeps env rely _) (λ _. sweep-Keeps env rely)).keeps
        c h;
}

module _ {F : Type 0} (machine : Machine F) (cfg : Config) (env : Env) (rely : OthersKeep env)
    (k : ProvisionerKeeps (machine.provisioner cfg)) where
  wired : ServerKeeps (wire machine cfg env)
  unfolding wire wire_service
  wired = record {
    rely = rely;
    asked = record {
      cycle = reconcile-Keeps env rely (machine.provisioner cfg) k cfg.worker_capacity_rps;
      provision = k.provision;
    };
    shows = λ e. record { keeps = λ c h. StateKept-refl c.db h };
  }

  on_event-StateKept :
      (e : Event) (c : Conn) → Keyed c.db.workers → StateKept c.db (on_event machine cfg env e c).db
  unfolding on_event reconcile_health run_once
  on_event-StateKept (request req) c h =
      (control_plane-Keeps (wire machine cfg env) wired req).keeps c h
  on_event-StateKept health_tick c h = (health_sweep-Keeps env rely).keeps c h
  on_event-StateKept autoscaler_tick c h =
      (reconcile-Keeps env rely (machine.provisioner cfg) k cfg.worker_capacity_rps).keeps c h

  -- A control plane as main puts it together keeps its database through any sequence of requests of any
  -- kind, ticks of the health loop and cycles of the autoscaler, whichever calls of the database fail: no
  -- worker is lost, changes its identity or comes back from DRAINING or OFFLINE; every assignment stays
  -- in the table with its test, its worker and its rate; its status only moves from RESERVED to RUNNING,
  -- COMPLETED or FAILED and from RUNNING to COMPLETED or FAILED; and one that is COMPLETED or FAILED is
  -- never changed again. This holds if the identifiers of the workers differ at first, and if what runs
  -- at the same time and the provisioner's calls keep all this too.
  pub run_events-StateKept :
      (es : List Event) (c : Conn)
      → Keyed c.db.workers
      → StateKept c.db (run_events machine cfg env es c).db
  unfolding run_events
  run_events-StateKept [] c h = StateKept-refl c.db h
  run_events-StateKept (e ∷ es) c h =
      let first = on_event-StateKept e c h in
      StateKept-trans _ _ _ first
        (run_events-StateKept es (on_event machine cfg env e c) first.fleet.keyed)
