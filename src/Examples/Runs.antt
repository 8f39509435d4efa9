-- ===== src/Examples/Runs.antt =====
-- The theorem on a control plane that runs, at a small fleet.
use vulcan.Prelude.{List, [], ◌∷◌, ℤ, pos, some}
use vulcan.Errors.{ok}
use vulcan.Config.{Config}
use vulcan.Dashboard.{done}
use vulcan.Repository.Kept.{StateKept, OthersKeep, StateKept-refl}
use vulcan.Autoscaler.Kept.{ProvisionerKeeps}
use vulcan.ControlPlane.{Machine, Event, request, health_tick, autoscaler_tick, run_events}
use vulcan.ControlPlane.Runs.{run_events-StateKept}
use vulcan.Examples.{fleet, quiet, at, fleet-Keyed}
use vulcan.Examples.Storage.{quiet_fleet, quiet_ledger}
use vulcan.Examples.Http.{strings, test_codec, worker_codec, router}
use vulcan.Examples.Scaling.{idle_provisioner}
use vulcan.Examples.Load.{numbers}

abbrev machine : Machine ℤ
machine = record {
  strings = strings;
  test_codec = test_codec;
  worker_codec = worker_codec;
  dashboard_codec = record {
    metrics = λ m. some m.test_id;
    history = λ s. some "[]";
    failure = λ s. some s;
    text = λ e. "error";
  };
  numbers = numbers;
  query = λ base q. ok done;
  range_query = λ base q. ok done;
  provisioner = λ cfg. idle_provisioner;
  router = router;
  fresh = λ n. "fresh";
  health_answer = record { status = 200; body = "OK" };
}

abbrev config : Config
config = record {
  port = "8080";
  database_url = "postgres://localhost/vulcan";
  victoria_metrics_url = "http://localhost:8428";
  nats_url = "nats://localhost:4222";
  worker_capacity_rps = pos 100;
  worker_binary_path = "./worker";
  worker_working_dir = ".";
  control_plane_url = "http://localhost:8080";
  autoscaler_interval = pos 5000000000;
}

quiet-Keeps : OthersKeep quiet
quiet-Keeps = record { fleet = quiet_fleet; ledger = quiet_ledger }

idle-Keeps : ProvisionerKeeps idle_provisioner
idle-Keeps = record {
  provision = λ n. record { keeps = λ c h. StateKept-refl c.db h };
  terminate = λ hosts. record { keeps = λ c h. StateKept-refl c.db h };
}

-- A start of t1, a sweep, and a cycle of the autoscaler.
abbrev morning : List Event
morning =
    request
      (record { method = "POST"; path = "api" ∷ "v1" ∷ "tests" ∷ "t1" ∷ "start" ∷ []; body = "" })
    ∷ health_tick
    ∷ autoscaler_tick
    ∷ []

run_events-StateKept_example :
    StateKept fleet (run_events machine config quiet morning (at fleet)).db
run_events-StateKept_example =
    run_events-StateKept machine config quiet quiet-Keeps idle-Keeps morning (at fleet) fleet-Keyed
