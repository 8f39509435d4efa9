-- ===== src/Examples.antt =====
-- A small fleet and its tests, at which the modules below apply the theorems.
pub mod Storage
pub mod Releases
pub mod Scaling
pub mod Starts
pub mod Agents
pub mod Http
pub mod Load
pub mod Runs
pub mod Online
use vulcan.Prelude.{◌-◌, String, refl, false, none, List, [], ◌∷◌, pos}
use vulcan.Models.{Test, TestStatus, Worker, WorkerStatus, Assignment, AssignmentStatus}
use vulcan.Driver.{Db, Env, Conn}
use vulcan.Repository.Keys.{Keyed}

abbrev pub worker : String → String → WorkerStatus → Worker
worker id host status = record {
  id = id;
  hostname = host;
  version = "1";
  status = status;
  cpu_count = pos 2;
  memory_mb = pos 512;
  registered_at = 1;
  last_heartbeat = 5;
  updated_at = 5;
}

abbrev pub test : String → TestStatus → Test
test id status = record {
  id = id;
  name = "smoke";
  status = status;
  worker_count = pos 0;
  target_url = "http://localhost";
  method = "GET";
  duration_sec = pos 30;
  rps = pos 150;
  concurrency = pos 10;
  created_at = 2;
  updated_at = 2;
}

abbrev pub assignment : String → String → AssignmentStatus → Assignment
assignment t w status = record {
  test_id = t;
  worker_id = w;
  status = status;
  assigned_at = 3;
  started_at = none;
  completed_at = none;
  rps = 75;
}

abbrev pub fleet : Db
fleet = record {
  tests = test "t1" TestStatus.created ∷ test "t2" TestStatus.running ∷ [];
  workers =
      worker "w1" "vulcan-auto-worker-1" WorkerStatus.idle
      ∷ worker "w2" "worker-compose-1" WorkerStatus.idle
      ∷ worker "w3" "vulcan-auto-worker-3" WorkerStatus.running
      ∷ worker "w4" "vulcan-auto-worker-4" WorkerStatus.offline
      ∷ [];
  assignments =
      assignment "t2" "w3" AssignmentStatus.running
      ∷ assignment "t2" "w4" AssignmentStatus.running
      ∷ [];
}

-- Nothing fails, and nobody else writes.
abbrev pub quiet : Env
quiet = record {
  fails = λ _. false;
  took = λ _. false;
  clock = λ n. n;
  others = λ n d. d;
  locked = λ n w. false;
}

abbrev pub at : Db → Conn
at d = record { db = d; work = d; calls = 0 }

pub fleet-Keyed : Keyed fleet.workers
fleet-Keyed = (refl, (refl, (refl, (refl, tt))))

abbrev pub two_idle : List Worker
two_idle =
    worker "w1" "vulcan-auto-worker-1" WorkerStatus.idle
    ∷ worker "w2" "worker-compose-1" WorkerStatus.idle
    ∷ []
