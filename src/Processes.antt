-- ===== src/Processes.antt =====
-- cmd/worker/main.go and cmd/aggregator/main.go: how the two other processes start and end. A result of
-- `exits` is the code of the process; a panic is 2, and `log.Fatal` is 1.
use vulcan.Prelude.{ℕ, String, none, some, [], if◌then◌else◌, str_eq}
use vulcan.Errors.{Result, ok, err}
use vulcan.Models.{WorkerStatus}
use vulcan.Config.{Environment, WorkerConfig, load_worker_config, load_aggregator_config}
use vulcan.Runner.{Runner}
use vulcan.Runner.Online.{Outcome}
use vulcan.Aggregator.{Aggregator}

pub data Level : Type 0 where
  debug info warn error : Level

unfoldable pub log_level : String → Level
log_level s =
    if str_eq s "debug"
    then debug
    else if str_eq s "warn"
    then warn
    else if str_eq s "error"
    then error
    else info

pub data Process (A : Type 0) : Type 0 where
  exits : ℕ → Process A
  runs : A → Process A

-- `worker.New`; `Register` fills in the identifier.
unfoldable pub new_runner : WorkerConfig → Runner
new_runner cfg = record {
  id = "";
  hostname = cfg.hostname;
  version = cfg.version;
  status = WorkerStatus.idle;
  requests = [];
}

-- The worker's process up to `runtime.Start`; `connect` is `NewPublisher`.
unfoldable pub start_worker :
    (String → Result WorkerConfig)
    → Environment
    → (String → Result (Unit {0}))
    → Process (Level × WorkerConfig × Runner)
unfolding log_level new_runner
start_worker load environment connect = elim (load "configs/worker.yaml") [
  | err e ↦ exits 2
  | ok cfg ↦ elim (load_worker_config environment) [
    | err e ↦ exits 1
    | ok env_cfg ↦ elim (connect env_cfg.nats_url) [
      | err e ↦ exits 1
      | ok _ ↦ runs (log_level cfg.logging_level, cfg, new_runner cfg)
    ]
  ]
]

abbrev exit_code : Result (Unit {0}) → ℕ
exit_code (ok _) = 0
exit_code (err e) = 1

-- `main` of the worker, as far as its runtime has come.
unfoldable pub end_worker : {S : Type 0} → Outcome S → Process S
end_worker (none, s, c) = runs s
end_worker (some r, s, c) = exits (exit_code r)

-- The aggregator's process up to the subscription; `connect` and `subscribe` are calls of NATS.
unfoldable pub start_aggregator :
    {F : Type 0}
    → Environment
    → (String → Result (Unit {0}))
    → Result (Unit {0})
    → Process (String × Aggregator F)
start_aggregator environment connect subscribe = elim (load_aggregator_config environment) [
  | err e ↦ exits 1
  | ok cfg ↦ elim (connect cfg.nats_url) [
    | err e ↦ exits 1
    | ok _ ↦ elim subscribe [
      | err e ↦ exits 1
      | ok _ ↦ runs (cfg.victoria_metrics_url, record { tests = []; next = 0; held = none })
    ]
  ]
]
