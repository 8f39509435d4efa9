-- ===== src/Config/Checks.antt =====
-- What a configuration that loads can be relied on for.
use vulcan.Prelude.{String, ◌≡◌, refl, sym, subst, ◌⊎◌, Bool, true, false, ℤ, pos, ltb_ℤ, arith}
use vulcan.Errors.{Result, ok}
use vulcan.Config.{
  Environment, Config, WorkerConfig, is_empty, load, load_server_config, parse_positive_int,
  parse_positive_duration, with_defaults, default_to, validate, overridden, load_config,
}

abbrev pub is_positive : ℤ → Bool
is_positive n = ltb_ℤ (pos 0) n

parse_positive_int-is_positive :
    (env : Environment) (value : String) (fallback : ℤ)
    → is_positive fallback ≡ true
    → is_positive (parse_positive_int env value fallback) ≡ true
unfolding parse_positive_int
parse_positive_int-is_positive env value fallback h = ground arith

parse_positive_duration-is_positive :
    (env : Environment) (value : String) (fallback : ℤ)
    → is_positive fallback ≡ true
    → is_positive (parse_positive_duration env value fallback) ≡ true
unfolding parse_positive_duration
parse_positive_duration-is_positive env value fallback h = ground arith

-- What the processes of the control plane use of their configuration.
abbrev pub IsComplete : Config → Type 0
IsComplete cfg =
    (is_empty cfg.port ≡ false)
    × (is_empty cfg.database_url ≡ false)
    × (is_empty cfg.nats_url ≡ false)
    × (is_empty cfg.victoria_metrics_url ≡ false)
    × (is_empty cfg.worker_binary_path ≡ false)
    × (is_empty cfg.worker_working_dir ≡ false)
    × (is_positive cfg.worker_capacity_rps ≡ true)
    × (is_positive cfg.autoscaler_interval ≡ true)

load_server_config-inv :
    (env : Environment) (cfg : Config)
    → load_server_config env ≡ ok cfg
    → (cfg ≡ with_defaults env (load env))
      × (is_empty (load env).port ≡ false)
      × (is_empty (load env).database_url ≡ false)
      × (is_empty (load env).nats_url ≡ false)
      × (is_empty (load env).victoria_metrics_url ≡ false)
unfolding load_server_config
load_server_config-inv env cfg h = ground arith

default_to-is_empty :
    (fallback s : String) → is_empty fallback ≡ false → is_empty (default_to fallback s) ≡ false
default_to-is_empty fallback s h = ground arith

with_defaults-IsComplete :
    (env : Environment)
    → is_empty (load env).port ≡ false
    → is_empty (load env).database_url ≡ false
    → is_empty (load env).nats_url ≡ false
    → is_empty (load env).victoria_metrics_url ≡ false
    → IsComplete (with_defaults env (load env))
unfolding with_defaults load
with_defaults-IsComplete env p d n v = (
  p,
  d,
  n,
  v,
  default_to-is_empty "./worker" (env.get_env "WORKER_BINARY_PATH") refl,
  default_to-is_empty "." (env.get_env "VULCAN_PROJECT_ROOT") refl,
  parse_positive_int-is_positive env (env.get_env "WORKER_CAPACITY_RPS") (pos 100) refl,
  parse_positive_duration-is_positive env (env.get_env "AUTOSCALER_INTERVAL") (pos 5000000000) refl,
)

-- A control plane whose configuration loads has a port, a database, a NATS server, a VictoriaMetrics,
-- a worker to start and a place to start it, and workers of positive capacity and an autoscaler with a
-- positive interval, whatever else is in the environment.
pub load_server_config-IsComplete :
    (env : Environment) (cfg : Config) → load_server_config env ≡ ok cfg → IsComplete cfg
load_server_config-IsComplete env cfg h =
    let (e, p, d, n, v) = load_server_config-inv env cfg h in
    subst IsComplete (sym e) (with_defaults-IsComplete env p d n v)

-- A worker whose configuration loads has a hostname and the address of a control plane, those of the
-- environment where it names them, and positive intervals and resources.
load_config_lem :
    (get_env : String → String) (read_file : String → Result String)
    (unmarshal : String → Result WorkerConfig) (path : String) (c : WorkerConfig)
    → load_config get_env read_file unmarshal path ≡ ok c
    → (is_empty c.hostname ≡ false)
      × (is_empty c.control_plane_url ≡ false)
      × (is_positive c.heartbeat_interval ≡ true)
      × (is_positive c.polling_interval ≡ true)
      × (is_positive c.cpu_count ≡ true)
      × (is_positive c.memory_mb ≡ true)
      × ((is_empty (get_env "WORKER_HOSTNAME") ≡ true) ⊎ (c.hostname ≡ get_env "WORKER_HOSTNAME"))
      × ((is_empty (get_env "CONTROL_PLANE_URL") ≡ true)
          ⊎ (c.control_plane_url ≡ get_env "CONTROL_PLANE_URL"))
unfolding load_config overridden validate
load_config_lem get_env read_file unmarshal path c h = ground arith
