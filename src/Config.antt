-- ===== src/Config.antt =====
-- internal/config/config.go and internal/worker/config.go: what the processes read of their environment
-- before they start. `os.Getenv` answers "" for a name that is not set, after godotenv has read .env; `fmt.Sscanf`,
-- `time.ParseDuration` and the YAML file come as parameters.
pub mod Checks
use vulcan.Prelude.{ℕ, String, Bool, true, Option, none, some, ℤ, pos, leb_ℤ, str_eq, if◌then◌else◌}
use Prim.Native.String.{◌++◌}
use vulcan.Errors.{Error, message, wrap, Result, ok, err, and_then}

pub record Config : Type 0 where
  pub port : String
  pub database_url : String
  pub victoria_metrics_url : String
  pub nats_url : String
  pub worker_capacity_rps : ℤ
  pub worker_binary_path : String
  pub worker_working_dir : String
  pub control_plane_url : String
  pub autoscaler_interval : ℤ

-- The variables, and the readers of Go's library: `none` is an error.
pub record Environment : Type 0 where
  pub get_env : String → String
  pub scan_int : String → Option ℤ
  pub parse_duration : String → Option ℤ

abbrev positive_or : ℤ → Option ℤ → ℤ
positive_or fallback none = fallback
positive_or fallback (some n) = if leb_ℤ n (pos 0) then fallback else n

abbrev pub is_empty : String → Bool
is_empty s = str_eq s ""

abbrev pub default_to : String → String → String
default_to fallback s = if is_empty s then fallback else s

module _ (env : Environment) where
  open env use {get_env, scan_int, parse_duration}

  unfoldable pub parse_positive_int : String → ℤ → ℤ
  parse_positive_int value fallback = positive_or fallback (scan_int value)

  unfoldable pub parse_positive_duration : String → ℤ → ℤ
  parse_positive_duration value fallback =
      if is_empty value then fallback else positive_or fallback (parse_duration value)

  -- 5 * time.Second, in nanoseconds.
  unfoldable pub load : Config
  unfolding parse_positive_int parse_positive_duration
  load = record {
    port = get_env "PORT";
    database_url = get_env "DB_URL";
    victoria_metrics_url = get_env "VICTORIA_METRICS_URL";
    nats_url = get_env "NATS_URL";
    worker_capacity_rps = parse_positive_int (get_env "WORKER_CAPACITY_RPS") (pos 100);
    worker_binary_path = get_env "WORKER_BINARY_PATH";
    worker_working_dir = get_env "VULCAN_PROJECT_ROOT";
    control_plane_url = get_env "CONTROL_PLANE_URL";
    autoscaler_interval = parse_positive_duration (get_env "AUTOSCALER_INTERVAL") (pos 5000000000);
  }

  -- The three defaults of the control plane.
  unfoldable pub with_defaults : Config → Config
  with_defaults cfg = record cfg {
    control_plane_url = default_to ("http://localhost:" ++ cfg.port) cfg.control_plane_url;
    worker_binary_path = default_to "./worker" cfg.worker_binary_path;
    worker_working_dir = default_to "." cfg.worker_working_dir;
  }

  unfoldable pub load_server_config : Result Config
  load_server_config =
      if is_empty load.port
      then err (message "PORT environment variable is required")
      else if is_empty load.database_url
      then err (message "DB_URL environment variable is required")
      else if is_empty load.nats_url
      then err (message "NATS_URL environment variable is required")
      else if is_empty load.victoria_metrics_url
      then err (message "VICTORIA_METRICS_URL environment variable is required")
      else ok (with_defaults load)

  unfoldable pub load_aggregator_config : Result Config
  load_aggregator_config =
      if is_empty load.nats_url
      then err (message "NATS_URL environment variable is required")
      else if is_empty load.victoria_metrics_url
      then err (message "VICTORIA_METRICS_URL environment variable is required")
      else ok load

  unfoldable pub load_worker_config : Result Config
  load_worker_config =
      if is_empty load.nats_url
      then err (message "NATS_URL environment variable is required")
      else ok load

-- The configuration of a worker, with its sections flattened; intervals are in nanoseconds.
pub record WorkerConfig : Type 0 where
  pub hostname : String
  pub version : String
  pub control_plane_url : String
  pub heartbeat_interval : ℤ
  pub polling_interval : ℤ
  pub cpu_count : ℤ
  pub memory_mb : ℤ
  pub logging_level : String
  pub override_hostname : String

unfoldable pub validate : WorkerConfig → Result (Unit {0})
validate c =
    if is_empty c.hostname
    then err (message "worker.hostname is required")
    else if is_empty c.control_plane_url
    then err (message "control_plane.url is required")
    else if leb_ℤ c.heartbeat_interval (pos 0)
    then err (message "heartbeat.interval must be > 0")
    else if leb_ℤ c.polling_interval (pos 0)
    then err (message "polling.interval must be > 0")
    else if leb_ℤ c.cpu_count (pos 0)
    then err (message "resources.cpu_count must be > 0")
    else if leb_ℤ c.memory_mb (pos 0)
    then err (message "resources.memory_mb must be > 0")
    else ok tt

-- What the environment overrides in the file.
unfoldable pub overridden : (String → String) → WorkerConfig → WorkerConfig
overridden get_env c = record c {
  override_hostname = get_env "WORKER_HOSTNAME";
  hostname = default_to c.hostname (get_env "WORKER_HOSTNAME");
  control_plane_url = default_to c.control_plane_url (get_env "CONTROL_PLANE_URL");
}

abbrev checked : WorkerConfig → Result WorkerConfig
checked c = and_then (validate c) (λ _. ok c)

-- `LoadConfig`: the file is read and parsed by Go's library and by yaml.v3.
unfoldable pub load_config :
    (String → String)
    → (String → Result String)
    → (String → Result WorkerConfig)
    → String
    → Result WorkerConfig
unfolding overridden validate
load_config get_env read_file unmarshal path = elim (read_file path) [
  | err e ↦ err (wrap "read config" e)
  | ok text ↦ elim (unmarshal text) [
    | err e ↦ err (wrap "parse yaml" e)
    | ok c ↦ checked (overridden get_env c)
  ]
]
