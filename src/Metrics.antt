-- ===== src/Metrics.antt =====
-- internal/metrics: what a worker counts of its requests between two flushes (collector.go), and the
-- bucket that it publishes of them (bucket.go). The mutex makes each operation one step.
pub mod Counts
pub mod Publisher
use vulcan.Prelude.{ℕ, String, Bool, true, false, ℤ, pos, add64, quot64, ltb_ℤ, if◌then◌else◌}

pub record RequestResult : Type 0 where
  pub latency : ℤ
  pub success : Bool
  pub bytes_sent : ℤ
  pub bytes_received : ℤ

-- The quotient of a bucket's average, a `float64`: its two operands before the division.
pub record Average : Type 0 where
  pub total_ms : ℤ
  pub over : ℤ

pub record MetricBucket : Type 0 where
  pub test_id : String
  pub worker_id : String
  pub window_start : ℕ
  pub window_end : ℕ
  pub requests : ℤ
  pub successes : ℤ
  pub failures : ℤ
  pub bytes_sent : ℤ
  pub bytes_received : ℤ
  pub avg_latency : Average
  pub max_latency_ms : ℤ

pub record Collector : Type 0 where
  pub test_id : String
  pub worker_id : String
  pub window_start : ℕ
  pub requests : ℤ
  pub successes : ℤ
  pub failures : ℤ
  pub bytes_sent : ℤ
  pub bytes_received : ℤ
  pub total_latency : ℤ
  pub max_latency : ℤ

unfoldable pub new_collector : String → String → ℕ → Collector
new_collector test worker now = record {
  test_id = test;
  worker_id = worker;
  window_start = now;
  requests = pos 0;
  successes = pos 0;
  failures = pos 0;
  bytes_sent = pos 0;
  bytes_received = pos 0;
  total_latency = pos 0;
  max_latency = pos 0;
}

unfoldable pub record_result : RequestResult → Collector → Collector
record_result r c = record c {
  requests = add64 c.requests (pos 1);
  successes = if r.success then add64 c.successes (pos 1) else c.successes;
  failures = if r.success then c.failures else add64 c.failures (pos 1);
  bytes_sent = add64 c.bytes_sent r.bytes_sent;
  bytes_received = add64 c.bytes_received r.bytes_received;
  total_latency = add64 c.total_latency r.latency;
  max_latency = if ltb_ℤ c.max_latency r.latency then r.latency else c.max_latency;
}

-- `time.Duration.Milliseconds`.
abbrev pub milliseconds : ℤ → ℤ
milliseconds d = quot64 d 1000000

abbrev average : ℤ → ℤ → Average
average total requests =
    if ltb_ℤ (pos 0) requests
    then record { total_ms = milliseconds total; over = requests }
    else record { total_ms = pos 0; over = pos 1 }

unfoldable pub flush : ℕ → Collector → MetricBucket × Collector
unfolding new_collector
flush now c = (
  record {
    test_id = c.test_id;
    worker_id = c.worker_id;
    window_start = c.window_start;
    window_end = now;
    requests = c.requests;
    successes = c.successes;
    failures = c.failures;
    bytes_sent = c.bytes_sent;
    bytes_received = c.bytes_received;
    avg_latency = average c.total_latency c.requests;
    max_latency_ms = milliseconds c.max_latency;
  },
  new_collector c.test_id c.worker_id now,
)
