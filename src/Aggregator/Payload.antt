-- ===== src/Aggregator/Payload.antt =====
-- internal/aggregator/victoria.go: the lines that VictoriaMetrics imports. How `fmt` writes an integer
-- (`%d`) and a float with two digits (`%.2f`) are parameters, and so is the clock.
use vulcan.Prelude.{String, List, [], ◌∷◌, map, ℤ, pos}
use Prim.Native.String.{◌++◌}
use vulcan.Aggregator.{Snapshot}

pub record Fmt (F : Type 0) : Type 0 where
  pub d : ℤ → String
  pub f2 : F → String

-- A line of the text, `metric{test_id="…"} value timestamp`, without the test and the time.
pub record Sample : Type 0 where
  pub metric : String
  pub value : String

module _ {F : Type 0} (fmt : Fmt F) where
  open fmt use {d, f2}

  abbrev pub sample_line : String → ℤ → Sample → String
  sample_line test ts sample =
      sample.metric
      ++ ("{test_id=\"" ++ (test ++ ("\"} " ++ (sample.value ++ (" " ++ (d ts ++ "\n"))))))

  abbrev concat : List String → String
  concat [] = ""
  concat (s ∷ ss) = s ++ concat ss

  -- The metrics of the lines and their values, in order.
  unfoldable pub samples : Snapshot F → List Sample
  samples s =
      record { metric = "vulcan_requests_total"; value = d s.requests }
      ∷ record { metric = "vulcan_success_total"; value = d s.successes }
      ∷ record { metric = "vulcan_failure_total"; value = d s.failures }
      ∷ record { metric = "vulcan_workers"; value = d (pos s.workers) }
      ∷ record { metric = "vulcan_avg_latency_ms"; value = f2 s.avg_latency }
      ∷ record { metric = "vulcan_max_latency_ms"; value = f2 s.max_latency }
      ∷ record { metric = "vulcan_bytes_sent_total"; value = d s.bytes_sent }
      ∷ record { metric = "vulcan_bytes_received_total"; value = d s.bytes_received }
      ∷ []

  unfoldable pub build_victoria_payload : ℤ → Snapshot F → String
  unfolding samples
  build_victoria_payload ts s = concat (map (sample_line s.test_id ts) (samples s))
