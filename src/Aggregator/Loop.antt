-- ===== src/Aggregator/Loop.antt =====
-- internal/aggregator: the subscription (subscriber.go), the loop of reports (reporter.go) and the write
-- of each report to VictoriaMetrics (aggregator.go), in any order in which the two goroutines take their
-- turns. NATS, encoding/json, the HTTP client and the clock are parameters.
use vulcan.Prelude.{String, List, [], ◌∷◌, ℤ}
use vulcan.Errors.{Result, ok, err}
use vulcan.Metrics.{MetricBucket}
use vulcan.Victoria.{Post, write}
use vulcan.Api.{Decoder}
use vulcan.Aggregator.{Floats, Aggregator, Snapshot, receive, merge_held, report}
use vulcan.Aggregator.Payload.{Fmt, build_victoria_payload}

-- A message of the subscription, the merge of the one before, a tick of the reports, and the end of the
-- context.
pub data Input : Type 0 where
  arrives : String → Input
  merges second done : Input

-- What the aggregator uses of the world outside, in a state `W`; `url` is the URL of VictoriaMetrics.
pub record Outside (F W : Type 0) : Type 0 where
  pub decode : Decoder MetricBucket
  pub unix_milli : W → ℤ
  pub post : Post W
  pub url : String
  pub fmt : Fmt F

module _ {F W : Type 0} (floats : Floats F) (outside : Outside F W) where
  open outside use {decode, unix_milli, post, url, fmt}

  abbrev decoded : Result MetricBucket → Aggregator F → Aggregator F
  decoded (ok b) a = receive floats b a
  decoded (err e) a = a

  -- The callback up to `Get`; a message that is no bucket is only logged.
  unfoldable pub on_message : String → Aggregator F → Aggregator F
  on_message msg a = decoded (decode msg) a

  -- The last loop of `report`; the error of a write is only logged.
  unfoldable pub write_snapshots : List (Snapshot F) → W → W
  write_snapshots [] w = w
  write_snapshots (s ∷ ss) w =
      write_snapshots ss (write post url (build_victoria_payload fmt (unix_milli w) s) w).1

  written_report : Aggregator F × List (Snapshot F) → W → Aggregator F × W
  written_report (a, ss) w = (a, write_snapshots ss w)

  unfoldable pub report_and_write : Aggregator F → W → Aggregator F × W
  unfolding written_report
  report_and_write a w = written_report (report floats a) w

  -- `Run`: the subscription beside `reportLoop`, until the context ends.
  unfoldable pub run_loop : List Input → Aggregator F → W → Aggregator F × W
  run_loop [] a w = (a, w)
  run_loop (arrives msg ∷ inputs) a w = run_loop inputs (on_message msg a) w
  run_loop (merges ∷ inputs) a w = run_loop inputs (merge_held floats a) w
  run_loop (second ∷ inputs) a w = let (a', w') = report_and_write a w in run_loop inputs a' w'
  run_loop (done ∷ inputs) a w = (a, w)
