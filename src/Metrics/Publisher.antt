-- ===== src/Metrics/Publisher.antt =====
-- internal/metrics/publisher.go: a bucket goes to NATS. encoding/json and the connection are parameters.
use vulcan.Prelude.{String, Option, none, some}
use Prim.Native.String.{◌++◌}
use vulcan.Errors.{message, Result, err}
use vulcan.Metrics.{MetricBucket}

module _ {W : Type 0} (marshal : MetricBucket → Option String)
    (conn_publish : String → String → W → Result (Unit {0}) × W) where
  abbrev published_on : String → Option String → W → Result (Unit {0}) × W
  published_on subject none w = (err (message "json: unsupported value"), w)
  published_on subject (some data_) w = conn_publish subject data_ w

  unfoldable pub publish : MetricBucket → W → Result (Unit {0}) × W
  publish bucket w = published_on ("metrics.test." ++ bucket.test_id) (marshal bucket) w
