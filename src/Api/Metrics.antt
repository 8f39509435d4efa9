-- ===== src/Api/Metrics.antt =====
-- internal/api/handlers/dashboard.go. The `start`, `end` and `step` of the request are in the query.
use vulcan.Prelude.{String, List}
use vulcan.Errors.{Error, Result, ok, err}
use vulcan.Api.{Response, Encoder, json}
use vulcan.Dashboard.{Numbers, LiveMetrics, MetricSeries, Query, get_live_metrics, get_history}

-- encoding/json for the answers of the dashboard, and `err.Error()`.
pub record DashboardCodec (F : Type 0) : Type 0 where
  pub metrics : Encoder (LiveMetrics F)
  pub history : Encoder (List (MetricSeries F))
  -- `map[string]string{"error": …}`.
  pub failure : Encoder String
  pub text : Error → String

module _ {F : Type 0} (numbers : Numbers F) (codec : DashboardCodec F) where
  abbrev shown : {A : Type 0} → Encoder A → Result A → Response
  shown encode (ok a) = json encode 200 a
  shown encode (err e) = json codec.failure 500 (codec.text e)

  unfoldable pub handle_get_metrics : Query F → String → Response
  handle_get_metrics query test = shown codec.metrics (get_live_metrics numbers query test)

  unfoldable pub handle_get_history : Query F → String → Response
  handle_get_history range_query test = shown codec.history (get_history numbers range_query test)
