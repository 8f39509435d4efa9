-- ===== src/Dashboard/Client.antt =====
-- internal/dashboard/client.go: queries to VictoriaMetrics. `url.Values.Encode`, `http.Get` and
-- encoding/json are parameters.
use vulcan.Prelude.{String, List, [], ◌∷◌}
use Prim.Native.String.{◌++◌}
use vulcan.Errors.{Result, and_then}
use vulcan.Api.{Response, Decoder}
use vulcan.Dashboard.{Fields, Query}

module _ {F : Type 0} (encode : List (String × String) → String)
    (http_get : String → Result Response) (decode : Decoder (Fields F)) (base : String) where
  -- The body is decoded whatever the status is.
  abbrev asked : String → List (String × String) → Result (Fields F)
  asked path params =
      and_then (http_get (base ++ (path ++ ("?" ++ encode params)))) λ resp. decode resp.body

  unfoldable pub query : Query F
  query q = asked "/api/v1/query" (("query", q) ∷ ("latency_offset", "1ms") ∷ [])

  -- `QueryRange`, with the range first.
  unfoldable pub query_range : String → String → String → Query F
  query_range start end step q = asked "/api/v1/query_range" (
      ("query", q)
      ∷ ("start", start)
      ∷ ("end", end)
      ∷ ("step", step)
      ∷ ("latency_offset", "1ms")
      ∷ [])
