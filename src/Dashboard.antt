-- ===== src/Dashboard.antt =====
-- internal/dashboard: metrics of a test, read back from VictoriaMetrics. The answers are JSON values; the
-- HTTP client, and `strconv.ParseFloat` and the conversions of `float64`, are parameters.
pub mod Parsing
pub mod Live
pub mod Client
use vulcan.Prelude.{
  String, Bool, true, false, Option, none, some, List, [], ◌∷◌, ℤ, str_eq, if◌then◌else◌,
}
use Prim.Native.String.{◌++◌}
use vulcan.Errors.{Error, Result, ok, err, and_then}

-- What encoding/json decodes into an `interface{}`.
mutual
  pub data Json (F : Type 0) : Type 0 where
    null : Json F
    bool : Bool → Json F
    number : F → Json F
    text : String → Json F
    array : Items F → Json F
    object : Fields F → Json F

  pub data Items (F : Type 0) : Type 0 where
    nil : Items F
    item : Json F → Items F → Items F

  pub data Fields (F : Type 0) : Type 0 where
    done : Fields F
    field : String → Json F → Fields F → Fields F

pub record Numbers (F : Type 0) : Type 0 where
  pub zero : F
  pub parse_float : String → Option F
  -- `int64(x)`.
  pub truncate : F → ℤ

pub record DataPoint (F : Type 0) : Type 0 where
  pub timestamp : ℤ
  pub value : F

pub record MetricSeries (F : Type 0) : Type 0 where
  pub metric : String
  pub points : List (DataPoint F)

pub record LiveMetrics (F : Type 0) : Type 0 where
  pub test_id : String
  pub requests : ℤ
  pub successes : ℤ
  pub failures : ℤ
  pub workers : ℤ
  pub avg_latency_ms : F
  pub max_latency_ms : F
  pub bytes_sent : ℤ
  pub bytes_received : ℤ

infixl 5 ◌>>=◌
abbrev pub ◌>>=◌ {ℓ κ} : {A : Type ℓ} {B : Type κ} → Option A → (A → Option B) → Option B
none >>= f = none
some a >>= f = f a

module _ {F : Type 0} where
  -- `m[key]`; a nil map or a missing key gives nil.
  abbrev pub get : String → Fields F → Json F
  get key done = null
  get key (field k v fs) = if str_eq k key then v else get key fs

  -- `x.(map[string]interface{})[key]` where the assertion holds.
  abbrev pub get_in : String → Json F → Option (Json F)
  get_in key (object fs) = some (get key fs)
  get_in key _ = none

  -- `x.([]interface{})`.
  abbrev pub as_array : Json F → Option (Items F)
  as_array (array xs) = some xs
  as_array _ = none

  abbrev pub first_of : Items F → Option (Json F)
  first_of nil = none
  first_of (item x xs) = some x

  abbrev pub second_of : Items F → Option (Json F)
  second_of (item x (item y xs)) = some y
  second_of _ = none

  -- `response["data"]["result"][0][key]` as an array, with all the assertions on the way. The
  -- response itself is a map.
  unfoldable pub first_result : String → Fields F → Option (Items F)
  first_result key response = do
    result ← get_in "result" (get "data" response)
    results ← as_array result
    first ← first_of results
    value ← get_in key first
    as_array value

module _ {F : Type 0} (numbers : Numbers F) where
  open numbers use {zero, parse_float, truncate}

  abbrev or_zero : Option F → F
  or_zero none = zero
  or_zero (some x) = x

  abbrev scalar : Json F → Option F
  scalar (number x) = some x
  scalar (text s) = parse_float s
  scalar _ = none

  unfoldable pub parse_value : Fields F → F
  unfolding first_result
  parse_value response =
      or_zero (do value ← first_result "value" response; x ← second_of value; scalar x)

  abbrev point : Json F → Json F → Option (DataPoint F)
  point (number ts) (text s) = do
    x ← parse_float s
    some (record { timestamp = truncate ts; value = x })
  point _ _ = none

  abbrev point_of : Json F → Option (DataPoint F)
  point_of (array (item ts (item v rest))) = point ts v
  point_of _ = none

  abbrev add_point : Option (DataPoint F) → List (DataPoint F) → List (DataPoint F)
  add_point none ps = ps
  add_point (some p) ps = p ∷ ps

  -- A value that is not a pair of a number and a number in text is passed over.
  unfoldable pub points_of : Items F → List (DataPoint F)
  points_of nil = []
  points_of (item x xs) = add_point (point_of x) (points_of xs)

  abbrev points_or_none : Option (Items F) → List (DataPoint F)
  points_or_none none = []
  points_or_none (some xs) = points_of xs

  unfoldable pub parse_series : Fields F → List (DataPoint F)
  unfolding first_result points_of
  parse_series response = points_or_none (first_result "values" response)

unfoldable pub metric_query : String → String → String
metric_query metric test = metric ++ ("{test_id=\"" ++ (test ++ "\"}"))

abbrev pub requests_query : String → String
requests_query test = metric_query "vulcan_requests_total" test

abbrev pub success_query : String → String
success_query test = metric_query "vulcan_success_total" test

abbrev pub failure_query : String → String
failure_query test = metric_query "vulcan_failure_total" test

abbrev pub workers_query : String → String
workers_query test = metric_query "vulcan_workers" test

abbrev pub avg_latency_query : String → String
avg_latency_query test = metric_query "vulcan_avg_latency_ms" test

abbrev pub max_latency_query : String → String
max_latency_query test = metric_query "vulcan_max_latency_ms" test

abbrev pub bytes_sent_query : String → String
bytes_sent_query test = metric_query "vulcan_bytes_sent_total" test

abbrev pub bytes_received_query : String → String
bytes_received_query test = metric_query "vulcan_bytes_received_total" test

-- A query and its answer, the HTTP client between them.
abbrev pub Query : Type 0 → Type 0
Query F = String → Result (Fields F)

module _ {F : Type 0} (numbers : Numbers F) where
  open numbers use {truncate}

  unfoldable pub get_live_metrics : Query F → String → Result (LiveMetrics F)
  get_live_metrics query test = and_then (query (requests_query test)) λ requests.
      and_then (query (success_query test)) λ successes.
        and_then (query (failure_query test)) λ failures.
          and_then (query (workers_query test)) λ workers.
            and_then (query (avg_latency_query test)) λ avg.
              and_then (query (max_latency_query test)) λ max.
                and_then (query (bytes_sent_query test)) λ sent.
                  and_then (query (bytes_received_query test)) λ received. ok (record {
                    test_id = test;
                    requests = truncate (parse_value numbers requests);
                    successes = truncate (parse_value numbers successes);
                    failures = truncate (parse_value numbers failures);
                    workers = truncate (parse_value numbers workers);
                    avg_latency_ms = parse_value numbers avg;
                    max_latency_ms = parse_value numbers max;
                    bytes_sent = truncate (parse_value numbers sent);
                    bytes_received = truncate (parse_value numbers received);
                  })

  -- The loop over the three series; the query is a range query here.
  unfoldable pub history_of : Query F → List (String × String) → Result (List (MetricSeries F))
  history_of query [] = ok []
  history_of query ((name, q) ∷ rest) = and_then (query q) λ response.
      and_then (history_of query rest)
        λ series. ok (record { metric = name; points = parse_series numbers response } ∷ series)

  unfoldable pub get_history : Query F → String → Result (List (MetricSeries F))
  unfolding history_of
  get_history query test = history_of query (
      ("requests", requests_query test)
      ∷ ("latency", avg_latency_query test)
      ∷ ("workers", workers_query test)
      ∷ [])
