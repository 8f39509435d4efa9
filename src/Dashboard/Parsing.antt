-- ===== src/Dashboard/Parsing.antt =====
-- What the dashboard reads back of what VictoriaMetrics answers. `Printer` is the way the server writes an
-- instant and a number; a well-formed answer is `{"data": {"result": [{key: values}]}}`.
use vulcan.Prelude.{String, some, List, [], ◌∷◌, ◌≡◌, refl, ℤ, All}
use vulcan.Errors.{ok}
use vulcan.Dashboard.{
  Json, number, text, array, object, Items, nil, item, Fields, done, field, Numbers, DataPoint,
  points_of, parse_series, requests_query, avg_latency_query, workers_query, Query, history_of,
  get_history, first_result,
}

pub record Printer (F : Type 0) : Type 0 where
  pub instant : ℤ → F
  pub print : F → String

module _ {F : Type 0} where
  abbrev pub response_of : String → Items F → Fields F
  response_of key values =
      field "data"
        (object (field "result" (array (item (object (field key (array values) done)) nil)) done))
        done

  module _ (numbers : Numbers F) (printer : Printer F) where
    open printer use {instant, print}

    abbrev pub pair_of : F → F → Json F
    pair_of at x = array (item (number at) (item (text (print x)) nil))

    abbrev pub series_of : List (DataPoint F) → Items F
    series_of [] = nil
    series_of (p ∷ ps) = item (pair_of (instant p.timestamp) p.value) (series_of ps)

    -- The reader undoes the printer at this point.
    abbrev pub IsExact : DataPoint F → Type 0
    IsExact p =
        (numbers.truncate (instant p.timestamp) ≡ p.timestamp)
        × (numbers.parse_float (print p.value) ≡ some p.value)

    points_of-series_of :
        (ps : List (DataPoint F)) → All IsExact ps → points_of numbers (series_of ps) ≡ ps
    unfolding points_of
    points_of-series_of [] h = refl
    points_of-series_of (p ∷ ps) ((t, v), h) = rw (v, t, points_of-series_of ps h) refl

    parse_series-response_of :
        (ps : List (DataPoint F))
        → All IsExact ps
        → parse_series numbers (response_of "values" (series_of ps)) ≡ ps
    unfolding parse_series first_result
    parse_series-response_of ps h = points_of-series_of ps h

    -- A server that holds a series for each query.
    abbrev pub answering : (String → List (DataPoint F)) → Query F
    answering stored query = ok (response_of "values" (series_of (stored query)))

    -- The history of a test is the three series that the server holds for it, named and in order, point
    -- by point, where the server holds numbers that are printed exactly.
    pub get_history-answering :
        (stored : String → List (DataPoint F)) (test : String)
        → ((query : String) → All IsExact (stored query))
        → get_history numbers (answering stored) test
          ≡ ok (
              record { metric = "requests"; points = stored (requests_query test) }
              ∷ record { metric = "latency"; points = stored (avg_latency_query test) }
              ∷ record { metric = "workers"; points = stored (workers_query test) }
              ∷ [])
    unfolding get_history history_of
    get_history-answering stored test h =
        rw
          (
            parse_series-response_of _ (h (requests_query test)),
            parse_series-response_of _ (h (avg_latency_query test)),
            parse_series-response_of _ (h (workers_query test)),
          )
          refl
