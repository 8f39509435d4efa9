-- ===== src/Dashboard/Live.antt =====
-- The path of the counts from the aggregator (internal/aggregator/victoria.go) over VictoriaMetrics to the
-- live metrics of internal/dashboard/service.go.
use vulcan.Prelude.{String, some, [], ◌∷◌, ◌≡◌, refl, ℤ, pos, All}
use vulcan.Errors.{ok}
use vulcan.Dashboard.{
  number, text, nil, item, Numbers, Query, metric_query, parse_value, first_result,
  get_live_metrics,
}
use vulcan.Dashboard.Parsing.{response_of}
use vulcan.Aggregator.{Snapshot}
use vulcan.Aggregator.Payload.{Fmt, Sample, samples}

-- The server answers the query of a sample of the test with its value as it was written, at some time.
abbrev pub Holds : {F : Type 0} → Query F → F → String → Sample → Type 0
Holds query at test sample =
    query (metric_query sample.metric test)
    ≡ ok (response_of "value" (item (number at) (item (text sample.value) nil)))

module _ {F : Type 0} (numbers : Numbers F) (fmt : Fmt F) (rounded : F → F) where
  -- An integer that is written and read comes back.
  abbrev pub IsExact : ℤ → Type 0
  IsExact n = (x : F) × (numbers.parse_float (fmt.d n) ≡ some x) × (numbers.truncate x ≡ n)

  -- The live metrics of a test, where VictoriaMetrics answers for each metric with the sample of the last
  -- payload that the aggregator has written of it, are those of the snapshot of that payload. For
  -- integers that a `float64` holds exactly; the two latencies come back rounded to the two digits that
  -- are written.
  pub get_live_metrics-samples :
      (query : Query F) (at : F) (s : Snapshot F)
      → All (Holds query at s.test_id) (samples fmt s)
      → All IsExact (
          s.requests
          ∷ s.successes
          ∷ s.failures
          ∷ pos s.workers
          ∷ s.bytes_sent
          ∷ s.bytes_received
          ∷ [])
      → ((x : F) → numbers.parse_float (fmt.f2 x) ≡ some (rounded x))
      → get_live_metrics numbers query s.test_id
        ≡ ok (record {
          test_id = s.test_id;
          requests = s.requests;
          successes = s.successes;
          failures = s.failures;
          workers = pos s.workers;
          avg_latency_ms = rounded s.avg_latency;
          max_latency_ms = rounded s.max_latency;
          bytes_sent = s.bytes_sent;
          bytes_received = s.bytes_received;
        })
  unfolding get_live_metrics samples parse_value first_result
  get_live_metrics-samples query at s (a, (b, (c, (d, (e, (f, (g, (h, _))))))))
        ((x, rx, tx), ((y, ry, ty), ((z, rz, tz), ((u, ru, tu), ((v, rv, tv), ((t, rt, tu'), _))))))
        r =
      rw
        (
          a,
          b,
          c,
          d,
          e,
          f,
          g,
          h,
          rx,
          ry,
          rz,
          ru,
          rv,
          rt,
          tx,
          ty,
          tz,
          tu,
          tv,
          tu',
          r s.avg_latency,
          r s.max_latency,
        )
        refl
