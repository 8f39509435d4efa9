-- ===== src/Metrics/Counts.antt =====
-- What the counters of internal/metrics/collector.go count.
use vulcan.Prelude.{
  ℕ, suc, ◌+◌, ◌≤◌, ◌≡◌, refl, Bool-cases, inl, inr, ap, ◌∙◌, String, List, [], ◌∷◌, arith, length,
  count_by, ℤ, pos, max_int, add64, add64-pos, if◌then◌else◌, not,
}
use vulcan.Metrics.{RequestResult, Collector, record_result, flush, new_collector}

-- The results of a window, in order.
unfoldable pub record_results : List RequestResult → Collector → Collector
record_results [] c = c
record_results (r ∷ rs) c = record_results rs (record_result r c)

-- A collector that has counted `s` successes and `f` failures.
pub record Counted (s f : ℕ) (c : Collector) : Type 0 where
  pub requests : c.requests ≡ pos (s + f)
  pub successes : c.successes ≡ pos s
  pub failures : c.failures ≡ pos f

grow : {x : ℤ} (n : ℕ) → x ≡ pos n → n + 1 ≤ max_int → add64 x (pos 1) ≡ pos (suc n)
grow n e h = rw e (add64-pos n 1 h ∙ ap pos (omega arith))

record_result-Counted :
    (r : RequestResult) (s f : ℕ) (c : Collector)
    → Counted s f c
    → s + f + 1 ≤ max_int
    → Counted (if r.success then suc s else s) (if r.success then f else suc f) (record_result r c)
unfolding record_result
record_result-Counted r s f c k h = elim (Bool-cases r.success) [
  | inl e ↦ rw e (record {
    requests = grow (s + f) k.requests (omega arith) ∙ ap pos (omega arith);
    successes = grow s k.successes (omega arith);
    failures = k.failures;
  })
  | inr e ↦ rw e (record {
    requests = grow (s + f) k.requests (omega arith) ∙ ap pos (omega arith);
    successes = k.successes;
    failures = grow f k.failures (omega arith);
  })
]

record_results-Counted :
    (rs : List RequestResult) (s f : ℕ) (c : Collector)
    → Counted s f c
    → s + f + length rs ≤ max_int
    → Counted
        (s + count_by (λ r. r.success) rs)
        (f + count_by (λ r. not r.success) rs)
        (record_results rs c)
unfolding record_results
record_results-Counted [] s f c k h = record {
  requests = k.requests ∙ ap pos (omega arith);
  successes = k.successes ∙ ap pos (omega arith);
  failures = k.failures ∙ ap pos (omega arith);
}
record_results-Counted (r ∷ rs) s f c k h =
    let rest =
      record_results-Counted rs (if r.success then suc s else s) (if r.success then f else suc f)
        (record_result r c) (record_result-Counted r s f c k (omega arith)) (ground arith) in
    record {
      requests = ground (arith, rest.requests);
      successes = ground (arith, rest.successes);
      failures = ground (arith, rest.failures);
    }

-- A result belongs to the collector's window, and is one of its successes or its failures.
same_window :
    (rs : List RequestResult) (c : Collector)
    → ((record_results rs c).test_id ≡ c.test_id)
      × ((record_results rs c).worker_id ≡ c.worker_id)
      × ((record_results rs c).window_start ≡ c.window_start)
unfolding record_results record_result
same_window [] c = (refl, refl, refl)
same_window (r ∷ rs) c = same_window rs (record_result r c)

both_kinds :
    (rs : List RequestResult)
    → count_by (λ r. r.success) rs + count_by (λ r. not r.success) rs ≡ length rs
both_kinds [] = refl
both_kinds (r ∷ rs) = ground (arith, both_kinds rs)

-- The bucket of a window counts each of its results once, as a request and as a success or a
-- failure, for fewer results than 2^63; it carries the start of the window, and the next window
-- starts empty where it ends.
flush-record_results :
    (test worker : String) (from to : ℕ) (rs : List RequestResult)
    → length rs ≤ max_int
    → let r = flush to (record_results rs (new_collector test worker from)) in
      (r.0.requests ≡ pos (length rs))
      × (r.0.successes ≡ pos (count_by (λ x. x.success) rs))
      × (r.0.failures ≡ pos (count_by (λ x. not x.success) rs))
      × (r.0.window_start ≡ from)
      × (r.1 ≡ new_collector test worker to)
unfolding flush new_collector
flush-record_results test worker from to rs h =
    let k =
      record_results-Counted rs 0 0 (new_collector test worker from)
        (record { requests = refl; successes = refl; failures = refl }) (omega arith) in
    let (a, b, w) = same_window rs (new_collector test worker from) in
    (
      k.requests ∙ ap pos (omega (arith, both_kinds rs)),
      k.successes ∙ ap pos (omega arith),
      k.failures ∙ ap pos (omega arith),
      w,
      rw (a, b) refl,
    )
