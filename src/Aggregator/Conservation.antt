-- ===== src/Aggregator/Conservation.antt =====
-- No request is lost between the buckets that arrive and the reports.
use vulcan.Prelude.{
  ℕ, ◌+◌, ◌≤◌, ◌≡◌, ap, String, Bool, true, none, List, [], ◌∷◌, ◌++◌, arith, All, pos, pos_part,
  max_int,
}
use vulcan.Metrics.{MetricBucket}
use vulcan.Aggregator.{Floats, Snapshot, Aggregator, deliver, report}
use vulcan.Aggregator.Windows.{if_counted, waiting, reported, IsSound, reported-entries, delivered}

-- What may happen to an aggregator whose callbacks are not interrupted.
pub data Event : Type 0 where
  bucket : MetricBucket → Event
  tick : Event

module _ (p : String → Bool) where
  -- The requests of the tests that `p` picks that arrive.
  abbrev pub arrived : List Event → ℕ
  arrived [] = 0
  arrived (bucket b ∷ es) = if_counted p b.test_id (pos_part b.requests) + arrived es
  arrived (tick ∷ es) = arrived es

abbrev pub IsCount : Event → Type 0
IsCount (bucket b) = (n : ℕ) × (b.requests ≡ pos n)
IsCount tick = Unit {0}

module _ {F : Type 0} (floats : Floats F) where
  -- The events in order, with the snapshots of all reports, the earliest first.
  unfoldable pub run : List Event → Aggregator F → Aggregator F × List (Snapshot F)
  run [] a = (a, [])
  run (bucket b ∷ es) a = run es (deliver floats b a)
  run (tick ∷ es) a =
      let (a', now) = report floats a in let (a'', later) = run es a' in (a'', now ++ later)

  reported-append :
      (p : String → Bool) (xs ys : List (Snapshot F))
      → reported p (xs ++ ys) ≡ reported p xs + reported p ys
  reported-append p [] ys = omega arith
  reported-append p (x ∷ xs) ys = omega (arith, reported-append p xs ys)

  conserves :
      (p : String → Bool) (es : List Event) (a : Aggregator F)
      → All IsSound a.tests
      → All IsCount es
      → waiting (λ _. true) a.tests + arrived (λ _. true) es ≤ max_int
      → let r = run es a in reported p r.1 + waiting p r.0.tests ≡ waiting p a.tests + arrived p es
  unfolding run report
  conserves p [] a h k small = omega arith
  conserves p (bucket b ∷ es) a h ((n, q), k) small =
      let low : pos_part b.requests ≡ n = ap pos_part q in
      let (sum, sound) = delivered floats p b n a h q (omega (arith, small, low)) in
      let (all, _) = delivered floats (λ _. true) b n a h q (omega (arith, small, low)) in
      let rest = conserves p es (deliver floats b a) sound k (omega (arith, small, all, low)) in
      omega (arith, rest, sum, ap (if_counted p b.test_id) low)
  conserves p (tick ∷ es) a h (_, k) small =
      let (sum, sound) = reported-entries floats p a.tests h in
      let (all, _) = reported-entries floats (λ _. true) a.tests h in
      let rest = conserves p es (report floats a).0 sound k (omega (arith, small, all)) in
      omega (arith, rest, sum, reported-append p (report floats a).1 (run es (report floats a).0).1)

  -- For any events of an aggregator whose callbacks are not interrupted, from the empty one on: for
  -- any choice of tests, the requests of the buckets that arrived are those that were reported
  -- and those that wait in the windows, each counted once. For counts that are not negative and add up
  -- to an `int64`.
  pub run_conserves :
      (p : String → Bool) (es : List Event)
      → All IsCount es
      → arrived (λ _. true) es ≤ max_int
      → let r = run es (record { tests = []; next = 0; held = none }) in
        reported p r.1 + waiting p r.0.tests ≡ arrived p es
  run_conserves p es h small = omega (
    arith,
    conserves p es (record { tests = []; next = 0; held = none }) tt h (omega (arith, small)),
  )
