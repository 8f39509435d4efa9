-- ===== src/Aggregator/Windows.antt =====
-- What the windows of the aggregator hold: a bucket is added to one of them once, and a report takes
-- out what it reports.
use vulcan.Prelude.{
  ℕ, ◌+◌, ◌≤◌, ◌≡◌, refl, subst, ◌==◌, ◌&&◌, ap, ◌∙◌, String, Bool, true, Bool-cases, Option-cases,
  inl, inr, none, some, List, [], ◌∷◌, arith, All, pos, pos_part, max_int, add64, add64-pos, str_eq,
  eq_iff, if◌then◌else◌,
}
use text.Mathlib.TextPositions.{eq_refl}
use vulcan.Metrics.{MetricBucket}
use vulcan.Aggregator.{
  Floats, Snapshot, Entry, Aggregator, find_entry, is_zero, snapshot, merge_held, holding,
  found_or_new, get_window, merge, merge_at, new_window, deliver, report_entries,
}

module _ (p : String → Bool) where
  abbrev pub if_counted : String → ℕ → ℕ
  if_counted test n = if p test then n else 0

  -- The requests of the tests that `p` picks: that wait in windows, that are reported.
  abbrev pub waiting : {F : Type 0} → List (Entry F) → ℕ
  waiting [] = 0
  waiting (e ∷ es) = if_counted e.window.test_id (pos_part e.window.requests) + waiting es

  abbrev pub reported : {F : Type 0} → List (Snapshot F) → ℕ
  reported [] = 0
  reported (s ∷ ss) = if_counted s.test_id (pos_part s.requests) + reported ss

-- The window of an entry is that of its test, and counts what is not negative.
pub record IsSound {F : Type 0} (e : Entry F) : Type 0 where
  pub same : e.window.test_id ≡ e.key
  pub count : ℕ
  pub counts : e.window.requests ≡ pos count

module _ {F : Type 0} (floats : Floats F) where
  module _ (p : String → Bool) where
    pub reported-entries :
        (es : List (Entry F))
        → All IsSound es
        → let r = report_entries floats es in
          (waiting p r.0 + reported p r.1 ≡ waiting p es) × All IsSound r.0
    unfolding report_entries new_window snapshot
    reported-entries [] h = (omega arith, tt)
    reported-entries (e ∷ es) (h, k) =
        let (sum, sound) = reported-entries es k in
        elim (Bool-cases (is_zero e.window.requests)) [
          | inl empty ↦ rw empty (ground (arith, empty, h.counts, sum), sound)
          | inr busy ↦
              rw busy
                (ground (arith, sum), (record { same = h.same; count = 0; counts = refl }, sound))
        ]

    merged-IsSound :
        (e : Entry F) (b : MetricBucket) (n : ℕ)
        → IsSound e
        → b.requests ≡ pos n
        → pos_part e.window.requests + n ≤ max_int
        → IsSound (record e { window = merge floats b e.window })
          × (if_counted p e.window.test_id (pos_part (merge floats b e.window).requests)
              ≡ if_counted p e.window.test_id n
                + if_counted p e.window.test_id (pos_part e.window.requests))
    unfolding merge
    merged-IsSound e b n h q small =
        let low : h.count + n ≤ max_int = rw (← ap pos_part h.counts) small in
        let total : add64 e.window.requests b.requests ≡ pos (h.count + n) =
          rw (h.counts, q) (add64-pos h.count n low) in
        (
          record { same = h.same; count = h.count + n; counts = total },
          rw (total, h.counts) (ground arith),
        )

    hit :
        (x : Entry F) (es : List (Entry F)) (b : MetricBucket) (n : ℕ)
        → IsSound x
        → All IsSound es
        → b.requests ≡ pos n
        → waiting (λ _. true) (x ∷ es) + n ≤ max_int
        → str_eq x.key b.test_id ≡ true
        → (waiting p (merge_at floats b.test_id x.serial b (x ∷ es))
            ≡ if_counted p b.test_id n + waiting p (x ∷ es))
          × All IsSound (merge_at floats b.test_id x.serial b (x ∷ es))
    unfolding merge
    hit x es b n h k q small here =
        let (sound, sum) = merged-IsSound x b n h q (omega (arith, small)) in
        let serial : (x.serial == x.serial) ≡ true = ground arith in
        let test : x.window.test_id ≡ b.test_id = h.same ∙ (eq_iff x.key b.test_id).0 here in
        rw (here, serial) (omega (arith, sum, ap (λ t. if_counted p t n) test), (sound, k))

    merged :
        (es : List (Entry F)) (e : Entry F) (b : MetricBucket) (n : ℕ)
        → All IsSound es
        → find_entry floats b.test_id es ≡ some e
        → b.requests ≡ pos n
        → waiting (λ _. true) es + n ≤ max_int
        → (waiting p (merge_at floats b.test_id e.serial b es)
            ≡ if_counted p b.test_id n + waiting p es)
          × All IsSound (merge_at floats b.test_id e.serial b es)
    merged [] e b n h found q small = cc
    merged (x ∷ es) e b n (h, k) found q small = elim (Bool-cases (str_eq x.key b.test_id)) [
      | inl here ↦
          let same : x ≡ e = cc (rw here at found) in
          subst
            (λ y.
              (waiting p (merge_at floats b.test_id y.serial b (x ∷ es))
                ≡ if_counted p b.test_id n + waiting p (x ∷ es))
              × All IsSound (merge_at floats b.test_id y.serial b (x ∷ es)))
            same (hit x es b n h k q small here)
      | inr there ↦
          let (sum, sound) = merged es e b n k (rw there at found) q (omega (arith, small)) in
          rw there (omega (arith, sum), (h, sound))
    ]

    deliver-found :
        (b : MetricBucket) (a : Aggregator F) (e : Entry F)
        → find_entry floats b.test_id a.tests ≡ some e
        → (deliver floats b a).tests ≡ merge_at floats b.test_id e.serial b a.tests
    unfolding deliver get_window
    deliver-found b a e found =
        ap (λ o. (merge_held floats (holding floats b (found_or_new floats b.test_id a o))).tests)
          found

    deliver-fresh :
        (b : MetricBucket) (a : Aggregator F)
        → find_entry floats b.test_id a.tests ≡ none
        → (deliver floats b a).tests
          ≡ record {
            key = b.test_id;
            serial = a.next;
            window = merge floats b (new_window floats b.test_id);
          }
            ∷ a.tests
    unfolding deliver get_window
    deliver-fresh b a fresh =
        let here : (str_eq b.test_id b.test_id && (a.next == a.next)) ≡ true =
          ground (arith, eq_refl b.test_id) in
        ap (λ o. (merge_held floats (holding floats b (found_or_new floats b.test_id a o))).tests)
          fresh
        ∙ ap
            (λ t.
              if t
              then record {
                key = b.test_id;
                serial = a.next;
                window = merge floats b (new_window floats b.test_id);
              }
                ∷ a.tests
              else record { key = b.test_id; serial = a.next; window = new_window floats b.test_id }
                ∷ merge_at floats b.test_id a.next b a.tests)
            here

    pub delivered :
        (b : MetricBucket) (n : ℕ) (a : Aggregator F)
        → All IsSound a.tests
        → b.requests ≡ pos n
        → waiting (λ _. true) a.tests + n ≤ max_int
        → (waiting p (deliver floats b a).tests ≡ if_counted p b.test_id n + waiting p a.tests)
          × All IsSound (deliver floats b a).tests
    unfolding new_window merge
    delivered b n a h q small = elim (Option-cases (find_entry floats b.test_id a.tests)) [
      | inr (e, found) ↦ rw (deliver-found b a e found) (merged a.tests e b n h found q small)
      | inl fresh ↦
          let empty : IsSound
              (record { key = b.test_id; serial = a.next; window = new_window floats b.test_id }) =
            record { same = refl; count = 0; counts = refl } in
          let (sound, sum) =
            merged-IsSound
              (record { key = b.test_id; serial = a.next; window = new_window floats b.test_id }) b
              n empty q (omega (arith, small)) in
          rw (deliver-fresh b a fresh) (ground (arith, sum), (sound, h))
    ]
