-- ===== src/Aggregator/Races.antt =====
-- A report that comes between the two steps of a callback.
use vulcan.Prelude.{
  ℕ, ◌+◌, ◌≡◌, refl, ap, ◌∙◌, String, Bool, true, false, Bool-cases, inl, inr, Option, none, some,
  List, [], ◌∷◌, arith, All, pos_part, str_eq,
}
use vulcan.Metrics.{MetricBucket}
use vulcan.Aggregator.{
  Floats, Entry, Aggregator, find_entry, is_zero, merge_at, new_window, receive, get_window,
  merge_held, holding, found_or_new, report_entries, report,
}
use vulcan.Aggregator.Windows.{IsSound, waiting, reported, if_counted, reported-entries}

abbrev pub is_test : String → String → Bool
is_test test t = str_eq t test

module _ {F : Type 0} (floats : Floats F) where
  merge_at-absent :
      (test : String) (serial : ℕ) (b : MetricBucket) (es : List (Entry F))
      → All (λ e. str_eq e.key test ≡ false) es
      → merge_at floats test serial b es ≡ es
  merge_at-absent test serial b [] h = refl
  merge_at-absent test serial b (e ∷ es) (h, k) = rw (h, merge_at-absent test serial b es k) refl

  other_test :
      (e : Entry F) (test : String) (rest : ℕ)
      → IsSound e
      → if_counted (is_test test) e.window.test_id (pos_part e.window.requests) + rest ≡ 0
      → is_zero e.window.requests ≡ false
      → str_eq e.key test ≡ false
  other_test e test rest h z busy = elim (Bool-cases (str_eq e.key test)) [
    | inl here ↦
        let counted : is_test test e.window.test_id ≡ true = ap (is_test test) h.same ∙ here in
        ground (arith, rw (counted, h.counts) at z, rw h.counts at busy)
    | inr there ↦ there
  ]

  -- An entry without requests leaves the map.
  emptied :
      (test : String) (es : List (Entry F))
      → All IsSound es
      → waiting (is_test test) es ≡ 0
      → All (λ e. str_eq e.key test ≡ false) (report_entries floats es).0
  unfolding report_entries
  emptied test [] h z = tt
  emptied test (e ∷ es) (h, k) z = elim (Bool-cases (is_zero e.window.requests)) [
    | inl empty ↦ rw empty (emptied test es k (omega (arith, z)))
    | inr busy ↦ rw busy (
      other_test e test (waiting (is_test test) es) h z busy,
      emptied test es k (omega (arith, z)),
    )
  ]

  received :
      (b : MetricBucket) (a : Aggregator F)
      → All IsSound a.tests
      → waiting (is_test b.test_id) a.tests ≡ 0
      → (serial : ℕ) × ((receive floats b a).held ≡ some (serial, b))
        × All IsSound (receive floats b a).tests
        × (waiting (is_test b.test_id) (receive floats b a).tests ≡ 0)
  unfolding receive get_window new_window
  received b a h z = go (find_entry floats b.test_id a.tests)
    where
      go :
          (o : Option (Entry F))
          → let r = holding floats b (found_or_new floats b.test_id a o) in
            (serial : ℕ) × (r.held ≡ some (serial, b))
            × All IsSound r.tests
            × (waiting (is_test b.test_id) r.tests ≡ 0)
      go (some e) = (e.serial, refl, h, z)
      go none =
          (a.next, refl, (record { same = refl; count = 0; counts = refl }, h), ground (arith, z))

  -- A report that comes between the two steps of a callback loses the bucket: if no request of the
  -- test waits when the callback takes the window, the report finds the window empty and drops it, and
  -- the bucket is merged into a window that nothing reads. It is in no snapshot of that report and in
  -- no window afterwards, whatever it counts.
  pub merge_held-orphan :
      (b : MetricBucket) (a : Aggregator F)
      → All IsSound a.tests
      → waiting (is_test b.test_id) a.tests ≡ 0
      → let r = report floats (receive floats b a) in
        (reported (is_test b.test_id) r.1 ≡ 0)
        × (waiting (is_test b.test_id) (merge_held floats r.0).tests ≡ 0)
  unfolding report merge_held
  merge_held-orphan b a h z =
      let (serial, held, sound, still) = received b a h z in
      let (sum, _) = reported-entries floats (is_test b.test_id) (receive floats b a).tests sound in
      let gone = emptied b.test_id (receive floats b a).tests sound still in
      (
        omega (arith, sum, still),
        rw held (
            rw
              (merge_at-absent b.test_id serial b
                (report_entries floats (receive floats b a).tests).0 gone)
              (omega (arith, sum, still))),
      )
