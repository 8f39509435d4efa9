-- ===== src/Runner/Published.antt =====
-- What the buckets that executions publish count together.
use vulcan.Prelude.{
  ℕ, zero, suc, ◌+◌, ◌≤◌, ◌≡◌, refl, ap, ◌∙◌, String, Bool, true, false, List, [], ◌∷◌, ◌++◌, arith,
  All, pos, pos_part, max_int, add64-pos, count_by, if◌then◌else◌, ltb_ℤ, ◌||◌,
}
use mathlib.Core.List.{Perm, Permᴰ}
use native.Mathlib.Nat.{ℕ_set}
use mathlib.Core.Logic.{∥∥₁_elim}
use vulcan.Errors.{Result}
use vulcan.Metrics.{RequestResult, MetricBucket, new_collector, record_result, flush}
use vulcan.Runner.{
  Event, shutdown, answered, tick, finished, Execution, execute, flush_and_publish, is_stop,
}
use vulcan.Runner.Stops.{goes_on}

module _ {ℓ} {A : Type ℓ} where
  abbrev pub sum_by : (A → ℕ) → List A → ℕ
  sum_by f [] = 0
  sum_by f (x ∷ xs) = f x + sum_by f xs

  pub sum_by-append : (f : A → ℕ) (xs ys : List A) → sum_by f (xs ++ ys) ≡ sum_by f xs + sum_by f ys
  sum_by-append f [] ys = omega arith
  sum_by-append f (x ∷ xs) ys = omega (arith, sum_by-append f xs ys)

  sum_by-Permᴰ : (f : A → ℕ) {xs ys : List A} → Permᴰ xs ys → sum_by f xs ≡ sum_by f ys
  sum_by-Permᴰ f Permᴰ.nil = refl
  sum_by-Permᴰ f (Permᴰ.cons e d) = omega (arith, ap f e, sum_by-Permᴰ f d)
  sum_by-Permᴰ f (Permᴰ.swap e₁ e₂) = omega (arith, ap f e₁, ap f e₂)
  sum_by-Permᴰ f (Permᴰ.trans d₁ d₂) = sum_by-Permᴰ f d₁ ∙ sum_by-Permᴰ f d₂

  pub sum_by-Perm : (f : A → ℕ) {xs ys : List A} → Perm xs ys → sum_by f xs ≡ sum_by f ys
  sum_by-Perm f {xs} {ys} p = ∥∥₁_elim p (ℕ_set _ _) (sum_by-Permᴰ f)

abbrev pub is_answer : Event → Bool
is_answer (answered r) = true
is_answer _ = false

-- The requests of a bucket, if its test is picked; and one for a bucket whose count is negative.
abbrev pub counts : (String → Bool) → MetricBucket → ℕ
counts p b = if p b.test_id then pos_part b.requests else 0

abbrev pub is_bad : MetricBucket → ℕ
is_bad b = if ltb_ℤ b.requests (pos 0) then 1 else 0

-- An execution of a test whose collector has counted n results.
pub record Counting (test : String) (n : ℕ) (x : Execution) : Type 0 where
  pub same : x.collector.test_id ≡ test
  pub counted : x.collector.requests ≡ pos n

module _ (p : String → Bool) (test : String) where
  flushed :
      (now n : ℕ) (x : Execution)
      → Counting test n x
      → let y = flush_and_publish now x in
        Counting test 0 y
        × (sum_by (counts p) y.published
            ≡ (if p test then n else 0) + sum_by (counts p) x.published)
        × (sum_by is_bad y.published ≡ sum_by is_bad x.published)
  unfolding flush_and_publish flush new_collector
  flushed now zero x h = rw h.counted (record { same = h.same; counted = refl }, ground arith, refl)
  flushed now (suc n) x h =
      rw h.counted (record { same = h.same; counted = refl }, ground (arith, h.same), ground arith)

  answered-Counting :
      (r : RequestResult) (n : ℕ) (x : Execution)
      → Counting test n x
      → n + 1 ≤ max_int
      → Counting test (n + 1) (record x { collector = record_result r x.collector })
  unfolding record_result
  answered-Counting r n x h small = record {
    same = h.same;
    counted = rw h.counted (add64-pos n 1 small);
  }

  -- An execution that its engine ends has published every result that it received.
  pub execute_counts :
      (es : List Event) (now : ℕ) (result : Result (Unit {0})) (n : ℕ) (x : Execution)
      → All (λ e. goes_on e ≡ true) es
      → Counting test n x
      → n + count_by is_answer es ≤ max_int
      → let y = (execute (es ++ (finished now result ∷ [])) x).1 in
        (sum_by (counts p) y.published
          ≡ (if p test then n + count_by is_answer es else 0) + sum_by (counts p) x.published)
        × (sum_by is_bad y.published ≡ sum_by is_bad x.published)
  unfolding execute
  execute_counts [] now result n x on h small =
      let (_, sum, bad) = flushed now n x h in (ground (arith, sum), bad)
  execute_counts (shutdown ∷ es) now result n x (on, _) h small = cc on
  execute_counts (finished t r ∷ es) now result n x (on, _) h small = cc on
  execute_counts (answered r ∷ es) now result n x (_, on) h small =
      let (sum, bad) =
        execute_counts es now result (n + 1) (record x { collector = record_result r x.collector })
          on (answered-Counting r n x h (omega (arith, small))) (omega (arith, small)) in
      (ground (arith, sum), bad)
  execute_counts (tick t status ∷ es) now result n x (_, on) h small =
      let y = record x { stopped = x.stopped || is_stop status } in
      let (k, sum, bad) = flushed t n y (record { same = h.same; counted = h.counted }) in
      let (sum', bad') =
        execute_counts es now result 0 (flush_and_publish t y) on k (omega (arith, small)) in
      (ground (arith, sum, sum'), bad' ∙ bad)
