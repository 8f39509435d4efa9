-- ===== src/Autoscaler/Capacity/Demand.antt =====
-- internal/autoscaler/capacity.go against what it is meant to be: the sum, over the tests that
-- count, of the least number of workers that carries each.
use vulcan.Prelude.{
  ℕ, String, ◌+◌, ◌-◌, ◌/◌, ◌≤◌, ◌<◌, ◌≡◌, refl, ap, ◌∙◌, Bool, true, false, not, ◌&&◌, ◌||◌, List,
  [], ◌∷◌, arith, if◌then◌else◌, ltb, leb, any_by, All, ℤ, pos, negsuc, leb_ℤ, max_int, add64-pos,
}
use vulcan.Errors.{Result, ok, err, is_ok, and_then, wrap_err, wrap_err-is_ok}
use vulcan.Models.{Test, TestStatus}
use vulcan.Rps.{required_workers}
use vulcan.Rps.Bounds.{required_workers-pos}
use vulcan.Autoscaler.Capacity.{
  is_active_test, is_pending_test, add_required, sum_required, desired_capacity, pending_capacity,
}

-- The ceiling of a rate by a capacity.
abbrev pub workers_for : ℤ → ℕ → ℕ
workers_for (pos r) c = (r + c - 1) / c
workers_for (negsuc r) c = 0

abbrev pub demand : (TestStatus → Bool) → ℕ → List Test → ℕ
demand counts c [] = 0
demand counts c (t ∷ ts) = (if counts t.status then workers_for t.rps c else 0) + demand counts c ts

-- The tests that demand workers now, and those that are about to.
abbrev pub demands_now : TestStatus → Bool
demands_now TestStatus.starting = true
demands_now TestStatus.running = true
demands_now TestStatus.created = false
demands_now TestStatus.stopping = false
demands_now TestStatus.stopped = false
demands_now TestStatus.completed = false
demands_now TestStatus.failed = false

abbrev pub demands_soon : TestStatus → Bool
demands_soon TestStatus.created = true
demands_soon TestStatus.starting = false
demands_soon TestStatus.running = false
demands_soon TestStatus.stopping = false
demands_soon TestStatus.stopped = false
demands_soon TestStatus.completed = false
demands_soon TestStatus.failed = false

is_active_test-demands_now : (s : TestStatus) → is_active_test s ≡ demands_now s
unfolding is_active_test
is_active_test-demands_now TestStatus.created = refl
is_active_test-demands_now TestStatus.starting = refl
is_active_test-demands_now TestStatus.running = refl
is_active_test-demands_now TestStatus.stopping = refl
is_active_test-demands_now TestStatus.stopped = refl
is_active_test-demands_now TestStatus.completed = refl
is_active_test-demands_now TestStatus.failed = refl

is_pending_test-demands_soon : (s : TestStatus) → is_pending_test s ≡ demands_soon s
unfolding is_pending_test
is_pending_test-demands_soon TestStatus.created = refl
is_pending_test-demands_soon TestStatus.starting = refl
is_pending_test-demands_soon TestStatus.running = refl
is_pending_test-demands_soon TestStatus.stopping = refl
is_pending_test-demands_soon TestStatus.stopped = refl
is_pending_test-demands_soon TestStatus.completed = refl
is_pending_test-demands_soon TestStatus.failed = refl

-- A test that counts has a positive rate, small enough for the sum in `RequiredWorkers`.
abbrev pub is_sound_rate : ℕ → ℤ → Bool
is_sound_rate c (pos r) = ltb 0 r && leb (r + c) max_int
is_sound_rate c (negsuc r) = false

abbrev pub is_sound : (TestStatus → Bool) → ℕ → Test → Bool
is_sound counts c t = not (counts t.status) || is_sound_rate c t.rps

required_workers_sound :
    (rps : ℤ) (c : ℕ)
    → 0 < c
    → is_sound_rate c rps ≡ true
    → required_workers rps (pos c) ≡ ok (pos (workers_for rps c))
required_workers_sound (pos r) c k h = required_workers-pos r c (ground arith) k (ground arith)
required_workers_sound (negsuc r) c k h = cc

add_required-demand :
    (counts : TestStatus → Bool) (c s : ℕ) (t : Test)
    → 0 < c
    → is_sound counts c t ≡ true
    → s + demand counts c (t ∷ []) ≤ max_int
    → add_required counts (pos c) (pos s) t ≡ ok (pos (s + demand counts c (t ∷ [])))
unfolding add_required
add_required-demand counts c s t k h b =
    ground (arith, required_workers_sound t.rps c k, add64-pos s (workers_for t.rps c))

sum_required-demand :
    (counts : TestStatus → Bool) (c s : ℕ) (ts : List Test)
    → 0 < c
    → All (λ t. is_sound counts c t ≡ true) ts
    → s + demand counts c ts ≤ max_int
    → sum_required counts (pos c) (pos s) ts ≡ ok (pos (s + demand counts c ts))
unfolding sum_required
sum_required-demand counts c s [] k h b = ground arith
sum_required-demand counts c s (t ∷ ts) k h b =
    rw (add_required-demand counts c s t k h.0 (omega arith)) (
      sum_required-demand counts c (s + demand counts c (t ∷ [])) ts k h.1 (omega arith)
      ∙ ap (λ (n : ℕ). ok (pos n)) (omega arith))

total-demand :
    (counts : TestStatus → Bool) (c : ℕ) (text : String) (ts : List Test)
    → 0 < c
    → All (λ t. is_sound counts c t ≡ true) ts
    → demand counts c ts ≤ max_int
    → wrap_err text (sum_required counts (pos c) (pos 0) ts) ≡ ok (pos (demand counts c ts))
total-demand counts c text ts k h b =
    rw (sum_required-demand counts c 0 ts k h (omega arith))
      (ap (λ (n : ℕ). ok (pos n)) (omega arith))

sum_required-same :
    (p q : TestStatus → Bool) (capacity sum : ℤ) (ts : List Test)
    → ((s : TestStatus) → p s ≡ q s)
    → sum_required p capacity sum ts ≡ sum_required q capacity sum ts
unfolding sum_required add_required
sum_required-same p q capacity sum [] same = refl
sum_required-same p q capacity sum (t ∷ ts) same = rw (same t.status) (
    ap (and_then (add_required q capacity sum t))
      (λ i s. sum_required-same p q capacity s ts same i))

-- For a positive capacity, if every test that is STARTING, RUNNING or CREATED has a positive rate that
-- fits and the sums fit in an `int`, the desired capacity is the sum over the STARTING and RUNNING
-- tests, and the pending capacity that over the CREATED ones, of the least number of workers for each.
pub capacities-demand :
    (c : ℕ) (ts : List Test)
    → 0 < c
    → All (λ t. is_sound demands_now c t ≡ true) ts
    → All (λ t. is_sound demands_soon c t ≡ true) ts
    → demand demands_now c ts ≤ max_int
    → demand demands_soon c ts ≤ max_int
    → (desired_capacity ts (pos c) ≡ ok (pos (demand demands_now c ts)))
      × (pending_capacity ts (pos c) ≡ ok (pos (demand demands_soon c ts)))
unfolding desired_capacity pending_capacity
capacities-demand c ts k active pending b d = (
  ap (wrap_err _)
        (sum_required-same is_active_test demands_now (pos c) (pos 0) ts is_active_test-demands_now)
      ∙ total-demand demands_now c _ ts k active b,
  ap (wrap_err _) (
        sum_required-same is_pending_test demands_soon (pos c) (pos 0) ts
          is_pending_test-demands_soon)
      ∙ total-demand demands_soon c _ ts k pending d,
)

-- A test that counts, with a rate that is not positive.
abbrev pub is_bad : (TestStatus → Bool) → Test → Bool
is_bad counts t = counts t.status && leb_ℤ t.rps (pos 0)

add_required-is_ok :
    (counts : TestStatus → Bool) (c s : ℤ) (t : Test)
    → leb_ℤ c (pos 0) ≡ false
    → is_ok (add_required counts c s t) ≡ not (is_bad counts t)
unfolding add_required required_workers
add_required-is_ok counts c s t k = ground arith

sum_required-is_ok :
    (counts : TestStatus → Bool) (c s : ℤ) (ts : List Test)
    → leb_ℤ c (pos 0) ≡ false
    → is_ok (sum_required counts c s ts) ≡ not (any_by (is_bad counts) ts)
unfolding sum_required
sum_required-is_ok counts c s [] k = refl
sum_required-is_ok counts c s (t ∷ ts) k =
    step (add_required counts c s t) (add_required-is_ok counts c s t k)
      (λ s'. sum_required-is_ok counts c s' ts k)
  where
    step :
        (r : Result ℤ)
        → is_ok r ≡ not (is_bad counts t)
        → ((s' : ℤ) → is_ok (sum_required counts c s' ts) ≡ not (any_by (is_bad counts) ts))
        → is_ok (and_then r (λ s'. sum_required counts c s' ts))
          ≡ not (is_bad counts t || any_by (is_bad counts) ts)
    step (ok s') e ih = ground (arith, ih s')
    step (err x) e ih = ground arith

-- For a positive capacity the computation fails exactly when a test that counts has a rate that is
-- not positive: one such test among the STARTING and RUNNING ones, or among the CREATED ones, fails
-- the whole sum.
capacities_refuse :
    (c : ℤ) (ts : List Test)
    → leb_ℤ c (pos 0) ≡ false
    → (is_ok (desired_capacity ts c) ≡ not (any_by (is_bad is_active_test) ts))
      × (is_ok (pending_capacity ts c) ≡ not (any_by (is_bad is_pending_test) ts))
unfolding desired_capacity pending_capacity
capacities_refuse c ts k = (
  wrap_err-is_ok _ _ ∙ sum_required-is_ok is_active_test c (pos 0) ts k,
  wrap_err-is_ok _ _ ∙ sum_required-is_ok is_pending_test c (pos 0) ts k,
)
