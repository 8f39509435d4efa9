-- ===== src/Autoscaler/Capacity.antt =====
-- internal/autoscaler/capacity.go: how many workers the tests of a list need together.
pub mod Demand
use vulcan.Prelude.{Bool, true, false, ◌||◌, List, [], ◌∷◌, if◌then◌else◌, ℤ, pos, add64}
use vulcan.Errors.{Result, ok, err, and_then, wrap_err}
use vulcan.Models.{Test, TestStatus, test_status_eq}
use vulcan.Rps.{required_workers}

unfoldable pub is_active_test : TestStatus → Bool
is_active_test status =
    test_status_eq status TestStatus.starting || test_status_eq status TestStatus.running

unfoldable pub is_pending_test : TestStatus → Bool
is_pending_test status = test_status_eq status TestStatus.created

-- One round of either loop: a test that does not count leaves the sum.
unfoldable pub add_required : (TestStatus → Bool) → ℤ → ℤ → Test → Result ℤ
add_required counts capacity sum t =
    if counts t.status
    then and_then (required_workers t.rps capacity) (λ n. ok (add64 sum n))
    else ok sum

unfoldable pub sum_required : (TestStatus → Bool) → ℤ → ℤ → List Test → Result ℤ
sum_required counts capacity sum [] = ok sum
sum_required counts capacity sum (t ∷ ts) =
    and_then (add_required counts capacity sum t) (λ s. sum_required counts capacity s ts)

unfoldable pub desired_capacity : List Test → ℤ → Result ℤ
desired_capacity tests capacity =
    wrap_err "calculate workers for test" (sum_required is_active_test capacity (pos 0) tests)

unfoldable pub pending_capacity : List Test → ℤ → Result ℤ
pending_capacity tests capacity =
    wrap_err "calculate pending workers for test"
      (sum_required is_pending_test capacity (pos 0) tests)
