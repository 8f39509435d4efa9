-- ===== src/Errors.antt =====
-- The error values of internal/api/apierrors/errors.go, internal/validation/validation.go and
-- the packages that wrap them, and results that carry one.
use vulcan.Prelude.{ℕ, String, ◌≡◌, refl, Bool, true, false}

pub data Error : Type 0 where
  test_not_found validation conflict internal failed_conn worker_not_found : Error
  insufficient_workers invalid_test_state assignment_not_found : Error
  nil_scheduler nil_executor assignment_stopped : Error
  -- The variable `ErrAssignmentStopped` of internal/worker/worker.go, another value.
  worker_assignment_stopped : Error
  -- `context.Canceled` and `context.DeadlineExceeded`.
  cancelled deadline_exceeded : Error
  -- A `*validation.Error`: the field and what is wrong with it.
  invalid : String → String → Error
  -- `errors.New` or `fmt.Errorf` with a text of its own.
  message : String → Error
  -- The error that the n-th call of a driver or of another service returned.
  driver : ℕ → Error
  -- `fmt.Errorf("text: %w", err)`.
  wrap : String → Error → Error

pub data Result {ℓ} (A : Type ℓ) : Type ℓ where
  ok : A → Result A
  err : Error → Result A

abbrev pub is_ok {ℓ} : {A : Type ℓ} → Result A → Bool
is_ok (ok a) = true
is_ok (err e) = false

-- What `errors.Is` finds: the error under all the texts that were put before it.
unfoldable pub cause : Error → Error
cause (wrap text e) = cause e
cause e = e

abbrev pub and_then {ℓ κ} : {A : Type ℓ} {B : Type κ} → Result A → (A → Result B) → Result B
and_then (ok a) f = f a
and_then (err e) f = err e

abbrev pub wrap_err {ℓ} : {A : Type ℓ} → String → Result A → Result A
wrap_err text (ok a) = ok a
wrap_err text (err e) = err (wrap text e)

pub wrap_err-is_ok {ℓ} :
    {A : Type ℓ} (text : String) (r : Result A) → is_ok (wrap_err text r) ≡ is_ok r
wrap_err-is_ok text (ok a) = refl
wrap_err-is_ok text (err e) = refl
