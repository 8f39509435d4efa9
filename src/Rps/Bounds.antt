-- ===== src/Rps/Bounds.antt =====
-- What internal/scheduler/rps.go promises: a ceiling, and an even split that loses no request.
use vulcan.Prelude.{
  ℕ, zero, suc, ◌+◌, ◌-◌, ◌*◌, ◌/◌, ◌%◌, ◌≤◌, ◌<◌, ◌≡◌, refl, true, false, ◌↔◌, leb_ℤ, ◌⊎◌, List,
  [], ◌∷◌, arith, length, All, leb_ℤ, ◌↔◌, ℤ, pos, max_int, quot64, add64-pos, sub64-pos,
}
use native.Mathlib.Nat.{div-add-mod', mul_comm, mul-le-mul_left, lt_of_mul-lt-mul_left}
use vulcan.Errors.{ok, is_ok}
use vulcan.Rps.{required_workers, allocate, distribute_rps}

-- On positive arguments whose sum fits, the code's expression in native numbers.
pub required_workers-pos :
    (r c : ℕ)
    → 0 < r
    → 0 < c
    → r + c ≤ max_int
    → required_workers (pos r) (pos c) ≡ ok (pos ((r + c - 1) / c))
unfolding required_workers quot64
required_workers-pos r c h k f =
    rw (add64-pos r c f, sub64-pos (r + c) 1 (omega arith) f) (ground arith)

ceiling-pos : (r n c : ℕ) → 0 < r → r ≤ n * c → 0 < n
ceiling-pos r zero c h e = omega arith
ceiling-pos r (suc n) c h e = omega arith

ceiling-le : (r n c : ℕ) → 0 < r → 0 < c → n * c < r + c → n ≤ r
ceiling-le r n c h k e = omega (
  arith,
  lt_of_mul-lt-mul_left c {m = n} {n = suc r}
      (omega (arith, mul_comm n c, mul_comm c (suc r), mul-le-mul_left {m = 1} {n = c} r k)),
)

-- For a positive rate and capacity whose sum fits in an `int`, the number of workers is the
-- ceiling of their quotient: so many workers carry the rate, one fewer would not, and there is
-- at least one and never more than the rate.
required_workers_ceiling :
    (r c : ℕ)
    → 0 < r
    → 0 < c
    → r + c ≤ max_int
    → (n : ℕ) × (required_workers (pos r) (pos c) ≡ ok (pos n))
      × (r ≤ n * c)
      × (n * c < r + c)
      × (0 < n)
      × (n ≤ r)
required_workers_ceiling r c h k f = (
  (r + c - 1) / c,
  required_workers-pos r c h k f,
  enough,
  spare,
  ceiling-pos r _ c h enough,
  ceiling-le r _ c h k spare,
)
  where
    enough : r ≤ (r + c - 1) / c * c
    enough = grind arith

    spare : (r + c - 1) / c * c < r + c
    spare = grind arith

-- The number of workers is refused exactly when the rate or the capacity is not positive.
required_workers_refuses :
    (rps capacity : ℤ)
    → (is_ok (required_workers rps capacity) ≡ false)
      ↔ ((leb_ℤ rps (pos 0) ≡ true) ⊎ (leb_ℤ capacity (pos 0) ≡ true))
unfolding required_workers
required_workers_refuses rps capacity = (λ h. ground arith, λ h. ground arith)

abbrev pub sum : List ℕ → ℕ
sum [] = 0
sum (x ∷ xs) = x + sum xs

length-allocate : (b r i n : ℕ) → length (allocate b r i n) ≡ n
unfolding allocate
length-allocate b r i zero = refl
length-allocate b r i (suc n) = omega (arith, length-allocate b r (suc i) n)

-- Up to index r each share is one larger.
sum-allocate_low : (b r i n : ℕ) → r ≤ i → sum (allocate b r i n) ≡ n * b
unfolding allocate
sum-allocate_low b r i zero h = omega arith
sum-allocate_low b r i (suc n) h = ground (arith, sum-allocate_low b r (suc i) n)

sum-allocate : (b r i n : ℕ) → i ≤ r → r ≤ i + n → sum (allocate b r i n) + i ≡ n * b + r
unfolding allocate
sum-allocate b r i zero h k = omega arith
sum-allocate b r i (suc n) h k =
    ground (arith, sum-allocate b r (suc i) n, sum-allocate_low b r i (suc n))

abbrev pub Between : ℕ → ℕ → ℕ → Type 0
Between lo hi x = (lo ≤ x) × (x ≤ hi)

allocate-Between : (b r i n : ℕ) → All (Between b (b + 1)) (allocate b r i n)
unfolding allocate
allocate-Between b r i zero = tt
allocate-Between b r i (suc n) = (ground arith, allocate-Between b r (suc i) n)

-- Sharing a positive rate out over a positive number of workers succeeds with one share for each
-- worker, the shares add up to the rate, and no two of them differ by more than one.
distribute_rps_even :
    (t w : ℕ)
    → 0 < t
    → 0 < w
    → (xs : List ℕ) × (distribute_rps (pos t) (pos w) ≡ ok xs)
      × (length xs ≡ w)
      × (sum xs ≡ t)
      × All (Between (t / w) (t / w + 1)) xs
unfolding distribute_rps
distribute_rps_even t w h k = (
  allocate (t / w) (t % w) 0 w,
  ground arith,
  length-allocate _ _ 0 w,
  omega (arith, sum-allocate (t / w) (t % w) 0 w (omega arith) (omega arith), div-add-mod' t w),
  allocate-Between (t / w) (t % w) 0 w,
)

allocate-le : (b r i n c : ℕ) → b ≤ c → (0 < r → b + 1 ≤ c) → All (λ x. x ≤ c) (allocate b r i n)
unfolding allocate
allocate-le b r i zero c h k = tt
allocate-le b r i (suc n) c h k = (ground arith, allocate-le b r (suc i) n c h k)

share-le : (r n c : ℕ) → 0 < n → r ≤ n * c → r / n ≤ c
share-le r n c h k = grind arith

share-lt : (r n c : ℕ) → 0 < n → r ≤ n * c → 0 < r % n → r / n + 1 ≤ c
share-lt r n c h k p = grind (arith, div-add-mod' r n)

-- A test started with the number of workers that was computed for it asks no worker for more
-- than its capacity: for a positive rate and capacity whose sum fits in an `int`, splitting the
-- rate over that many workers succeeds, the shares add up to the rate, and none exceeds the
-- capacity; and the number is the least that has room for the rate.
pub required_workers-distribute_rps :
    (r c : ℕ)
    → 0 < r
    → 0 < c
    → r + c ≤ max_int
    → (n : ℕ) × (xs : List ℕ) × (required_workers (pos r) (pos c) ≡ ok (pos n))
      × (distribute_rps (pos r) (pos n) ≡ ok xs)
      × (r ≤ n * c)
      × (n * c < r + c)
      × (sum xs ≡ r)
      × All (λ x. x ≤ c) xs
unfolding distribute_rps
required_workers-distribute_rps r c h k f =
    let (n, computed, enough, spare, some_worker, _) = required_workers_ceiling r c h k f in
    let (xs, split, _, total, _) = distribute_rps_even r n h some_worker in
    (
      n,
      allocate (r / n) (r % n) 0 n,
      computed,
      ground arith,
      enough,
      spare,
      omega (arith, sum-allocate (r / n) (r % n) 0 n (omega arith) (omega arith), div-add-mod' r n),
      allocate-le (r / n) (r % n) 0 n c (share-le r n c some_worker enough)
          (share-lt r n c some_worker enough),
    )
