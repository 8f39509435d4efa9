-- ===== src/Runner/Registration.antt =====
-- The waits between the attempts of a worker to register, in internal/worker/runtime.go.
use vulcan.Prelude.{
  ℕ, String, ◌≡◌, refl, ◌≤◌, ◌*◌, inl, inr, subst, ◌⊎◌, ◌<◌, some, List, [], ◌∷◌, ◌++◌, arith,
  length, map,
}
use vulcan.Errors.{Error, ok}
use vulcan.Models.{WorkerStatus}
use vulcan.Runner.{registered, refused, next_backoff, register_from, register_with_retry, Runner}

-- Each wait is twice the one before, up to a limit of 30.
abbrev pub Doubles : ℕ → List ℕ → Type 0
Doubles b [] = Unit {0}
Doubles b (x ∷ xs) =
    (x ≡ b) × (x ≤ 30) × ((2 * x ≤ 30) × Doubles (2 * x) xs ⊎ (30 < 2 * x) × Doubles 30 xs)

doubled :
    (b : ℕ) → ((2 * b ≤ 30) × (next_backoff b ≡ 2 * b)) ⊎ ((30 < 2 * b) × (next_backoff b ≡ 30))
unfolding next_backoff
doubled b = ground arith

persists :
    (id : String) (status : WorkerStatus) (w : Runner) (b : ℕ) (errors : List Error)
    → b ≤ 30
    → let r = register_from b (map refused errors ++ (registered id status ∷ [])) w in
      (r.0 ≡ some (ok tt))
      × (r.1 ≡ record w { id = id; status = status })
      × (length r.2 ≡ length errors)
      × Doubles b r.2
unfolding register_from
persists id status w b [] h = (refl, refl, refl, tt)
persists id status w b (e ∷ errors) h =
    let step = doubled b in
    let (r, v, n, d) = persists id status w (next_backoff b) errors (ground arith) in
    let waits =
      (register_from (next_backoff b) (map refused errors ++ (registered id status ∷ [])) w).2 in
    (
      r,
      v,
      omega (arith, n),
      (
        refl,
        h,
        elim step [
          | inl (k, q) ↦ inl (k, subst (λ y. Doubles y waits) q d)
          | inr (k, q) ↦ inr (k, subst (λ y. Doubles y waits) q d)
        ],
      ),
    )

-- A worker whose attempts to register fail any number of times, and then succeed, is registered with
-- the identifier and the status that the control plane gave it. It waited once after each failure,
-- first for 1 s, then each time for twice as long, up to 30 s.
pub register_with_retry_lem :
    (id : String) (status : WorkerStatus) (w : Runner) (errors : List Error)
    → let r = register_with_retry (map refused errors ++ (registered id status ∷ [])) w in
      (r.0 ≡ some (ok tt))
      × (r.1 ≡ record w { id = id; status = status })
      × (length r.2 ≡ length errors)
      × Doubles 1 r.2
unfolding register_with_retry
register_with_retry_lem id status w errors = persists id status w 1 errors (omega arith)
