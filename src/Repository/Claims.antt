-- ===== src/Repository/Claims.antt =====
-- The conditional UPDATE of internal/repository/test_repository.go: of several clients that try the
-- same transition of a test, one wins.
use vulcan.Prelude.{
  suc, String, ◌≡◌, ◌≢◌, ap, refl, ◌⊎◌, inl, inr, Bool, true, false, List, [], ◌∷◌, arith, ltb,
  count_by, update_where, Bool-cases, ◌<◌,
}
use vulcan.Errors.{ok}
use vulcan.Models.{TestStatus, test_status_eq}
use vulcan.Driver.{Env, Conn}
use vulcan.Repository.Tests.{has_status, set_status, try_transition_status}
use vulcan.Repository.Tables.{count_by-update_where}
use vulcan.Repository.Effects.{found}

pub update_where-none :
    {A : Type 0} (p : A → Bool) (f : A → A) (xs : List A)
    → count_by p xs ≡ 0
    → update_where p f xs ≡ xs
update_where-none p f [] h = refl
update_where-none p f (x ∷ xs) h = elim (Bool-cases (p x)) [
  | inl e ↦ absurd (omega (arith, (rw e at h)))
  | inr e ↦ rw e (ground (arith, update_where-none p f xs))
]

module _ (env : Env) (id : String) (from to : TestStatus) (c : Conn) where
  pub tried :
      env.fails c.calls ≡ false
      → try_transition_status env id from to c ≡ (
        ok (ltb 0 (count_by (has_status id from) (found env c).tests)),
        record c {
          db = record (found env c) {
            tests =
                update_where
                  (has_status id from)
                  (set_status to (env.clock c.calls))
                  (found env c).tests;
          };
          calls = suc c.calls;
        },
      )
  unfolding try_transition_status
  tried h = ground arith

  -- A transition that the database accepts reports whether the test was in the first status; if so,
  -- the test is in that status no longer, and if not, the tests are as they were. The two statuses
  -- must differ.
  pub try_transition_status_lem :
      test_status_eq to from ≡ false
      → env.fails c.calls ≡ false
      → let r = try_transition_status env id from to c in
        ((r.0 ≡ ok true)
          × (0 < count_by (has_status id from) (found env c).tests)
          × (count_by (has_status id from) r.1.db.tests ≡ 0))
        ⊎ ((r.0 ≡ ok false)
            × (count_by (has_status id from) (found env c).tests ≡ 0)
            × (r.1.db.tests ≡ (found env c).tests))
  try_transition_status_lem differ h =
      rw (tried h) (elim (Bool-cases (ltb 0 (count_by (has_status id from) (found env c).tests))) [
        | inl won ↦ inl (
          rw won,
          ground arith,
          count_by-update_where (has_status id from) (has_status id from)
              (set_status to (env.clock c.calls)) (found env c).tests (λ t e. ground arith)
              (λ t e. e),
        )
        | inr lost ↦ inr (
          rw lost,
          ground arith,
          update_where-none (has_status id from) (set_status to (env.clock c.calls))
              (found env c).tests (ground arith),
        )
      ])

answered :
    (env : Env) (id : String) (from to : TestStatus) (c : Conn) {b : Bool}
    → (try_transition_status env id from to c).0 ≡ ok b
    → env.fails c.calls ≡ false
unfolding try_transition_status
answered env id from to c h = ground arith

-- Two attempts at the same transition from one status to another that differs from it never both win:
-- after one has won, a second one that finds the tests as the first left them does not.
pub try_transition_status_once :
    (env : Env) (id : String) (from to : TestStatus) (c : Conn)
    → test_status_eq to from ≡ false
    → (try_transition_status env id from to c).0 ≡ ok true
    → (found env (try_transition_status env id from to c).1).tests
      ≡ (try_transition_status env id from to c).1.db.tests
    → (try_transition_status env id from to (try_transition_status env id from to c).1).0 ≢ ok true
try_transition_status_once env id from to c differ won quiet again =
    let c' = (try_transition_status env id from to c).1 in
    let first = try_transition_status_lem env id from to c differ (answered env id from to c won) in
    let second =
      try_transition_status_lem env id from to c' differ (answered env id from to c' again) in
    elim first [
      | inl (_, _, gone) ↦ elim second [
        | inl (_, there, _) ↦
            absurd (omega (arith, there, gone, ap (count_by (has_status id from)) quiet))
        | inr (lost, _, _) ↦ cc (lost, again)
      ]
      | inr (lost, _, _) ↦ cc (lost, won)
    ]
