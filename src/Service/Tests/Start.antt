-- ===== src/Service/Tests/Start.antt =====
-- What `StartTest` of internal/service/test_service.go achieves, and what it undoes.
use vulcan.Prelude.{
  ℕ, suc, String, ◌+◌, ◌*◌, ◌≤◌, ◌<◌, ◌≡◌, refl, sym, subst, ap, ◌∙◌, inl, inr, true, false, List,
  ◌++◌, arith, length, map, count_by, All, pos, max_int,
}
use vulcan.Errors.{Error, invalid_test_state, ok, err}
use vulcan.Models.{Test, TestStatus, Worker, Assignment, AssignmentStatus}
use vulcan.Driver.{Env, Conn, M, ◌>>=◌, ◌>>◌, lift}
use vulcan.Driver.Frames.{bind-ok, wrapped-ok, lift-bind}
use vulcan.Rps.{required_workers, distribute_rps}
use vulcan.Rps.Bounds.{sum, required_workers-distribute_rps}
use vulcan.Repository.Rows.{worker_ids}
use vulcan.Repository.Workers.{as_reserved, reserve_workers_for_test}
use vulcan.Repository.Tests.{
  has_status, set_status, get_test_by_id, update_worker_count, try_transition_status,
}
use vulcan.Repository.Effects.{found}
use vulcan.Repository.Claims.{try_transition_status_lem, tried, update_where-none}
use vulcan.Repository.Reservations.{reserve_workers_for_test_lem, is_free, HandedOut}
use vulcan.Repository.Tables.{Pointwise}
use mathlib.Core.List.{Mem}
use vulcan.Service.Tests.{
  TestService, prepare_test, allocate_workers, ensure_workers_available, start_test,
}

module _ (env : Env) (service : TestService) where
  -- The connection at which the reservation is made, after the steps before it.
  prepare-reserves :
      (t : Test) (c : Conn) (n : ℕ) (xs : List ℕ) {ws : List Worker}
      → required_workers t.rps service.worker_capacity_rps ≡ ok (pos n)
      → distribute_rps t.rps (pos n) ≡ ok xs
      → (prepare_test env service t c).0 ≡ ok ws
      → (at : Conn) × (prepare_test env service t c
          ≡ allocate_workers env service t.id (pos n) xs at)
  unfolding prepare_test
  prepare-reserves t c n xs {ws} e f h =
      let (a, c₁, _, q₁) = bind-ok counted (λ _. rest) c h₁ in
      let (b, c₂, _, q₂) = bind-ok ensured (λ _. tail) c₁ (sym (ap (λ r. r.0) q₁) ∙ h₁) in
      (
        c₂,
        begun
            ∙ q₁
            ∙ q₂
            ∙ lift-bind (λ shares. allocate_workers env service t.id (pos n) shares) c₂ f,
      )
    where
      counted : M (Unit {0})
      counted = update_worker_count env t.id (pos n)

      ensured : M (Unit {0})
      ensured = ensure_workers_available env service (pos n)

      tail : M (List Worker)
      tail = lift (distribute_rps t.rps (pos n)) >>= λ shares.
          allocate_workers env service t.id (pos n) shares

      rest : M (List Worker)
      rest = ensured >>= λ _. tail

      begun : prepare_test env service t c ≡ (counted >>= λ _. rest) c
      begun =
          lift-bind
            (λ required.
              update_worker_count env t.id required
              >> (ensure_workers_available env service required
                  >> (lift (distribute_rps t.rps required) >>= λ shares.
                      allocate_workers env service t.id required shares)))
            c e

      h₁ : ((counted >>= λ _. rest) c).0 ≡ ok ws
      h₁ = sym (ap (λ r. r.0) begun) ∙ h

  rolled_back :
      (id : String) (t : Test) (e : Error) (c c₁ c₂ c₃ : Conn)
      → get_test_by_id env id c ≡ (ok t, c₁)
      → try_transition_status env id TestStatus.created TestStatus.starting c₁ ≡ (ok true, c₂)
      → prepare_test env service t c₂ ≡ (err e, c₃)
      → start_test env service id c
        ≡ (err e, (try_transition_status env id TestStatus.starting TestStatus.created c₃).1)
  unfolding start_test
  rolled_back id t e c c₁ c₂ c₃ read claimed failed = ground arith

  -- If the steps of a start after the claim succeed, the test has as many workers as its rate needs
  -- and no more: the least number whose capacities together reach the rate. They are rows of
  -- the table of workers that were IDLE and not locked by another transaction when the reservation
  -- found it; in the table that is committed the rows with their identifiers are RESERVED, and all
  -- others are as the reservation found them. Each has a RESERVED assignment of the test, whose rate is
  -- at most the capacity of a worker, and the rates add up to that of the test. For a positive rate and capacity
  -- whose sum fits in an `int`, whatever the autoscaler or the provisioner does on the way.
  pub prepare_test_lem :
      (t : Test) (c : Conn) (r capacity : ℕ) {ws : List Worker}
      → t.rps ≡ pos r
      → service.worker_capacity_rps ≡ pos capacity
      → 0 < r
      → 0 < capacity
      → r + capacity ≤ max_int
      → (prepare_test env service t c).0 ≡ ok ws
      → (at : Conn) × (chosen : List Worker) × (rows : List Assignment) × (ws
          ≡ map as_reserved chosen)
        × (r ≤ length ws * capacity)
        × (length ws * capacity < r + capacity)
        × All (λ w. is_free (env.locked (suc at.calls)) w ≡ true) chosen
        × All (λ w. Mem w (found env at).workers) chosen
        × Pointwise
            (HandedOut ws)
            (found env at).workers
            (prepare_test env service t c).1.db.workers
        × ((prepare_test env service t c).1.db.assignments ≡ rows ++ (found env at).assignments)
        × (map (λ a. a.worker_id) rows ≡ worker_ids chosen)
        × All (λ a. (a.test_id ≡ t.id) × (a.status ≡ AssignmentStatus.reserved)) rows
        × (sum (map (λ a. a.rps) rows) ≡ r)
        × All (λ x. x ≤ capacity) (map (λ a. a.rps) rows)
  unfolding allocate_workers
  prepare_test_lem t c r capacity {ws} er ec h k fits done =
      let (n, xs, computed, split, enough, spare, total, low) =
        required_workers-distribute_rps r capacity h k fits in
      let (at, same) = prepare-reserves t c n xs (rw (er, ec) computed) (rw er split) done in
      let (bare, granted) =
        wrapped-ok "allocate workers" (reserve_workers_for_test env t.id (pos n) xs) at {a = ws}
          (sym (ap (λ q. q.0) same) ∙ done) in
      let (chosen, rows, handed, many, free, there, table, kept, ids, rates, fresh) =
        reserve_workers_for_test_lem env t.id n xs at granted in
      (
        at,
        chosen,
        rows,
        handed,
        rw many enough,
        rw many spare,
        free,
        there,
        subst (Pointwise (HandedOut ws) (found env at).workers)
            (sym (ap (λ q. q.1.db.workers) (same ∙ bare))) table,
        ap (λ q. q.1.db.assignments) (same ∙ bare) ∙ kept,
        ids,
        fresh,
        rw rates total,
        rw rates low,
      )

  -- A start that has read the test and claimed it, and whose steps from there up to the reservation of
  -- the workers then fail, returns their error, and the test is STARTING no longer, if the call that
  -- rolls back is answered: whichever of these steps failed, for whatever reason. The last step, after
  -- the reservation, which sets the test RUNNING, is not among them.
  pub start_test_rolls_back :
      (id : String) (t : Test) (e : Error) (c c₁ c₂ c₃ : Conn)
      → get_test_by_id env id c ≡ (ok t, c₁)
      → try_transition_status env id TestStatus.created TestStatus.starting c₁ ≡ (ok true, c₂)
      → prepare_test env service t c₂ ≡ (err e, c₃)
      → env.fails c₃.calls ≡ false
      → ((start_test env service id c).0 ≡ err e)
        × (count_by (has_status id TestStatus.starting) (start_test env service id c).1.db.tests
            ≡ 0)
  start_test_rolls_back id t e c c₁ c₂ c₃ read claimed failed answered =
      rw (rolled_back id t e c c₁ c₂ c₃ read claimed failed) (
        refl,
        elim (try_transition_status_lem env id TestStatus.starting TestStatus.created c₃ refl
            answered) [ inl (_, _, gone) ↦ gone | inr (_, none, same) ↦ rw same none ],
      )

  -- A start that finds the test in another status than CREATED is refused, and leaves the tests, the
  -- workers and the assignments as it found them.
  pub start_test_refused :
      (id : String) (t : Test) (c c₁ : Conn)
      → get_test_by_id env id c ≡ (ok t, c₁)
      → env.fails c₁.calls ≡ false
      → count_by (has_status id TestStatus.created) (found env c₁).tests ≡ 0
      → ((start_test env service id c).0 ≡ err invalid_test_state)
        × ((start_test env service id c).1.db ≡ found env c₁)
  unfolding start_test
  start_test_refused id t c c₁ read answered none = ground (
    arith,
    tried env id TestStatus.created TestStatus.starting c₁ answered,
    update_where-none (has_status id TestStatus.created)
        (set_status TestStatus.starting (env.clock c₁.calls)) (found env c₁).tests none,
  )
