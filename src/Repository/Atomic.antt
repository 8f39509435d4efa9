-- ===== src/Repository/Atomic.antt =====
-- All or nothing: what a transaction of internal/repository leaves committed when one of its calls fails
-- or a check refuses it.
use vulcan.Prelude.{
  map, filter_by, str_eq, [], inl, inr, refl, sym, ◌∙◌, ◌<◌, count_by, if◌then◌else◌, suc, pos_part,
  ℕ, String, ◌≡◌, ◌⊎◌, false, true, List, ◌∷◌, arith, ℤ,
}
use vulcan.Errors.{Result, ok, err, is_ok}
use vulcan.Models.{Worker, WorkerStatus}
use vulcan.Driver.{Db, Env, Conn, M}
use vulcan.Repository.Rows.{has_incomplete, worker_ids, workers_in}
use vulcan.Repository.Effects.{completed_db, finished_db, complete_rows_effect}
use vulcan.Repository.Outcomes.{complete_rows-ok}
use vulcan.Repository.Workers.{
  idle_rows, release_rows, terminate_rows, reserve_rows, reserve_workers_for_test,
  release_workers_for_test, terminate_idle_workers, mark_assignments_failed_for_offline_workers,
}
use vulcan.Repository.Assignments.{
  runs, complete_rows, mark_assignment_running, mark_assignment_completed, mark_assignment_failed,
}

none_or_some : (n : ℕ) → (n ≡ 0) ⊎ (0 < n)
none_or_some n = ground arith

-- The same world, in which no call fails.
abbrev pub calmed : Env → Env
calmed env = record env { fails = λ _. false }

-- What the calls have left of `d`, beside the same calls where none fails: a success has done what these
-- do; an error has left `d`, or it has done so too.
abbrev Either : {A : Type 0} → Db → Result A × Conn → Result A × Conn → Type 0
Either d (ok a, c') r = (is_ok r.0 ≡ true) × (c'.db ≡ r.1.db)
Either d (err e, c') r = (c'.db ≡ d) ⊎ ((is_ok r.0 ≡ true) × (c'.db ≡ r.1.db))

-- ... where `d` is what the other clients made of it before the transaction began.
abbrev pub IsAtomic : {A : Type 0} → Env → Conn → (Env → M A) → Type 0
IsAtomic env c m = Either (env.others c.calls c.db) (m env c) (m (calmed env) c)

module _ (env : Env) (c : Conn) where
  reserve_rows-Either :
      (test : String) (count : ℤ) (shares : List ℕ) (chosen : List Worker)
      → Either c.db
          (reserve_rows env test count shares chosen c)
          (reserve_rows (calmed env) test count shares chosen c)
  unfolding reserve_rows
  reserve_rows-Either test count shares chosen = ground arith

  -- What a completion that finds its row commits.
  abbrev completed : String → String → Db
  completed test worker =
      let d = completed_db test worker (env.clock c.calls) (env.clock (suc c.calls)) c.work in
      if has_incomplete d.assignments test
      then d
      else finished_db test (env.clock (suc (suc (suc c.calls)))) d

  complete_rows-calm :
      (test worker : String)
      → 0 < count_by (runs test worker) c.work.assignments
      → let r = complete_rows (calmed env) test worker c in
        (is_ok r.0 ≡ true) × (r.1.db ≡ completed test worker)
  unfolding complete_rows
  complete_rows-calm test worker h = ground arith

  complete_rows-none :
      (test worker : String)
      → count_by (runs test worker) c.work.assignments ≡ 0
      → let r = complete_rows env test worker c in (is_ok r.0 ≡ false) × (r.1.db ≡ c.db)
  unfolding complete_rows
  complete_rows-none test worker h = ground arith

  complete_rows-some :
      (test worker : String)
      → let r = complete_rows env test worker c in
        (r.1.db ≡ c.db) ⊎ (r.1.db ≡ completed test worker)
  complete_rows-some test worker = elim (complete_rows_effect env test worker c) [
    | inl e ↦ inl e
    | inr (inl (i, e)) ↦ inr (rw i e)
    | inr (inr (i, e)) ↦ inr (rw i e)
  ]

  refused-Either :
      {A : Type 0} (r q : Result A × Conn) → (is_ok r.0 ≡ false) × (r.1.db ≡ c.db) → Either c.db r q
  refused-Either (ok a, c') q h = cc
  refused-Either (err e, c') q h = inl h.1

  done-Either :
      (r q : Result (Unit {0}) × Conn) {d : Db}
      → (is_ok q.0 ≡ true) × (q.1.db ≡ d)
      → (r.1.db ≡ c.db) ⊎ (r.1.db ≡ d)
      → (r.0 ≡ ok tt → r.1.db ≡ d)
      → Either c.db r q
  done-Either (ok u, c') q (f, e) h k = (f, k refl ∙ sym e)
  done-Either (err x, c') q (f, e) h k = elim h [ inl g ↦ inl g | inr g ↦ inr (f, g ∙ sym e) ]

  complete_rows-Either :
      (test worker : String)
      → Either c.db (complete_rows env test worker c) (complete_rows (calmed env) test worker c)
  complete_rows-Either test worker =
      elim (none_or_some (count_by (runs test worker) c.work.assignments)) [
        | inl none ↦ refused-Either _ _ (complete_rows-none test worker none)
        | inr one ↦
            done-Either _ _ (complete_rows-calm test worker one) (complete_rows-some test worker)
              (λ h. (complete_rows-ok env c test worker h).1)
      ]

  release_rows-Either :
      (test : String) (ids : List String)
      → Either c.db (release_rows env test ids c) (release_rows (calmed env) test ids c)
  unfolding release_rows
  release_rows-Either test [] = ground arith
  release_rows-Either test (id ∷ ids) = ground arith

  terminate_rows-Either :
      (ids : List String)
      → Either c.db (terminate_rows env ids c) (terminate_rows (calmed env) ids c)
  unfolding terminate_rows
  terminate_rows-Either [] = ground arith
  terminate_rows-Either (id ∷ ids) = ground arith

module _ (env : Env) (c : Conn) where
  -- The transaction has begun and has made one more call, which wrote nothing.
  abbrev begun : Conn
  begun = let d = env.others c.calls c.db in record { db = d; work = d; calls = suc (suc c.calls) }

  running-IsAtomic :
      (test worker : String) → IsAtomic env c (λ e. mark_assignment_running e test worker)
  unfolding mark_assignment_running
  running-IsAtomic test worker = ground arith

  completed-IsAtomic :
      (test worker : String) → IsAtomic env c (λ e. mark_assignment_completed e test worker)
  unfolding mark_assignment_completed
  completed-IsAtomic test worker = ground (arith, complete_rows-Either env begun test worker)

  failed-IsAtomic :
      (test worker : String) → IsAtomic env c (λ e. mark_assignment_failed e test worker)
  unfolding mark_assignment_failed
  failed-IsAtomic test worker = ground arith

  reserve-IsAtomic :
      (test : String) (count : ℤ) (shares : List ℕ)
      → IsAtomic env c (λ e. reserve_workers_for_test e test count shares)
  unfolding reserve_workers_for_test
  reserve-IsAtomic test count shares = ground (
    arith,
    reserve_rows-Either env begun test count shares
        (idle_rows (env.locked (suc c.calls)) (pos_part count) (env.others c.calls c.db).workers),
  )

  release-IsAtomic : (test : String) → IsAtomic env c (λ e. release_workers_for_test e test)
  unfolding release_workers_for_test
  release-IsAtomic test = ground (
    arith,
    release_rows-Either env begun test (
        map (λ a. a.worker_id)
          (filter_by (λ a. str_eq a.test_id test) (env.others c.calls c.db).assignments)),
  )

  sweep-IsAtomic : IsAtomic env c (λ e. mark_assignments_failed_for_offline_workers e)
  unfolding mark_assignments_failed_for_offline_workers
  sweep-IsAtomic = ground arith

  terminate-IsAtomic :
      (id : String) (ids : List String) → IsAtomic env c (λ e. terminate_idle_workers e (id ∷ ids))
  unfolding terminate_idle_workers
  terminate-IsAtomic id ids = ground (
    arith,
    terminate_rows-Either env begun (
        worker_ids
          (filter_by (workers_in (id ∷ ids) WorkerStatus.idle) (env.others c.calls c.db).workers)),
  )

  -- Every transaction of the repository is all or nothing, whichever of its calls failed and whichever
  -- check refused it. Where it succeeds, it has committed what it commits when no call fails. Where it
  -- returns an error, the committed database is the one that it found, or the one that it commits when
  -- no call fails, as where only the answer to its commit is lost.
  pub transactions-IsAtomic :
      (test worker id : String) (count : ℤ) (shares : List ℕ) (ids : List String)
      → IsAtomic env c (λ e. reserve_workers_for_test e test count shares)
        × IsAtomic env c (λ e. release_workers_for_test e test)
        × IsAtomic env c (λ e. mark_assignment_running e test worker)
        × IsAtomic env c (λ e. mark_assignment_completed e test worker)
        × IsAtomic env c (λ e. mark_assignment_failed e test worker)
        × IsAtomic env c (λ e. mark_assignments_failed_for_offline_workers e)
        × IsAtomic env c (λ e. terminate_idle_workers e (id ∷ ids))
  transactions-IsAtomic test worker id count shares ids = (
    reserve-IsAtomic test count shares,
    release-IsAtomic test,
    running-IsAtomic test worker,
    completed-IsAtomic test worker,
    failed-IsAtomic test worker,
    sweep-IsAtomic,
    terminate-IsAtomic id ids,
  )
