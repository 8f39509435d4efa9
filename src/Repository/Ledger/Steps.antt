-- ===== src/Repository/Ledger/Steps.antt =====
-- Every operation on the database, and any sequence of them, keeps the ledger.
use vulcan.Prelude.{
  ℕ, suc, String, ◌≡◌, refl, inl, inr, Bool, true, List, [], ◌∷◌, arith, update_where, ℤ, str_eq,
  ◌&&◌,
}
use vulcan.Models.{Assignment, AssignmentStatus, is_live}
use vulcan.Driver.{Env, Conn}
use vulcan.Repository.Rows.{complete_row, is_lost}
use vulcan.Repository.Workers.{assignment_rows, terminate_idle_workers}
use vulcan.Repository.Assignments.{runs, lives}
use vulcan.Repository.Tables.{
  kept, Pointwise-refl, update_where-Pointwise, append-Evolved, All-every,
}
use vulcan.Repository.Effects.{
  found, chosen_at, reserve_effect, running_effect, completed_effect, failed_effect, lost_effect,
  release_effect, terminate_effect, beat_effect, offline_effect, register_effect,
}
use vulcan.Repository.History.{
  Op, register, beats, expire, reserve, release, start, complete, fail, sweep, terminate, perform,
  run_ops,
}
use vulcan.Repository.Ledger.{
  Follows, Follows-refl, start_row-Follows, complete_row-Follows, fail_row-Follows, LedgerKept,
  LedgerKept-refl, LedgerKept-trans, OthersKeepLedger,
}

module _ (env : Env) (rely : OthersKeepLedger env) (c : Conn) where
  seen : LedgerKept c.db.assignments (found env c).assignments
  seen = rely c.calls c.db

  settled :
      (p : Assignment → Bool) (f : Assignment → Assignment)
      → ((a : Assignment) → p a ≡ true → Follows a (f a))
      → LedgerKept c.db.assignments (update_where p f (found env c).assignments)
  settled p f h = LedgerKept-trans _ _ _ seen (
      kept (
        update_where-Pointwise Follows Follows-refl p f (found env c).assignments
          (All-every (λ a. p a ≡ true → Follows a (f a)) h (found env c).assignments)))

  start-LedgerKept :
      (test worker : String)
      → LedgerKept c.db.assignments (perform env (start test worker) c).db.assignments
  unfolding perform
  start-LedgerKept test worker = elim (running_effect env test worker c) [
    | inl e ↦ rw e seen
    | inr e ↦ rw e (settled _ _ (start_row-Follows test worker (env.clock (suc c.calls))))
  ]

  complete-LedgerKept :
      (test worker : String)
      → LedgerKept c.db.assignments (perform env (complete test worker) c).db.assignments
  unfolding perform
  complete-LedgerKept test worker = elim (completed_effect env test worker c) [
    | inl e ↦ rw e seen
    | inr (inl (_, e)) ↦ rw e done
    | inr (inr (_, e)) ↦ rw e done
  ]
    where
      done : LedgerKept c.db.assignments (
          update_where
            (runs test worker)
            (complete_row (env.clock (suc (suc c.calls))))
            (found env c).assignments)
      done =
          settled (runs test worker) _
            (λ a h. complete_row-Follows AssignmentStatus.running _ a (ground arith) refl)

  fail-LedgerKept :
      (test worker : String)
      → LedgerKept c.db.assignments (perform env (fail test worker) c).db.assignments
  unfolding perform
  fail-LedgerKept test worker = elim (failed_effect env test worker c) [
    | inl e ↦ rw e seen
    | inr e ↦
        rw e
          (settled (lives test worker) _ (λ a h. fail_row-Follows a.status _ a refl (ground arith)))
  ]

  sweep-LedgerKept : LedgerKept c.db.assignments (perform env sweep c).db.assignments
  unfolding perform
  sweep-LedgerKept = elim (lost_effect env c) [
    | inl e ↦ rw e seen
    | inr e ↦ rw e (
        settled (is_lost (found env c).workers) _
          (λ a h. fail_row-Follows a.status _ a refl (ground arith)))
  ]

  release-LedgerKept :
      (test : String) → LedgerKept c.db.assignments (perform env (release test) c).db.assignments
  unfolding perform
  release-LedgerKept test = elim (release_effect env test c) [
    | inl e ↦ rw e seen
    | inr e ↦ rw e (
        settled (λ a. str_eq a.test_id test && is_live a.status) _
          (λ a h. complete_row-Follows a.status _ a refl (ground arith)))
  ]

  reserve-LedgerKept :
      (test : String) (count : ℤ) (shares : List ℕ)
      → LedgerKept c.db.assignments (perform env (reserve test count shares) c).db.assignments
  unfolding perform
  reserve-LedgerKept test count shares = elim (reserve_effect env test count shares c) [
    | inl e ↦ rw e seen
    | inr e ↦ rw e (
        LedgerKept-trans _ _ _ seen (
          append-Evolved Follows Follows-refl
            (assignment_rows test (env.clock (suc (suc (suc c.calls)))) (chosen_at env count c)
              shares)
            (found env c).assignments (found env c).assignments
            (Pointwise-refl Follows Follows-refl (found env c).assignments)))
  ]

  terminate-LedgerKept :
      (ids : List String)
      → LedgerKept c.db.assignments (perform env (terminate ids) c).db.assignments
  unfolding perform terminate_idle_workers
  terminate-LedgerKept [] = LedgerKept-refl c.db.assignments
  terminate-LedgerKept (id ∷ ids) = elim (terminate_effect env id ids c) [
    | inl e ↦ rw e seen
    | inr e ↦ rw e seen
  ]

-- Through every operation, with every pattern of failing calls, each assignment stays in the table
-- with its test, its worker and its rate, its status follows the arrows of the diagram, and one
-- that is COMPLETED or FAILED is as it was; if what the other clients commit in between keeps to
-- the same rule.
pub perform-LedgerKept :
    (env : Env)
    → OthersKeepLedger env
    → (op : Op) (c : Conn) → LedgerKept c.db.assignments (perform env op c).db.assignments
unfolding perform
perform-LedgerKept env rely (register w) c = elim (register_effect env w c) [
  | inl e ↦ rw e (seen env rely c)
  | inr (_, e) ↦ rw e (seen env rely c)
]
perform-LedgerKept env rely (beats id status) c = elim (beat_effect env id status c) [
  | inl e ↦ rw e (seen env rely c)
  | inr e ↦ rw e (seen env rely c)
]
perform-LedgerKept env rely (expire cutoff) c = elim (offline_effect env cutoff c) [
  | inl e ↦ rw e (seen env rely c)
  | inr e ↦ rw e (seen env rely c)
]
perform-LedgerKept env rely (reserve test count shares) c =
    reserve-LedgerKept env rely c test count shares
perform-LedgerKept env rely (release test) c = release-LedgerKept env rely c test
perform-LedgerKept env rely (start test worker) c = start-LedgerKept env rely c test worker
perform-LedgerKept env rely (complete test worker) c = complete-LedgerKept env rely c test worker
perform-LedgerKept env rely (fail test worker) c = fail-LedgerKept env rely c test worker
perform-LedgerKept env rely sweep c = sweep-LedgerKept env rely c
perform-LedgerKept env rely (terminate ids) c = terminate-LedgerKept env rely c ids

-- Any sequence of operations on workers and assignments, each of which may fail, keeps every
-- assignment in the table with its test, its worker and its rate; its status only moves from RESERVED
-- to RUNNING, COMPLETED or FAILED and from RUNNING to COMPLETED or FAILED; and one that is COMPLETED
-- or FAILED is never changed again. This holds if the other clients of the database keep all this.
pub run_ops-LedgerKept :
    (env : Env)
    → OthersKeepLedger env
    → (ops : List Op) (c : Conn) → LedgerKept c.db.assignments (run_ops env ops c).db.assignments
unfolding run_ops
run_ops-LedgerKept env rely [] c = LedgerKept-refl c.db.assignments
run_ops-LedgerKept env rely (op ∷ ops) c =
    LedgerKept-trans _ _ _ (perform-LedgerKept env rely op c)
      (run_ops-LedgerKept env rely ops (perform env op c))
