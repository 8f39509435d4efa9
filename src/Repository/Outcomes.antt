-- ===== src/Repository/Outcomes.antt =====
-- What holds in the committed database when an operation of internal/repository/assignment.go or
-- the sweep for offline workers reports success.
use vulcan.Prelude.{
  ℕ, suc, String, ◌≡◌, refl, ◌⊎◌, inl, inr, true, false, arith, sym, ap, ◌∙◌, ◌<◌, if◌then◌else◌,
  Bool-cases, count_by,
}
use vulcan.Errors.{ok, is_ok}
use vulcan.Models.{TestStatus}
use vulcan.Driver.{Db, Env, Conn}
use vulcan.Repository.Tests.{has_status, set_status}
use vulcan.Repository.Rows.{is_lost, is_broken, has_incomplete, fail_row, complete_row, start_row}
use vulcan.Repository.Workers.{mark_assignments_failed_for_offline_workers}
use vulcan.Repository.Assignments.{
  runs, waits, lives, complete_rows, mark_assignment_running, mark_assignment_completed,
  mark_assignment_failed,
}
use vulcan.Repository.Tables.{count_by-update_where, count_by-update_where-moved}
use vulcan.Repository.Effects.{found, lost_db, failed_db, running_db, completed_db, finished_db}

module _ (env : Env) (c : Conn) where
  swept :
      (n : ℕ)
      → (mark_assignments_failed_for_offline_workers env c).0 ≡ ok n
      → (mark_assignments_failed_for_offline_workers env c).1.db
        ≡ lost_db (env.clock (suc c.calls)) (env.clock (suc (suc c.calls))) (found env c)
  unfolding mark_assignments_failed_for_offline_workers
  swept n h = ground arith

  -- After a sweep that reports success no unfinished assignment belongs to an OFFLINE worker, no
  -- RUNNING test has a FAILED assignment, and no worker has changed.
  pub sweep_lem :
      (n : ℕ)
      → (mark_assignments_failed_for_offline_workers env c).0 ≡ ok n
      → let d = (mark_assignments_failed_for_offline_workers env c).1.db in
        (count_by (is_lost d.workers) d.assignments ≡ 0)
        × (count_by (is_broken d.assignments) d.tests ≡ 0)
        × (d.workers ≡ (found env c).workers)
  sweep_lem n h = rw (swept n h) (
    count_by-update_where (is_lost (found env c).workers) (is_lost (found env c).workers)
        (fail_row (env.clock (suc c.calls))) (found env c).assignments (λ a e. ground arith)
        (λ a e. e),
    count_by-update_where _ _ (set_status TestStatus.failed (env.clock (suc (suc c.calls))))
        (found env c).tests (λ t e. ground arith) (λ t e. e),
    refl,
  )

  pub complete_rows-ok :
      (test worker : String)
      → (complete_rows env test worker c).0 ≡ ok tt
      → let d = completed_db test worker (env.clock c.calls) (env.clock (suc c.calls)) c.work in
        (0 < count_by (runs test worker) c.work.assignments)
        × ((complete_rows env test worker c).1.db ≡ (
            if has_incomplete d.assignments test
            then d
            else finished_db test (env.clock (suc (suc (suc c.calls)))) d))
  unfolding complete_rows
  complete_rows-ok test worker h = ground arith

  running_ok :
      (test worker : String)
      → (mark_assignment_running env test worker c).0 ≡ ok tt
      → (0 < count_by (waits test worker) (found env c).assignments)
        × ((mark_assignment_running env test worker c).1.db
            ≡ running_db test worker
                (env.clock (suc c.calls))
                (env.clock (suc (suc c.calls)))
                (found env c))
  unfolding mark_assignment_running
  running_ok test worker h = ground arith

  -- A start that is accepted was of a RESERVED assignment; all that waited for the worker is RUNNING
  -- afterwards, and nothing of the test waits for it any more.
  pub mark_assignment_running_lem :
      (test worker : String)
      → (mark_assignment_running env test worker c).0 ≡ ok tt
      → let d = (mark_assignment_running env test worker c).1.db in
        (0 < count_by (waits test worker) (found env c).assignments)
        × (count_by (waits test worker) d.assignments ≡ 0)
        × (0 < count_by (runs test worker) d.assignments)
  mark_assignment_running_lem test worker h =
      let (some_row, e) = running_ok test worker h in
      let moved =
        count_by-update_where-moved (waits test worker) (runs test worker)
          (start_row (env.clock (suc c.calls))) (found env c).assignments (λ a k. ground arith)
          (λ a k. ground arith) in
      rw e (
        some_row,
        count_by-update_where (waits test worker) (waits test worker)
            (start_row (env.clock (suc c.calls))) (found env c).assignments (λ a k. ground arith)
            (λ a k. k),
        rw moved (omega arith),
      )

  failed_ok :
      (test worker : String)
      → (mark_assignment_failed env test worker c).0 ≡ ok tt
      → (0 < count_by (lives test worker) (found env c).assignments)
        × ((mark_assignment_failed env test worker c).1.db
            ≡ failed_db test worker
                (env.clock (suc c.calls))
                (env.clock (suc (suc c.calls)))
                (found env c))
  unfolding mark_assignment_failed
  failed_ok test worker h = ground arith

  -- A failure that is accepted was of an unfinished assignment; afterwards no unfinished assignment
  -- joins the test and the worker, the test is not RUNNING, and no worker has changed.
  mark_assignment_failed_lem :
      (test worker : String)
      → (mark_assignment_failed env test worker c).0 ≡ ok tt
      → let d = (mark_assignment_failed env test worker c).1.db in
        (0 < count_by (lives test worker) (found env c).assignments)
        × (count_by (lives test worker) d.assignments ≡ 0)
        × (count_by (has_status test TestStatus.running) d.tests ≡ 0)
        × (d.workers ≡ (found env c).workers)
  mark_assignment_failed_lem test worker h =
      let (some_row, e) = failed_ok test worker h in
      rw e (
        some_row,
        count_by-update_where (lives test worker) (lives test worker)
            (fail_row (env.clock (suc c.calls))) (found env c).assignments (λ a k. ground arith)
            (λ a k. k),
        count_by-update_where (has_status test TestStatus.running)
            (has_status test TestStatus.running)
            (set_status TestStatus.failed (env.clock (suc (suc c.calls)))) (found env c).tests
            (λ t k. ground arith) (λ t k. k),
        refl,
      )

  -- A failure report where no unfinished assignment joins the two is refused, and changes nothing.
  pub mark_assignment_failed_refused :
      (test worker : String)
      → count_by (lives test worker) (found env c).assignments ≡ 0
      → (is_ok (mark_assignment_failed env test worker c).0 ≡ false)
        × ((mark_assignment_failed env test worker c).1.db ≡ found env c)
  unfolding mark_assignment_failed
  mark_assignment_failed_refused test worker h = ground arith

module _ (env : Env) (c : Conn) where
  -- The connection when the completion has locked its test.
  abbrev locked_test : Conn
  locked_test = record { db = found env c; work = found env c; calls = suc (suc c.calls) }

  complete_from :
      (test worker : String)
      → (mark_assignment_completed env test worker c).0 ≡ ok tt
      → mark_assignment_completed env test worker c ≡ complete_rows env test worker locked_test
  unfolding mark_assignment_completed
  complete_from test worker h = ground arith

  -- A completion that is accepted was of a RUNNING assignment, of which none joins the test and the
  -- worker afterwards. If with it all assignments of the test are COMPLETED, the test is RUNNING no
  -- longer; if not, no test has changed.
  pub mark_assignment_completed_lem :
      (test worker : String)
      → (mark_assignment_completed env test worker c).0 ≡ ok tt
      → let d = (mark_assignment_completed env test worker c).1.db in
        (0 < count_by (runs test worker) (found env c).assignments)
        × (count_by (runs test worker) d.assignments ≡ 0)
        × (((has_incomplete d.assignments test ≡ false)
              × (count_by (has_status test TestStatus.running) d.tests ≡ 0))
            ⊎ ((has_incomplete d.assignments test ≡ true) × (d.tests ≡ (found env c).tests)))
  mark_assignment_completed_lem test worker h =
      let same = complete_from test worker h in
      let (some_row, e) =
        complete_rows-ok env locked_test test worker (sym (ap (λ r. r.0) same) ∙ h) in
      rw (ap (λ r. r.1.db) same ∙ e) (
        some_row,
        elim (Bool-cases (has_incomplete settled.assignments test)) [
          | inl i ↦ rw i none_left
          | inr i ↦ rw i none_left
        ],
        elim (Bool-cases (has_incomplete settled.assignments test)) [
          | inl i ↦ rw i (inr (i, refl))
          | inr i ↦ rw i (inl (i, none_running))
        ],
      )
    where
      at : ℕ
      at = suc (suc c.calls)

      settled : Db
      settled = completed_db test worker (env.clock at) (env.clock (suc at)) (found env c)

      none_left : count_by (runs test worker) settled.assignments ≡ 0
      none_left =
          count_by-update_where (runs test worker) (runs test worker) (complete_row (env.clock at))
            (found env c).assignments (λ a k. ground arith) (λ a k. k)

      none_running :
          count_by
            (has_status test TestStatus.running)
            (finished_db test (env.clock (suc (suc (suc at)))) settled).tests
          ≡ 0
      none_running =
          count_by-update_where (has_status test TestStatus.running)
            (has_status test TestStatus.running)
            (set_status TestStatus.completed (env.clock (suc (suc (suc at))))) settled.tests
            (λ t k. ground arith) (λ t k. k)
