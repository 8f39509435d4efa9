-- ===== src/Health/Sweep.antt =====
-- What a tick of internal/reconciler/worker_reconciler.go leaves behind.
use vulcan.Prelude.{ℕ, ◌≡◌, sym, ap, ◌∙◌, ◌-◌, arith, count_by, update_where}
use vulcan.Errors.{ok}
use vulcan.Models.{WorkerStatus}
use vulcan.Driver.{Env, Conn}
use vulcan.Driver.Frames.{bind-ok}
use vulcan.Repository.Rows.{set_worker, is_lost, is_broken}
use vulcan.Repository.Tables.{count_by-update_where}
use vulcan.Repository.Workers.{
  is_dead, mark_offline_workers, mark_assignments_failed_for_offline_workers,
}
use vulcan.Repository.Effects.{found}
use vulcan.Repository.Outcomes.{sweep_lem}
use vulcan.Health.{health_sweep, heartbeat_timeout}
use vulcan.Service.Tests.Stop.{IsAlone}

module _ (env : Env) (c : Conn) where
  marked :
      (cutoff : ℕ) {n : ℕ}
      → (mark_offline_workers env cutoff c).0 ≡ ok n
      → (mark_offline_workers env cutoff c).1.db.workers
        ≡ update_where
            (is_dead cutoff)
            (set_worker WorkerStatus.offline (env.clock c.calls))
            (found env c).workers
  unfolding mark_offline_workers
  marked cutoff h = ground arith

  -- After a tick that reports no error, where no other client writes meanwhile, every worker whose
  -- last heartbeat is older than the timeout is OFFLINE, no unfinished assignment belongs to an
  -- OFFLINE worker, and no RUNNING test has a FAILED assignment.
  pub health_sweep_lem :
      IsAlone env
      → (n : ℕ) → (health_sweep env c).0 ≡ ok n
      → let d = (health_sweep env c).1.db in
        (count_by (is_dead (env.clock c.calls - heartbeat_timeout)) d.workers ≡ 0)
        × (count_by (is_lost d.workers) d.assignments ≡ 0)
        × (count_by (is_broken d.assignments) d.tests ≡ 0)
  unfolding health_sweep
  health_sweep_lem alone n h =
      let cutoff = env.clock c.calls - heartbeat_timeout in
      let (m, c₁, q, e) =
        bind-ok (mark_offline_workers env cutoff)
          (λ _. mark_assignments_failed_for_offline_workers env) c h in
      let (lost, broken, kept) = sweep_lem env c₁ n (sym (ap (λ r. r.0) e) ∙ h) in
      rw (ap (λ r. r.1.db) e) (
        rw (kept, alone c₁.calls c₁.db, ← ap (λ r. r.1.db) q, marked cutoff (ap (λ r. r.0) q))
            (count_by-update_where (is_dead cutoff) (is_dead cutoff)
              (set_worker WorkerStatus.offline (env.clock c.calls)) (found env c).workers
              (λ w k. ground arith) (λ w k. k)),
        lost,
        broken,
      )
