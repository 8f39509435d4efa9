-- ===== src/Health.antt =====
-- internal/reconciler/worker_reconciler.go: the loop that looks for dead workers.
-- Times count nanoseconds, as `time.Duration` does.
pub mod Sweep
use vulcan.Prelude.{ℕ, ◌-◌, List, [], ◌∷◌}
use vulcan.Driver.{Env, Conn, M, ◌>>◌}
use vulcan.Ticker.{Signal, tick, done}
use vulcan.Repository.Workers.{mark_offline_workers, mark_assignments_failed_for_offline_workers}

-- 120 * time.Second.
abbrev pub heartbeat_timeout : ℕ
heartbeat_timeout = 120000000000

module _ (env : Env) where
  unfoldable pub health_sweep : M ℕ
  health_sweep c =
      (mark_offline_workers env (env.clock c.calls - heartbeat_timeout)
          >> mark_assignments_failed_for_offline_workers env)
        c

  -- An error of either step is logged and ends the tick.
  unfoldable pub reconcile_health : Conn → Conn
  unfolding health_sweep
  reconcile_health c = (health_sweep c).1

  -- `Start`; with no more signals the loop waits.
  unfoldable pub health_loop : List Signal → Conn → Conn
  health_loop [] c = c
  health_loop (done ∷ signals) c = c
  health_loop (tick ∷ signals) c = health_loop signals (reconcile_health c)
