-- ===== src/Repository/History.antt =====
-- The operations of internal/repository on workers and assignments as data, to speak of any
-- sequence of them. An operation that fails counts too, with what it leaves committed.
use vulcan.Prelude.{ℕ, String, List, [], ◌∷◌, ℤ}
use vulcan.Models.{Worker, WorkerStatus}
use vulcan.Driver.{Env, Conn}
use vulcan.Repository.Workers.{
  create_worker, update_heartbeat, mark_offline_workers, reserve_workers_for_test,
  release_workers_for_test, terminate_idle_workers, mark_assignments_failed_for_offline_workers,
}
use vulcan.Repository.Assignments.{
  mark_assignment_running, mark_assignment_completed, mark_assignment_failed,
}

pub data Op : Type 0 where
  register : Worker → Op
  beats : String → WorkerStatus → Op
  expire : ℕ → Op
  reserve : String → ℤ → List ℕ → Op
  release : String → Op
  start complete fail : String → String → Op
  sweep : Op
  terminate : List String → Op

module _ (env : Env) where
  unfoldable pub perform : Op → Conn → Conn
  perform (register w) c = (create_worker env w c).1
  perform (beats id status) c = (update_heartbeat env id status c).1
  perform (expire cutoff) c = (mark_offline_workers env cutoff c).1
  perform (reserve test count shares) c = (reserve_workers_for_test env test count shares c).1
  perform (release test) c = (release_workers_for_test env test c).1
  perform (start test worker) c = (mark_assignment_running env test worker c).1
  perform (complete test worker) c = (mark_assignment_completed env test worker c).1
  perform (fail test worker) c = (mark_assignment_failed env test worker c).1
  perform sweep c = (mark_assignments_failed_for_offline_workers env c).1
  perform (terminate ids) c = (terminate_idle_workers env ids c).1

  unfoldable pub run_ops : List Op → Conn → Conn
  unfolding perform
  run_ops [] c = c
  run_ops (op ∷ ops) c = run_ops ops (perform op c)
