-- ===== src/Repository/Effects.antt =====
-- What each operation of internal/repository on workers and assignments can leave committed: the
-- database as it found it, or the one named here. The monad is needed for no later proof.
use vulcan.Prelude.{
  ℕ, suc, String, ◌≡◌, ◌⊎◌, List, [], ◌∷◌, ◌++◌, arith, ℤ, pos_part, str_eq, update_where, map,
  filter_by, true, false, ◌&&◌, any_by,
}
use vulcan.Models.{TestStatus, Worker, WorkerStatus, is_live}
use vulcan.Driver.{Db, Env, Conn}
use vulcan.Repository.Tests.{has_status, set_status}
use vulcan.Repository.Rows.{
  any_id, worker_is, workers_in, set_worker, worker_ids, start_row, complete_row, fail_row, is_lost,
  is_broken, has_incomplete,
}
use vulcan.Repository.Workers.{
  idle_rows, assignment_rows, beat, is_dead, create_worker, update_heartbeat, mark_offline_workers,
  reserve_rows, reserve_workers_for_test, release_rows, release_workers_for_test,
  terminate_idle_workers, terminate_rows, mark_assignments_failed_for_offline_workers,
}
use vulcan.Repository.Assignments.{
  waits, runs, lives, mark_assignment_running, complete_rows, mark_assignment_completed,
  mark_assignment_failed,
}

abbrev pub reserved_db : String → List ℕ → List Worker → ℕ → ℕ → Db → Db
reserved_db test shares chosen now later d = record d {
  workers =
      update_where (λ w. any_id (worker_ids chosen) w.id) (set_worker WorkerStatus.reserved now)
        d.workers;
  assignments = assignment_rows test later chosen shares ++ d.assignments;
}

abbrev pub running_db : String → String → ℕ → ℕ → Db → Db
running_db test worker now later d = record d {
  workers =
      update_where (worker_is worker WorkerStatus.reserved) (set_worker WorkerStatus.running later)
        d.workers;
  assignments = update_where (waits test worker) (start_row now) d.assignments;
}

-- The completion without, and with, the last step that completes the test.
abbrev pub completed_db : String → String → ℕ → ℕ → Db → Db
completed_db test worker now later d = record d {
  workers =
      update_where (worker_is worker WorkerStatus.running) (set_worker WorkerStatus.idle later)
        d.workers;
  assignments = update_where (runs test worker) (complete_row now) d.assignments;
}

abbrev pub finished_db : String → ℕ → Db → Db
finished_db test now d = record d {
  tests =
      update_where (has_status test TestStatus.running) (set_status TestStatus.completed now)
        d.tests;
}

abbrev pub failed_db : String → String → ℕ → ℕ → Db → Db
failed_db test worker now later d = record d {
  tests =
      update_where (has_status test TestStatus.running) (set_status TestStatus.failed later)
        d.tests;
  assignments = update_where (lives test worker) (fail_row now) d.assignments;
}

abbrev pub lost_db : ℕ → ℕ → Db → Db
lost_db now later d =
    let rows = update_where (is_lost d.workers) (fail_row now) d.assignments in
    record d {
      tests = update_where (is_broken rows) (set_status TestStatus.failed later) d.tests;
      assignments = rows;
    }

abbrev pub released_db : String → ℕ → ℕ → Db → Db
released_db test now later d = record d {
  workers =
      update_where
        (workers_in (map (λ a. a.worker_id) (filter_by (λ a. str_eq a.test_id test) d.assignments))
          WorkerStatus.reserved)
        (set_worker WorkerStatus.idle now) d.workers;
  assignments =
      update_where (λ a. str_eq a.test_id test && is_live a.status) (complete_row later)
        d.assignments;
}

abbrev pub drained_db : List String → ℕ → Db → Db
drained_db ids now d = record d {
  workers =
      update_where
        (λ w. any_id (worker_ids (filter_by (workers_in ids WorkerStatus.idle) d.workers)) w.id)
        (set_worker WorkerStatus.draining now) d.workers;
}

module _ (env : Env) where
  -- The database that a call at `c` finds.
  abbrev pub found : Conn → Db
  found c = env.others c.calls c.db

  -- The rows that a reservation at `c` chooses.
  abbrev pub chosen_at : ℤ → Conn → List Worker
  chosen_at count c = idle_rows (env.locked (suc c.calls)) (pos_part count) (found c).workers

  reserve_rows_effect :
      (test : String) (count : ℤ) (shares : List ℕ) (chosen : List Worker) (c : Conn)
      → ((reserve_rows env test count shares chosen c).1.db ≡ c.db)
        ⊎ ((reserve_rows env test count shares chosen c).1.db
            ≡ reserved_db test shares chosen (env.clock c.calls) (env.clock (suc c.calls)) c.work)
  unfolding reserve_rows
  reserve_rows_effect test count shares chosen c = ground arith

  pub reserve_effect :
      (test : String) (count : ℤ) (shares : List ℕ) (c : Conn)
      → let r = reserve_workers_for_test env test count shares c in
        (r.1.db ≡ found c)
        ⊎ (r.1.db
            ≡ reserved_db test shares
                (chosen_at count c)
                (env.clock (suc (suc c.calls)))
                (env.clock (suc (suc (suc c.calls))))
                (found c))
  unfolding reserve_workers_for_test
  reserve_effect test count shares c = ground (
    arith,
    reserve_rows_effect test count shares (chosen_at count c)
        (record { db = found c; work = found c; calls = suc (suc c.calls) }),
  )

  pub running_effect :
      (test worker : String) (c : Conn)
      → let r = mark_assignment_running env test worker c in
        (r.1.db ≡ found c)
        ⊎ (r.1.db
            ≡ running_db test worker
                (env.clock (suc c.calls))
                (env.clock (suc (suc c.calls)))
                (found c))
  unfolding mark_assignment_running
  running_effect test worker c = ground arith

  pub complete_rows_effect :
      (test worker : String) (c : Conn)
      → let r = complete_rows env test worker c in
        let d = completed_db test worker (env.clock c.calls) (env.clock (suc c.calls)) c.work in
        (r.1.db ≡ c.db)
        ⊎ (((has_incomplete d.assignments test ≡ true) × (r.1.db ≡ d))
            ⊎ ((has_incomplete d.assignments test ≡ false)
                × (r.1.db ≡ finished_db test (env.clock (suc (suc (suc c.calls)))) d)))
  unfolding complete_rows
  complete_rows_effect test worker c = ground arith

  pub completed_effect :
      (test worker : String) (c : Conn)
      → let r = mark_assignment_completed env test worker c in
        let at = suc (suc c.calls) in
        let d = completed_db test worker (env.clock at) (env.clock (suc at)) (found c) in
        (r.1.db ≡ found c)
        ⊎ (((has_incomplete d.assignments test ≡ true) × (r.1.db ≡ d))
            ⊎ ((has_incomplete d.assignments test ≡ false)
                × (r.1.db ≡ finished_db test (env.clock (suc (suc (suc at)))) d)))
  unfolding mark_assignment_completed
  completed_effect test worker c = ground (
    arith,
    complete_rows_effect test worker
        (record { db = found c; work = found c; calls = suc (suc c.calls) }),
  )

  pub failed_effect :
      (test worker : String) (c : Conn)
      → let r = mark_assignment_failed env test worker c in
        (r.1.db ≡ found c)
        ⊎ (r.1.db
            ≡ failed_db test worker
                (env.clock (suc c.calls))
                (env.clock (suc (suc c.calls)))
                (found c))
  unfolding mark_assignment_failed
  failed_effect test worker c = ground arith

  pub lost_effect :
      (c : Conn)
      → let r = mark_assignments_failed_for_offline_workers env c in
        (r.1.db ≡ found c)
        ⊎ (r.1.db ≡ lost_db (env.clock (suc c.calls)) (env.clock (suc (suc c.calls))) (found c))
  unfolding mark_assignments_failed_for_offline_workers
  lost_effect c = ground arith

  release_rows_effect :
      (test : String) (ids : List String) (c : Conn)
      → let r = release_rows env test ids c in
        (r.1.db ≡ c.db)
        ⊎ ((ids ≡ []) × (r.1.db ≡ c.work))
        ⊎ (r.1.db ≡ record c.work {
          workers =
              update_where
                (workers_in ids WorkerStatus.reserved)
                (set_worker WorkerStatus.idle (env.clock c.calls))
                c.work.workers;
          assignments =
              update_where
                (λ a. str_eq a.test_id test && is_live a.status)
                (complete_row (env.clock (suc c.calls)))
                c.work.assignments;
        })
  unfolding release_rows
  release_rows_effect test [] c = ground arith
  release_rows_effect test (id ∷ ids) c = ground arith

  pub release_effect :
      (test : String) (c : Conn)
      → let r = release_workers_for_test env test c in
        (r.1.db ≡ found c)
        ⊎ (r.1.db
            ≡ released_db test
                (env.clock (suc (suc c.calls)))
                (env.clock (suc (suc (suc c.calls))))
                (found c))
  unfolding release_workers_for_test
  release_effect test c = ground (
    arith,
    release_rows_effect test
        (map (λ a. a.worker_id) (filter_by (λ a. str_eq a.test_id test) (found c).assignments))
        (record { db = found c; work = found c; calls = suc (suc c.calls) }),
  )

  terminate_rows_effect :
      (ids : List String) (c : Conn)
      → let r = terminate_rows env ids c in
        (r.1.db ≡ c.db)
        ⊎ ((ids ≡ []) × (r.1.db ≡ c.work))
        ⊎ (r.1.db ≡ record c.work {
          workers =
              update_where
                (λ w. any_id ids w.id)
                (set_worker WorkerStatus.draining (env.clock c.calls))
                c.work.workers;
        })
  unfolding terminate_rows
  terminate_rows_effect [] c = ground arith
  terminate_rows_effect (id ∷ ids) c = ground arith

  pub terminate_effect :
      (id : String) (ids : List String) (c : Conn)
      → let r = terminate_idle_workers env (id ∷ ids) c in
        (r.1.db ≡ found c)
        ⊎ (r.1.db ≡ drained_db (id ∷ ids) (env.clock (suc (suc c.calls))) (found c))
  unfolding terminate_idle_workers
  terminate_effect id ids c = ground (
    arith,
    terminate_rows_effect
        (worker_ids (filter_by (workers_in (id ∷ ids) WorkerStatus.idle) (found c).workers))
        (record { db = found c; work = found c; calls = suc (suc c.calls) }),
  )

  pub beat_effect :
      (id : String) (status : WorkerStatus) (c : Conn)
      → let r = update_heartbeat env id status c in
        (r.1.db ≡ found c)
        ⊎ (r.1.db ≡ record (found c) {
          workers =
              update_where
                (λ w. str_eq w.id id)
                (beat status (env.clock c.calls))
                (found c).workers;
        })
  unfolding update_heartbeat
  beat_effect id status c = ground arith

  pub offline_effect :
      (cutoff : ℕ) (c : Conn)
      → let r = mark_offline_workers env cutoff c in
        (r.1.db ≡ found c)
        ⊎ (r.1.db ≡ record (found c) {
          workers =
              update_where
                (is_dead cutoff)
                (set_worker WorkerStatus.offline (env.clock c.calls))
                (found c).workers;
        })
  unfolding mark_offline_workers
  offline_effect cutoff c = ground arith

  pub register_effect :
      (w : Worker) (c : Conn)
      → let r = create_worker env w c in
        (r.1.db ≡ found c)
        ⊎ ((any_by (λ v. str_eq v.id w.id) (found c).workers ≡ false)
            × (r.1.db ≡ record (found c) { workers = w ∷ (found c).workers }))
  unfolding create_worker
  register_effect w c = ground arith
