-- ===== src/Examples/Scaling.antt =====
-- The theorems on internal/scheduler and internal/autoscaler, at a fleet.
use vulcan.Prelude.{◌<◌, filter_by, ℕ, ◌*◌, ◌≤◌, ◌≡◌, refl, ◌⊎◌, arith, sort_desc, pos}
use vulcan.Errors.{Result, ok}
use vulcan.Models.{Worker, WorkerStatus, worker_status_eq}
use vulcan.Driver.{Conn, wrapped}
use vulcan.Rps.Bounds.{required_workers-distribute_rps}
use vulcan.Repository.Rows.{worker_ids}
use vulcan.Autoscaler.Capacity.{desired_capacity, pending_capacity, is_active_test, is_pending_test}
use vulcan.Autoscaler.Capacity.Demand.{capacities-demand}
use vulcan.Autoscaler.Reconciler.{Provisioner, reconcile, scale_down, scale_down_candidates}
use vulcan.Autoscaler.Reconciler.Decision.{after_reads, workers_seen, reconcile_decides}
use vulcan.Autoscaler.Reconciler.Floor.{Shrunk, scale_down-Shrunk}
use vulcan.Examples.{fleet, quiet, at, fleet-Keyed, two_idle}

required_workers-distribute_rps_example : (n : ℕ) × (150 ≤ n * 100)
required_workers-distribute_rps_example =
    let (n, _, _, _, e, _, _, _) =
      required_workers-distribute_rps 150 100 (omega arith) (omega arith) (omega arith) in
    (n, e)

-- Two tests of 150 requests a second need two workers each of 100.
capacities-demand_example :
    (desired_capacity fleet.tests (pos 100) ≡ ok (pos 2))
    × (pending_capacity fleet.tests (pos 100) ≡ ok (pos 2))
unfolding is_active_test is_pending_test
capacities-demand_example =
    capacities-demand 100 fleet.tests (omega arith) (refl, (refl, tt)) (refl, (refl, tt))
      (omega arith) (omega arith)

abbrev pub idle_provisioner : Provisioner
idle_provisioner = record { provision = λ n c. (ok tt, c); terminate = λ hosts c. (ok tt, c) }

abbrev cycle : Result (Unit {0}) × Conn
cycle = reconcile quiet idle_provisioner (pos 37) (at fleet)

abbrev read : Conn
read = after_reads quiet idle_provisioner (pos 37) (at fleet)

-- Three usable workers are two too few at 37 requests a second for each.
reconcile_decides_example :
    ((3 < 5) × (cycle ≡ wrapped "provision workers" (idle_provisioner.provision (pos 2)) read))
    ⊎ ((◌≡◌ {A = ℕ} 3 5 × (cycle ≡ (ok tt, read)))
        ⊎ ((5 < 3)
            × (cycle
                ≡ scale_down quiet idle_provisioner
                    (pos 0)
                    (filter_by
                      (λ w. worker_status_eq w.status WorkerStatus.idle)
                      (workers_seen quiet idle_provisioner (pos 37) (at fleet)))
                    read)))
unfolding sort_desc
reconcile_decides_example =
    reconcile_decides quiet idle_provisioner 37 (at fleet) (omega arith) refl refl
      (refl, (refl, tt)) (refl, (refl, tt)) (omega arith) (omega arith) (omega arith)

abbrev IsIdle : Worker → Type 0
IsIdle w = w.status ≡ WorkerStatus.idle

scale_down-Shrunk_example :
    ((scale_down quiet idle_provisioner (pos 1) two_idle (at fleet)).1.db ≡ fleet)
    ⊎ Shrunk
        (worker_ids (scale_down_candidates (pos 1) two_idle))
        1
        fleet.workers
        (scale_down quiet idle_provisioner (pos 1) two_idle (at fleet)).1.db.workers
scale_down-Shrunk_example =
    scale_down-Shrunk quiet idle_provisioner (λ hosts c. refl) 1 two_idle (at fleet) fleet-Keyed
