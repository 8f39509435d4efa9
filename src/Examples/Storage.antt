-- ===== src/Examples/Storage.antt =====
-- The theorems on all operations of internal/repository, at a fleet.
use vulcan.Prelude.{true, ◌==◌, List, [], ◌∷◌, pos}
use vulcan.Driver.{Env}
use vulcan.Models.{WorkerStatus}
use vulcan.Repository.Atomic.{IsAtomic, transactions-IsAtomic}
use vulcan.Repository.Workers.{reserve_workers_for_test}
use vulcan.Repository.History.{Op, beats, reserve, terminate, start, fail, run_ops}
use vulcan.Repository.Fleet.{FleetKept, FleetKept-refl, OthersKeepFleet}
use vulcan.Repository.Fleet.Steps.{run_ops-FleetKept}
use vulcan.Repository.Ledger.{LedgerKept, LedgerKept-refl, OthersKeepLedger}
use vulcan.Repository.Ledger.Steps.{run_ops-LedgerKept}
use vulcan.Examples.{fleet, quiet, at, fleet-Keyed}

-- The answer to the commit, the fifth call, is lost.
abbrev flaky : Env
flaky = record quiet { fails = λ n. n == 4; took = λ n. true }

transactions-IsAtomic_example :
    IsAtomic flaky (at fleet) (λ e. reserve_workers_for_test e "t1" (pos 2) (75 ∷ 75 ∷ []))
transactions-IsAtomic_example =
    (transactions-IsAtomic flaky (at fleet) "t1" "w1" "w1" (pos 2) (75 ∷ 75 ∷ []) []).0

abbrev history : List Op
history =
    reserve "t1" (pos 1) (150 ∷ [])
    ∷ terminate ("w1" ∷ "w2" ∷ [])
    ∷ start "t1" "w1"
    ∷ beats "w2" WorkerStatus.idle
    ∷ fail "t2" "w3"
    ∷ []

pub quiet_fleet : OthersKeepFleet quiet
quiet_fleet n d k = FleetKept-refl d.workers k

pub quiet_ledger : OthersKeepLedger quiet
quiet_ledger n d = LedgerKept-refl d.assignments

run_ops-FleetKept_example : FleetKept fleet.workers (run_ops quiet history (at fleet)).db.workers
run_ops-FleetKept_example = run_ops-FleetKept quiet quiet_fleet history (at fleet) fleet-Keyed

run_ops-LedgerKept_example :
    LedgerKept fleet.assignments (run_ops quiet history (at fleet)).db.assignments
run_ops-LedgerKept_example = run_ops-LedgerKept quiet quiet_ledger history (at fleet)
