-- ===== src/Service/Reads.antt =====
-- What GetReservedAssignment of internal/repository/assignment.go finds for a worker.
use vulcan.Prelude.{
  ◌≡◌, refl, String, ◌&&◌, inl, inr, Option, none, some, List, [], ◌∷◌, arith, str_eq, eq_iff,
  Bool-cases,
}
use mathlib.Core.List.{Mem, mem-cons_self, mem-cons_of_mem}
use vulcan.Errors.{ok}
use vulcan.Models.{Test, Assignment, AssignmentStatus, assignment_status_eq}
use vulcan.Driver.{Db, Env, Conn}
use vulcan.Repository.Tests.{find_test}
use vulcan.Repository.Effects.{found}
use vulcan.Repository.Assignments.{
  AssignmentDetails, details, joined, reserved_for, get_reserved_assignment,
}
use vulcan.Service.Workers.{get_assignment}

-- A RESERVED row of the worker, and the row of its test, that the details are put together from.
abbrev pub IsShown : Db → String → Option AssignmentDetails → Type 0
IsShown d worker none = Unit {0}
IsShown d worker (some x) =
    (a : Assignment) × (t : Test) × Mem a d.assignments
    × (find_test a.test_id d.tests ≡ some t)
    × (a.worker_id ≡ worker)
    × (a.status ≡ AssignmentStatus.reserved)
    × (x ≡ details a t)

reserved_for-IsShown :
    (worker : String) (ts : List Test) (rows : List Assignment) {o : Option AssignmentDetails}
    → reserved_for worker ts rows ≡ o
    → IsShown (record { tests = ts; workers = []; assignments = rows }) worker o
reserved_for-IsShown worker ts rows {o = none} h = tt
reserved_for-IsShown worker ts [] {o = some x} h = cc
reserved_for-IsShown worker ts (b ∷ rows) {o = some x} h =
    elim (Bool-cases
      (str_eq b.worker_id worker && assignment_status_eq b.status AssignmentStatus.reserved)) [
        | inr e ↦ later (reserved_for-IsShown worker ts rows (rw e at h))
        | inl e ↦
            here (λ k. reserved_for-IsShown worker ts rows k) (find_test b.test_id ts) refl
              (rw e at h) ((eq_iff b.worker_id worker).0 (ground (arith, e))) (ground (arith, e))
      ]
  where
    later :
        IsShown (record { tests = ts; workers = []; assignments = rows }) worker (some x)
        → IsShown (record { tests = ts; workers = []; assignments = b ∷ rows }) worker (some x)
    later (a, t, m, f, w, s, e) = (a, t, mem-cons_of_mem _ m, f, w, s, e)

    here :
        (reserved_for worker ts rows ≡ some x
          → IsShown (record { tests = ts; workers = []; assignments = rows }) worker (some x))
        → (q : Option Test) → find_test b.test_id ts ≡ q
        → joined b q (reserved_for worker ts rows) ≡ some x
        → b.worker_id ≡ worker
        → b.status ≡ AssignmentStatus.reserved
        → IsShown (record { tests = ts; workers = []; assignments = b ∷ rows }) worker (some x)
    here rest none f k w s = later (rest k)
    here rest (some t) f k w s = (b, t, mem-cons_self, f, w, s, cc)

pub get_assignment-IsShown :
    (env : Env) (worker : String) (c : Conn) {o : Option AssignmentDetails} {c' : Conn}
    → get_assignment env worker c ≡ (ok o, c')
    → IsShown (found env c) worker o
unfolding get_assignment get_reserved_assignment
get_assignment-IsShown env worker c h =
    reserved_for-IsShown worker (found env c).tests (found env c).assignments (ground (arith, h))
