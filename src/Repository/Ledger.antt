-- ===== src/Repository/Ledger.antt =====
-- The state machine of an assignment (docs/lifecycle.md), as the operations of
-- internal/repository run it: an assignment is never lost, and a finished one is never touched.
pub mod Steps
use vulcan.Prelude.{
  ℕ, suc, String, ◌≡◌, refl, ◌∙◌, ◌⊎◌, inl, inr, Bool, true, List, [], ◌∷◌, arith, update_where, ℤ,
  str_eq, ◌&&◌,
}
use vulcan.Models.{Assignment, AssignmentStatus, is_live}
use vulcan.Driver.{Db, Env, Conn}
use vulcan.Repository.Rows.{start_row, complete_row, fail_row, is_lost}
use vulcan.Repository.Workers.{assignment_rows, terminate_idle_workers}
use vulcan.Repository.Assignments.{waits, runs, lives}
use vulcan.Repository.Tables.{
  Evolved, kept, Pointwise-refl, update_where-Pointwise, append-Evolved, Evolved-trans, All-every,
}
use vulcan.Repository.Effects.{
  found, chosen_at, reserve_effect, running_effect, completed_effect, failed_effect, lost_effect,
  release_effect, terminate_effect, beat_effect, offline_effect, register_effect,
}
use vulcan.Repository.History.{
  Op, register, beats, expire, reserve, release, start, complete, fail, sweep, terminate, perform,
  run_ops,
}

infix 40 ◌⟶◌ ◌⟶*◌
-- The arrows of the diagram; `stop` is the one that `StopTest` adds.
pub data ◌⟶◌ : AssignmentStatus → AssignmentStatus → Type 0 where
  begin : AssignmentStatus.reserved ⟶ AssignmentStatus.running
  finish : AssignmentStatus.running ⟶ AssignmentStatus.completed
  stop : AssignmentStatus.reserved ⟶ AssignmentStatus.completed
  crash : AssignmentStatus.running ⟶ AssignmentStatus.failed
  vanish : AssignmentStatus.reserved ⟶ AssignmentStatus.failed

pub data ◌⟶*◌ : AssignmentStatus → AssignmentStatus → Type 0 where
  here : {s : AssignmentStatus} → s ⟶* s
  next : {s t u : AssignmentStatus} → s ⟶ t → t ⟶* u → s ⟶* u

⟶*-trans : {s t u : AssignmentStatus} → s ⟶* t → t ⟶* u → s ⟶* u
⟶*-trans here k = k
⟶*-trans (next e h) k = next e (⟶*-trans h k)

-- The same assignment later: its keys and its rate stay, its status follows the arrows, and one
-- that is COMPLETED or FAILED is as it was.
pub record Follows (a b : Assignment) : Type 0 where
  pub same_test : b.test_id ≡ a.test_id
  pub same_worker : b.worker_id ≡ a.worker_id
  pub same_rps : b.rps ≡ a.rps
  pub moves : a.status ⟶* b.status
  pub final : (is_live a.status ≡ true) ⊎ (b ≡ a)

Follows-refl : (a : Assignment) → Follows a a
Follows-refl a = record {
  same_test = refl;
  same_worker = refl;
  same_rps = refl;
  moves = here;
  final = inr refl;
}

then_final : (a b c : Assignment) → Follows a b → Follows b c → (is_live a.status ≡ true) ⊎ (c ≡ a)
then_final a b c h k = elim h.final [
  | inl live ↦ inl live
  | inr same ↦ elim k.final [ inl live ↦ inl (rw (← same) live) | inr same' ↦ inr (same' ∙ same) ]
]

Follows-trans : (a b c : Assignment) → Follows a b → Follows b c → Follows a c
Follows-trans a b c h k = record {
  same_test = k.same_test ∙ h.same_test;
  same_worker = k.same_worker ∙ h.same_worker;
  same_rps = k.same_rps ∙ h.same_rps;
  moves = ⟶*-trans h.moves k.moves;
  final = then_final a b c h k;
}

-- One arrow, which the SET takes.
Follows-move :
    (s t : AssignmentStatus) (a b : Assignment)
    → a.status ≡ s
    → b.status ≡ t
    → s ⟶ t
    → b.test_id ≡ a.test_id
    → b.worker_id ≡ a.worker_id
    → b.rps ≡ a.rps
    → is_live s ≡ true
    → Follows a b
Follows-move s t a b p q e x y z live = record {
  same_test = x;
  same_worker = y;
  same_rps = z;
  moves = rw (p, q) (next e here);
  final = inl (rw p live);
}

start_row-Follows :
    (test worker : String) (now : ℕ) (a : Assignment)
    → waits test worker a ≡ true
    → Follows a (start_row now a)
start_row-Follows test worker now a h =
    Follows-move AssignmentStatus.reserved _ a _ (ground arith) refl begin refl refl refl refl

-- An unfinished assignment may be completed and may be failed.
complete_row-Follows :
    (s : AssignmentStatus) (now : ℕ) (a : Assignment)
    → a.status ≡ s
    → is_live s ≡ true
    → Follows a (complete_row now a)
complete_row-Follows AssignmentStatus.reserved now a e h =
    Follows-move _ _ a _ e refl stop refl refl refl refl
complete_row-Follows AssignmentStatus.running now a e h =
    Follows-move _ _ a _ e refl finish refl refl refl refl
complete_row-Follows AssignmentStatus.completed now a e h = cc
complete_row-Follows AssignmentStatus.failed now a e h = cc

fail_row-Follows :
    (s : AssignmentStatus) (now : ℕ) (a : Assignment)
    → a.status ≡ s
    → is_live s ≡ true
    → Follows a (fail_row now a)
fail_row-Follows AssignmentStatus.reserved now a e h =
    Follows-move _ _ a _ e refl vanish refl refl refl refl
fail_row-Follows AssignmentStatus.running now a e h =
    Follows-move _ _ a _ e refl crash refl refl refl refl
fail_row-Follows AssignmentStatus.completed now a e h = cc
fail_row-Follows AssignmentStatus.failed now a e h = cc

-- The new rows of a history, and what became of the old ones.
abbrev pub LedgerKept : List Assignment → List Assignment → Type 0
LedgerKept = Evolved Follows

pub LedgerKept-refl : (xs : List Assignment) → LedgerKept xs xs
LedgerKept-refl xs = kept (Pointwise-refl Follows Follows-refl xs)

pub LedgerKept-trans :
    (xs ys zs : List Assignment) → LedgerKept xs ys → LedgerKept ys zs → LedgerKept xs zs
LedgerKept-trans = Evolved-trans Follows Follows-trans

-- The other clients of the database keep the ledger as the operations here do.
abbrev pub OthersKeepLedger : Env → Type 0
OthersKeepLedger env = (n : ℕ) (d : Db) → LedgerKept d.assignments (env.others n d).assignments
