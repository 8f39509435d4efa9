-- ===== src/Rps.antt =====
-- internal/scheduler/rps.go: how many workers a test needs, and how its rate is shared out.
-- `int` is ℤ with the wrap-around of 64 bits; the shares are never negative, and are native ℕ.
use vulcan.Prelude.{
  ℕ, zero, suc, ◌+◌, ◌-◌, ◌*◌, ◌/◌, ◌%◌, ◌||◌, List, [], ◌∷◌, ltb, if◌then◌else◌, ℤ, pos, negsuc,
  pos_part, add64, sub64, quot64, leb_ℤ,
}
use vulcan.Errors.{Error, message, Result, ok, err}
pub mod Bounds

unfoldable pub required_workers : ℤ → ℤ → Result ℤ
required_workers rps capacity =
    if leb_ℤ rps (pos 0) || leb_ℤ capacity (pos 0)
    then err (message "rps and worker capacity must be greater than zero")
    else ok (quot64 (sub64 (add64 rps capacity) (pos 1)) (pos_part capacity))

-- The loop over the allocations: `left` of them are still to be filled, from index `i` on.
allocate : ℕ → ℕ → ℕ → ℕ → List ℕ
allocate base remainder i zero = []
allocate base remainder i (suc left) =
    (if ltb i remainder then base + 1 else base) ∷ allocate base remainder (suc i) left

unfoldable pub distribute_rps : ℤ → ℤ → Result (List ℕ)
unfolding allocate
distribute_rps total workers =
    if leb_ℤ total (pos 0) || leb_ℤ workers (pos 0)
    then err (message "rps and worker count must be greater than zero")
    else ok (
        allocate (pos_part total / pos_part workers) (pos_part total % pos_part workers) 0
          (pos_part workers))
