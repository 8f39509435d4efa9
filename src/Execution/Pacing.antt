-- ===== src/Execution/Pacing.antt =====
-- What internal/execution/scheduler.go keeps while it runs, and that it returns.
use vulcan.Prelude.{
  ℕ, ◌+◌, ◌≤◌, ◌≡◌, refl, Bool, true, false, List, [], ◌∷◌, arith, length, if◌then◌else◌, count_by,
  pos_part, pos, quot64, ◌<◌, ◌/◌,
}
use native.Mathlib.Nat.{div-eq_of_lt}
use vulcan.Execution.{
  Run, new_run, Event, tick, answered, expired, on_tick, on_answer, step, steps, has_returned,
  ExecutionConfig, run_scheduler, returned, panicked, interval, check_config,
}
use vulcan.Errors.{ok}

-- Every request that was started runs or is recorded, and no more run than there are slots.
pub record IsPaced (slots : ℕ) (r : Run) : Type 0 where
  pub bounded : r.taken ≤ slots
  pub whole : r.started ≡ r.taken + length r.recorded

step-IsPaced : (slots : ℕ) (e : Event) (r : Run) → IsPaced slots r → IsPaced slots (step slots e r)
unfolding step on_tick on_answer
step-IsPaced slots tick r h = ground arith
step-IsPaced slots (answered result) r h = ground arith
step-IsPaced slots expired r h = ground arith

-- In every state of a run that started from one such, no more requests are under way than the
-- concurrency allows, and every request that was started is under way or has been recorded once.
pub steps-IsPaced :
    (slots : ℕ) (es : List Event) (r : Run) → IsPaced slots r → IsPaced slots (steps slots es r)
unfolding steps
steps-IsPaced slots [] r h = h
steps-IsPaced slots (e ∷ es) r h =
    steps-IsPaced slots es (step slots e r) (step-IsPaced slots e r h)

-- The ticks that the loop receives before the end.
abbrev pub ticks : Bool → List Event → ℕ
ticks over [] = 0
ticks over (tick ∷ es) = (if over then 0 else 1) + ticks over es
ticks over (answered result ∷ es) = ticks over es
ticks over (expired ∷ es) = ticks true es

accounted :
    (slots : ℕ) (es : List Event) (r : Run)
    → (steps slots es r).started + (steps slots es r).dropped
      ≡ r.started + r.dropped + ticks r.is_over es
unfolding steps step on_tick on_answer
accounted slots [] r = omega arith
accounted slots (tick ∷ es) r = ground (arith, accounted slots es (on_tick slots r))
accounted slots (answered result ∷ es) r =
    ground (arith, accounted slots es (on_answer slots result r))
accounted slots (expired ∷ es) r = ground (arith, accounted slots es (record r { is_over = true }))

-- A run that returns without an error has recorded the result of every request that it started, and
-- every tick that its loop received before the end started one or was dropped, so that what it
-- recorded and what it dropped is as many as the ticks: for any order of ticks and answers.
pub run_scheduler-accounts :
    (cfg : ExecutionConfig) (es : List Event)
    → (run_scheduler cfg es).0 ≡ returned (ok tt)
    → let r = (run_scheduler cfg es).1 in
      (r.started ≡ length r.recorded) × (length r.recorded + r.dropped ≡ ticks false es)
unfolding run_scheduler has_returned new_run
run_scheduler-accounts cfg es h =
    let slots = pos_part cfg.concurrency in
    let paced =
      steps-IsPaced slots es new_run (record { bounded = omega arith; whole = omega arith }) in
    let total = accounted slots es new_run in ground (arith, paced, total, h)

abbrev pub is_answer : Event → Bool
is_answer (answered result) = true
is_answer _ = false

-- A run returns: once the duration is over, the answers to the requests under way are all that it
-- takes, whatever they are, and ticks between them change nothing.
pub steps-returns :
    (slots : ℕ) (es : List Event) (r : Run)
    → r.is_over ≡ true
    → r.taken ≤ count_by is_answer es
    → has_returned (steps slots es r) ≡ true
unfolding has_returned steps step on_tick on_answer
steps-returns slots [] r over few = ground (arith, over, few)
steps-returns slots (tick ∷ es) r over few =
    ground (arith, over, few, steps-returns slots es r over few)
steps-returns slots (answered result ∷ es) r over few =
    ground (arith, over, steps-returns slots es (on_answer slots result r))
steps-returns slots (expired ∷ es) r over few =
    steps-returns slots es (record r { is_over = true }) refl few

div_small : (m n : ℕ) → m < n → m / n ≡ 0
div_small m n h = div-eq_of_lt h

-- A rate above a thousand million is accepted, and its run panics before the first request: the
-- interval between ticks is rounded down to nothing.
pub run_scheduler_panics :
    (cfg : ExecutionConfig) (es : List Event) (n d c : ℕ)
    → cfg.rps ≡ pos n
    → cfg.duration ≡ pos d
    → cfg.concurrency ≡ pos c
    → 1000000000 < n
    → 0 < d
    → 0 < c
    → run_scheduler cfg es ≡ (panicked, new_run)
unfolding run_scheduler interval check_config quot64
run_scheduler_panics cfg es n d c en ed ec hn hd hc =
    rw (en, ed, ec) (ground (arith, div_small 1000000000 n hn))
