-- ===== src/Runner/Stops.antt =====
-- What a worker does when the test that it executes is stopped, and what it publishes.
use vulcan.Prelude.{
  ℕ, String, ◌≡◌, refl, Bool, true, false, Bool-cases, inl, inr, ◌⊎◌, ap, ◌∙◌, ◌||◌, ◌∷◌, some,
  List, [], ◌++◌, arith, any_by, All,
}
use vulcan.Errors.{assignment_stopped, Result, ok, err, cause}
use vulcan.Models.{WorkerStatus}
use vulcan.Runner.{
  Event, shutdown, answered, tick, finished, Execution, is_stop, execute, process_assignment,
  report, Answers, Runner, start, complete, fail, report_if, flush_and_publish, outcome,
}

-- The execution goes on after the event.
abbrev pub goes_on : Event → Bool
goes_on (answered r) = true
goes_on (tick now status) = true
goes_on _ = false

-- The event is a tick at which the control plane says that the test is stopped.
abbrev pub tells_stop : Event → Bool
tells_stop (tick now status) = is_stop status
tells_stop _ = false

or_assoc : (a b c : Bool) → ((a || b) || c) ≡ (a || (b || c))
or_assoc true b c = refl
or_assoc false b c = refl

ends :
    (es : List Event) (now : ℕ) (result : Result (Unit {0})) (x : Execution)
    → All (λ e. goes_on e ≡ true) es
    → (execute (es ++ (finished now result ∷ [])) x).0
      ≡ some (outcome (x.stopped || any_by tells_stop es) result)
unfolding execute flush_and_publish
ends [] now result x h = elim (Bool-cases x.stopped) [ inl e ↦ rw e refl | inr e ↦ rw e refl ]
ends (shutdown ∷ es) now result x (h, k) = cc h
ends (answered r ∷ es) now result x (h, k) = ends es now result _ k
ends (tick t status ∷ es) now result x (h, k) =
    ends es now result _ k
    ∙ ap (λ b. some (outcome b result)) (or_assoc x.stopped (is_stop status) (any_by tells_stop es))
ends (finished t r ∷ es) now result x (h, k) = cc h

module _ (answers : Answers) (test : String) (es : List Event) (now : ℕ)
    (result : Result (Unit {0})) (x : Execution) (w : Runner) where
  -- The assignment when its execution ends with this outcome.
  processed :
      (r : Result (Unit {0}))
      → answers.on_start ≡ ok tt
      → (execute (es ++ (finished now result ∷ [])) x).0 ≡ some r
      → process_assignment answers test (es ++ (finished now result ∷ [])) x w
        ≡ report_if answers test
            (some r, x)
            (record w { status = WorkerStatus.running; requests = start test ∷ w.requests })
  unfolding process_assignment
  processed r h e = rw (h, e) refl

  -- A worker that starts an assignment and is told, at some tick of the execution, that the test is
  -- stopped, reports the assignment as failed when the engine ends, whatever the engine's result is,
  -- unless it is shutting down: the assignment counts as an error.
  pub process_assignment_stopped :
      answers.on_start ≡ ok tt
      → answers.is_shut_down ≡ false
      → All (λ e. goes_on e ≡ true) es
      → any_by tells_stop es ≡ true
      → let r = process_assignment answers test (es ++ (finished now result ∷ [])) x w in
        (r.0 ≡ some (err assignment_stopped))
        × (r.1.requests ≡ fail test ∷ start test ∷ w.requests)
        × (r.1.status ≡ WorkerStatus.idle)
  unfolding report cause
  process_assignment_stopped started alive on told =
      rw
        (processed (outcome (x.stopped || any_by tells_stop es) result) started
          (ends es now result x on))
        (ground arith)

  -- A worker that starts an assignment, is never told that the test is stopped, and whose engine ends
  -- well, reports the assignment as complete, has the answer to that as its result, and is IDLE.
  process_assignment_completes :
      answers.on_start ≡ ok tt
      → result ≡ ok tt
      → x.stopped ≡ false
      → All (λ e. goes_on e ≡ true) es
      → any_by tells_stop es ≡ false
      → let r = process_assignment answers test (es ++ (finished now result ∷ [])) x w in
        (r.0 ≡ some answers.on_complete)
        × (r.1.requests ≡ complete test ∷ start test ∷ w.requests)
        × (r.1.status ≡ WorkerStatus.idle)
  unfolding report
  process_assignment_completes started good fresh on untold =
      rw
        (processed (outcome (x.stopped || any_by tells_stop es) result) started
          (ends es now result x on))
        (ground arith)

-- A worker that is through with an assignment is IDLE. It has asked to start it, and then at most one
-- of the two: to complete it, or to fail it.
pub process_assignment_lem :
    (answers : Answers) (test : String) (es : List Event) (x : Execution) (w : Runner)
    {r : Result (Unit {0})}
    → (process_assignment answers test es x w).0 ≡ some r
    → let v = (process_assignment answers test es x w).1 in
      (v.status ≡ WorkerStatus.idle)
      × ((v.requests ≡ start test ∷ w.requests)
          ⊎ (v.requests ≡ complete test ∷ start test ∷ w.requests)
          ⊎ (v.requests ≡ fail test ∷ start test ∷ w.requests))
unfolding process_assignment report
process_assignment_lem answers test es x w h = ground arith
