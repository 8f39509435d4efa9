-- ===== src/Runner/Online/Stopping.antt =====
-- The stop of a test (StopTest) and the executions of it at the workers (executor.go).
use vulcan.Prelude.{
  ℕ, String, ◌≡◌, refl, Bool, true, false, ◌||◌, some, List, [], ◌∷◌, ◌++◌, All, Bool-cases, inl,
  inr,
}
use vulcan.Errors.{assignment_stopped, Result, ok, err}
use vulcan.Models.{Test}
use vulcan.Driver.{Conn}
use vulcan.Repository.Tests.{get_test_by_id}
use vulcan.Service.Tests.{is_finished, stop_test}
use vulcan.Service.Tests.Stop.{IsAlone}
use vulcan.Api.Router.{Server, Routes, control_plane}
use vulcan.Client.{ClientCodec, Transport, TestStatusResponse, fetch_test}
use vulcan.Client.Stops.{ReadsTest, fetch_test-stop_test}
use vulcan.Runner.{Execution, Runner, is_stop, flush_and_publish}
use vulcan.Runner.Online.{Input, ask_status, execute_online}

-- An input that does not end the execution.
abbrev pub goes_on : Input → Bool
goes_on Input.shutdown = false
goes_on (Input.finished now result) = false
goes_on _ = true

-- Once the execution has heard of the stop, its end is the stop, whatever the control plane answers.
stopped-ends :
    (send : Transport) (codec : ClientCodec) (w : Runner) (test : String) (es : List Input) (to : ℕ)
    → (result : Result (Unit {0})) (x : Execution) (c : Conn) → x.stopped ≡ true
    → All (λ e. goes_on e ≡ true) es
    → (execute_online send codec w test (es ++ (Input.finished to result ∷ [])) x c).0
      ≡ some (err assignment_stopped)
unfolding execute_online flush_and_publish
stopped-ends send codec w test [] to result x c h on = rw h refl
stopped-ends send codec w test (Input.beat ∷ es) to result x c h (_, on) =
    stopped-ends send codec w test es to result x _ h on
stopped-ends send codec w test (Input.answered r ∷ es) to result x c h (_, on) =
    stopped-ends send codec w test es to result _ c h on
stopped-ends send codec w test (Input.tick now ∷ es) to result x c h (_, on) =
    stopped-ends send codec w test es to result _ _ (rw h refl) on
stopped-ends send codec w test (Input.shutdown ∷ es) to result x c h (k, on) = cc
stopped-ends send codec w test (Input.finished now r ∷ es) to result x c h (k, on) = cc

module _ (server : Server) (codec : ClientCodec) (id : String) where
  open server use {env, service}

  -- A stop that succeeds on an unfinished test, where no other client of the database writes
  -- meanwhile, ends the executions of it: if the control plane answers the question for the status that
  -- a worker asks at its next tick, the execution ends as stopped, whatever comes between that tick and
  -- the end of its engine, and however the engine ends. The worker must not be shut down before, the
  -- path must be routed, and the worker must read what the server writes of a test.
  pub execute_online-stop_test :
      (t : Test) (c : Conn) (r : TestStatusResponse)
      → ReadsTest server codec id
      → Routes server.router id
      → IsAlone env
      → (get_test_by_id env id c).0 ≡ ok t
      → is_finished env service t.status ≡ false
      → (stop_test env service id c).0 ≡ ok tt
      → (fetch_test (control_plane server) codec id (stop_test env service id c).1).0 ≡ ok r
      → (w : Runner) (x : Execution) (now : ℕ) (es : List Input) (to : ℕ)
        (result : Result (Unit {0}))
      → All (λ e. goes_on e ≡ true) es
      → (execute_online
          (control_plane server)
          codec
          w
          id
          (Input.tick now ∷ (es ++ (Input.finished to result ∷ [])))
          x
          (stop_test env service id c).1).0
        ≡ some (err assignment_stopped)
  unfolding execute_online ask_status flush_and_publish
  execute_online-stop_test t c r reads routes alone found_it open_still stopped answered w x now es
        to result on =
      stopped-ends (control_plane server) codec w id es to result _ _ heard on
    where
      heard :
          (x.stopped
            || is_stop
                (ask_status
                  (control_plane server)
                  codec
                  x.stopped
                  id
                  (stop_test env service id c).1).0)
          ≡ true
      heard = elim (Bool-cases x.stopped) [
        | inl e ↦ rw e refl
        | inr e ↦
            rw (e, answered)
              (fetch_test-stop_test server codec id reads routes t c r alone found_it open_still
                stopped answered)
      ]
