-- ===== src/Examples/Online.antt =====
-- The theorems on a worker against the control plane, at a small fleet.
use vulcan.Prelude.{◌≡◌, refl, true, some, List, [], ◌∷◌, count_by, ◌<◌, ◌++◌}
use vulcan.Errors.{cancelled, assignment_stopped, ok, err}
use vulcan.Models.{TestStatus, WorkerStatus, AssignmentStatus}
use vulcan.Driver.{Db}
use vulcan.Repository.Tests.{get_test_by_id, try_transition_status, update_status}
use vulcan.Repository.Workers.{release_workers_for_test, release_rows, update_heartbeat}
use vulcan.Repository.Assignments.{
  runs, mark_assignment_running, mark_assignment_completed, complete_rows,
}
use vulcan.Service.Tests.{stop_test, stop_unfinished, is_finished}
use vulcan.Service.Workers.{start_assignment, complete_assignment, heartbeat}
use vulcan.Api.{json}
use vulcan.Api.Tests.{handle_get_test}
use vulcan.Api.Workers.{
  handle_start_assignment, handle_complete_assignment, handle_transition, handle_heartbeat,
  heartbeat_with,
}
use vulcan.Api.Router.{serve, control_plane}
use vulcan.Client.{Transport, do_request, post_start, post_complete, post_heartbeat, fetch_test}
use vulcan.Client.Stops.{test_status_text}
use vulcan.Runner.{Runner, flush_and_publish}
use vulcan.Runner.Online.{
  Input, process_online, execute_online, report_online, send_heartbeat, ask_status, Outcome,
}
use vulcan.Runner.Online.Completion.{process_online-mark_assignment_completed}
use vulcan.Runner.Online.Lost.{process_online-start_lost}
use vulcan.Runner.Online.Stopping.{execute_online-stop_test}
use vulcan.Examples.{test, worker, assignment, fleet, quiet, at}
use vulcan.Examples.Http.{server, codec, router-Routes}
use vulcan.Examples.Agents.{runner, execution, answer}

-- Worker w1 has been reserved for test t2.
abbrev waiting : Db
waiting = record {
  tests = fleet.tests;
  workers = worker "w1" "vulcan-auto-worker-1" WorkerStatus.reserved ∷ [];
  assignments = assignment "t2" "w1" AssignmentStatus.reserved ∷ [];
}

abbrev inputs : List Input
inputs = Input.beat ∷ Input.answered answer ∷ Input.tick 1 ∷ Input.finished 2 (ok tt) ∷ []

abbrev whole : Outcome Runner
whole = process_online (control_plane server) codec true "t2" inputs execution runner (at waiting)

process_online-mark_assignment_completed_example :
    count_by (runs "t2" "w1") whole.2.db.assignments ≡ 0
unfolding process_online execute_online report_online send_heartbeat ask_status post_start
    post_complete post_heartbeat fetch_test do_request control_plane serve handle_get_test
    handle_start_assignment handle_complete_assignment handle_transition handle_heartbeat
    heartbeat_with json start_assignment complete_assignment heartbeat update_heartbeat
    mark_assignment_running mark_assignment_completed complete_rows get_test_by_id flush_and_publish
process_online-mark_assignment_completed_example =
    (process_online-mark_assignment_completed server codec "t2" true inputs execution runner whole.1
      (at waiting) whole.2 (router-Routes "w1") ("t2", refl, refl) refl refl).1

-- The answer of every call is lost.
abbrev losing : Transport
losing req c = (err cancelled, (control_plane server req c).1)

process_online-start_lost_example :
    0
    < count_by
        (runs "t2" "w1")
        (process_online losing codec true "t2" inputs execution runner
          (at waiting)).2.db.assignments
process_online-start_lost_example =
    let (_, _, _, _, still, _) =
      process_online-start_lost server codec "t2" losing true inputs execution runner (at waiting)
        cancelled (router-Routes "w1") ("t2", refl, refl) (λ n d. refl) (λ body. refl)
        (unfold start_assignment mark_assignment_running in refl) in
    still

execute_online-stop_test_example :
    (execute_online
      (control_plane server)
      codec
      runner
      "t2"
      (Input.tick 1
        ∷ ((Input.beat ∷ Input.answered answer ∷ []) ++ (Input.finished 2 (err cancelled) ∷ [])))
      execution
      (stop_test quiet server.service "t2" (at fleet)).1).0
    ≡ some (err assignment_stopped)
execute_online-stop_test_example =
    execute_online-stop_test server codec "t2" (test "t2" TestStatus.running) (at fleet)
      (record { id = "t2"; status = "STOPPED" })
      (λ t h. (test_status_text t.status, refl, rw h refl)) (router-Routes "t2") (λ n d. refl)
      (unfold get_test_by_id in refl) (unfold is_finished in refl)
      (unfold stop_test stop_unfinished is_finished get_test_by_id try_transition_status
          release_workers_for_test release_rows update_status in
        refl)
      (unfold fetch_test do_request control_plane serve handle_get_test json stop_test
          stop_unfinished is_finished get_test_by_id try_transition_status release_workers_for_test
          release_rows update_status in
        refl)
      runner execution 1 (Input.beat ∷ Input.answered answer ∷ []) 2 (err cancelled)
      (refl, (refl, tt))
