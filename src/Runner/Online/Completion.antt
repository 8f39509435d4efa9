-- ===== src/Runner/Online/Completion.antt =====
-- A worker that runs its assignment against the control plane, from the start to the end.
use vulcan.Prelude.{
  String, ◌≡◌, ◌∙◌, sym, refl, ap, inl, inr, Bool, true, false, none, some, List, ◌∷◌, arith,
  count_by, ◌<◌,
}
use vulcan.Errors.{Result, ok, err, is_ok}
use vulcan.Models.{TestStatus}
use vulcan.Driver.{Conn, rewrap}
use vulcan.Repository.Tests.{has_status}
use vulcan.Repository.Rows.{has_incomplete}
use vulcan.Repository.Effects.{found}
use vulcan.Repository.Assignments.{runs, waits, mark_assignment_completed, mark_assignment_running}
use vulcan.Repository.Outcomes.{mark_assignment_running_lem, mark_assignment_completed_lem}
use vulcan.Service.Workers.{complete_assignment, start_assignment}
use vulcan.Api.Router.{Server, Routes, control_plane}
use vulcan.Client.{ClientCodec, Transport, post_start, post_complete}
use vulcan.Client.Serving.{Agrees, transitions-serve}
use vulcan.Runner.{Execution, Request, Runner, start, complete}
use vulcan.Runner.Online.{Input, Outcome, report_online, reported_if, process_online}
use vulcan.Runner.Online.Replies.{running_as, start_reply, executed}

module _ (send : Transport) (codec : ClientCodec) (is_shut_down : Bool) (test : String) where
  -- A run whose last request is the completion has made it at the end of the execution.
  reported-completed :
      (v w' : Runner) (o : Outcome Execution) (c' : Conn) {before after : List Request}
      → v.requests ≡ start test ∷ before
      → reported_if send codec is_shut_down test v o ≡ (some (ok tt), w', c')
      → w'.requests ≡ complete test ∷ after
      → post_complete send codec v.id test o.2 ≡ (ok tt, c')
  unfolding report_online
  reported-completed v w' (none, x, c) c' l h k = cc
  reported-completed v w' (some (ok u), x, c) c' l h k = ground arith
  reported-completed v w' (some (err e), x, c) c' l h k = ground arith

  process-completed :
      (es : List Input) (x : Execution) (w w' : Runner) (c c' : Conn) {after : List Request}
      → process_online send codec is_shut_down test es x w c ≡ (some (ok tt), w', c')
      → w'.requests ≡ complete test ∷ after
      → ((start_reply send codec is_shut_down test es x w c).0 ≡ ok tt)
        × (post_complete send codec w.id test (executed send codec is_shut_down test es x w c).2
            ≡ (ok tt, c'))
  unfolding process_online
  process-completed es x w w' c c' h k = go (post_start send codec w.id test c) refl
    where
      go :
          (s : Result (Unit {0}) × Conn)
          → post_start send codec w.id test c ≡ s
          → ((start_reply send codec is_shut_down test es x w c).0 ≡ ok tt)
            × (post_complete send codec w.id test (executed send codec is_shut_down test es x w c).2
                ≡ (ok tt, c'))
      go (ok u, d) e = rw e (
        refl,
        reported-completed (running_as send codec is_shut_down test es x w c) w' _ c' refl
            (rw e at h) k,
      )
      go (err f, d) e = ground (rw e at h, arith)

-- An operation that the service wraps, where it has succeeded.
pub wrapped-ok :
    {A : Type 0} (text : String) (r : Result A × Conn)
    → is_ok (rewrap text r).0 ≡ true
    → (is_ok r.0 ≡ true) × ((rewrap text r).1 ≡ r.1)
wrapped-ok text (ok a, c) h = (refl, refl)
wrapped-ok text (err e, c) h = cc

pub ok-unit : (r : Result (Unit {0})) → is_ok r ≡ true → r ≡ ok tt
ok-unit (ok u) h = refl
ok-unit (err e) h = cc

module _ (server : Server) (codec : ClientCodec) (test : String) where
  open server use {env, worker_codec}

  module _ (worker : String) (routes : Routes server.router worker)
      (reads : Agrees (codec.transition_request test) worker_codec.transition_request test) where
    completed-lossless :
        (c c' : Conn)
        → post_complete (control_plane server) codec worker test c ≡ (ok tt, c')
        → ((mark_assignment_completed env test worker c).0 ≡ ok tt)
          × ((mark_assignment_completed env test worker c).1 ≡ c')
    unfolding complete_assignment
    completed-lossless c c' h =
        let (_, same, _) = transitions-serve server worker routes codec test c reads in
        let (fine, at) =
          wrapped-ok "complete assignment" (mark_assignment_completed env test worker c)
            (sym same.0 ∙ ap (λ r. is_ok r.0) h) in
        (ok-unit _ fine, sym at ∙ sym same.1 ∙ ap (λ r. r.1) h)

    started-lossless :
        (c : Conn)
        → is_ok (post_start (control_plane server) codec worker test c).0 ≡ true
        → ((mark_assignment_running env test worker c).0 ≡ ok tt)
          × ((mark_assignment_running env test worker c).1
              ≡ (post_start (control_plane server) codec worker test c).1)
    unfolding start_assignment
    started-lossless c h =
        let (same, _, _) = transitions-serve server worker routes codec test c reads in
        let (fine, at) =
          wrapped-ok "start assignment" (mark_assignment_running env test worker c)
            (sym same.0 ∙ h) in
        (ok-unit _ fine, sym at ∙ sym same.1)

  -- A worker whose run of an assignment ends without an error and with the report that it is
  -- completed, where nothing of its calls is lost, had the assignment RESERVED for it when it
  -- started, and none of the test is RUNNING for it any more when it ends. If all assignments of the
  -- test are COMPLETED then, the test is not RUNNING. Other clients of the database may write
  -- meanwhile, and calls of the database may fail. The path must be routed, and the server must read
  -- what the worker writes.
  pub process_online-mark_assignment_completed :
      (is_shut_down : Bool) (es : List Input) (x : Execution) (w w' : Runner) (c c' : Conn)
      → Routes server.router w.id
      → Agrees (codec.transition_request test) worker_codec.transition_request test
      → process_online (control_plane server) codec is_shut_down test es x w c
        ≡ (some (ok tt), w', c')
      → w'.requests ≡ complete test ∷ start test ∷ w.requests
      → (0 < count_by (waits test w.id) (found env c).assignments)
        × (count_by (runs test w.id) c'.db.assignments ≡ 0)
        × (has_incomplete c'.db.assignments test ≡ false
            → count_by (has_status test TestStatus.running) c'.db.tests ≡ 0)
  process_online-mark_assignment_completed is_shut_down es x w w' c c' routes reads h k =
      let send = control_plane server in
      let (began, ended) = process-completed send codec is_shut_down test es x w w' c c' h k in
      let d = (executed send codec is_shut_down test es x w c).2 in
      let (done, at) = completed-lossless w.id routes reads d c' ended in
      let (_, gone, tests) = mark_assignment_completed_lem env d test w.id done in
      (
        (mark_assignment_running_lem env c test w.id
            (started-lossless w.id routes reads c (ap is_ok began)).0).0,
        rw at at gone,
        λ all. elim (rw at at tests) [ inl t ↦ t.1 | inr t ↦ cc ],
      )
