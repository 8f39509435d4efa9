-- ===== src/Runner/Online/Replies.antt =====
-- The calls of internal/worker that are made, beside those whose answers are given: Runner and Runner/Online.
use vulcan.Prelude.{String, ◌≡◌, sym, refl, Bool, ◌||◌, Option, none, some, List, [], ◌∷◌, arith}
use vulcan.Errors.{Result, ok, err}
use vulcan.Models.{WorkerStatus}
use vulcan.Driver.{Conn}
use vulcan.Metrics.{record_result}
use vulcan.Client.{ClientCodec, Transport, post_start, post_complete}
use vulcan.Runner.{
  Event, Execution, is_stop, flush_and_publish, execute, Runner, Answers, requested, report,
  report_if, process_assignment, start,
}
use vulcan.Runner.Online.{
  Input, Outcome, send_heartbeat, ask_status, execute_online, report_online, reported_if,
  process_online,
}

-- A result and the worker's own state, without the control plane's.
abbrev pub own : {S : Type 0} → Outcome S → Option (Result (Unit {0})) × S
own o = (o.0, o.1)

module _ (send : Transport) (codec : ClientCodec) (w : Runner) (test : String) where
  -- The events of an execution, with what the control plane answers at its ticks; `stopped` is what
  -- the execution has heard so far.
  abbrev transcript : List Input → Bool → Conn → List Event
  transcript [] stopped c = []
  transcript (Input.beat ∷ es) stopped c = transcript es stopped (send_heartbeat send codec w c).1
  transcript (Input.shutdown ∷ es) stopped c = Event.shutdown ∷ []
  transcript (Input.answered r ∷ es) stopped c = Event.answered r ∷ transcript es stopped c
  transcript (Input.tick now ∷ es) stopped c =
      let (status, c') = ask_status send codec stopped test c in
      Event.tick now status ∷ transcript es (stopped || is_stop status) c'
  transcript (Input.finished now result ∷ es) stopped c = Event.finished now result ∷ []

  execute_online-transcript :
      (es : List Input) (x : Execution) (c : Conn)
      → own (execute_online send codec w test es x c) ≡ execute (transcript es x.stopped c) x
  unfolding execute_online execute
  execute_online-transcript [] x c = refl
  execute_online-transcript (Input.beat ∷ es) x c =
      execute_online-transcript es x (send_heartbeat send codec w c).1
  execute_online-transcript (Input.shutdown ∷ es) x c = refl
  execute_online-transcript (Input.answered r ∷ es) x c =
      execute_online-transcript es (record x { collector = record_result r x.collector }) c
  execute_online-transcript (Input.tick now ∷ es) x c =
      let (status, c') = ask_status send codec x.stopped test c in
      execute_online-transcript es
        (flush_and_publish now (record x { stopped = x.stopped || is_stop status })) c'
  execute_online-transcript (Input.finished now result ∷ es) x c = refl

module _ (send : Transport) (codec : ClientCodec) (is_shut_down : Bool) (test : String) where
  reported-own :
      (w : Runner) (o : Outcome Execution) (on_start : Result (Unit {0}))
      → own (reported_if send codec is_shut_down test w o)
        ≡ report_if
            (record {
              on_start = on_start;
              on_complete = (post_complete send codec w.id test o.2).0;
              is_shut_down = is_shut_down;
            })
            test
            (own o)
            w
  unfolding report_online report
  reported-own w (none, x, c) on_start = refl
  reported-own w (some (ok u), x, c) on_start = refl
  reported-own w (some (err e), x, c) on_start = ground arith

  module _ (es : List Input) (x : Execution) (w : Runner) (c : Conn) where
    -- The worker while it runs the assignment, and what it is answered to its start.
    abbrev pub running_as : Runner
    running_as = requested (start test) (record w { status = WorkerStatus.running })

    abbrev pub start_reply : Result (Unit {0}) × Conn
    start_reply = post_start send codec w.id test c

    abbrev pub executed : Outcome Execution
    executed = execute_online send codec running_as test es x start_reply.1

    abbrev replies : Answers
    replies = record {
      on_start = start_reply.0;
      on_complete = (post_complete send codec w.id test executed.2).0;
      is_shut_down = is_shut_down;
    }

    -- The run of an assignment against the control plane, whatever the transport makes of its calls,
    -- is the run of the assignment alone at what it was answered: at the replies to its start and to
    -- its completion, and with the answers to its questions for the status of the test among the
    -- events of the execution. The heartbeats that go out meanwhile change nothing of it.
    process_online-process_assignment :
        own (process_online send codec is_shut_down test es x w c)
        ≡ process_assignment replies test
            (transcript send codec running_as test es x.stopped start_reply.1)
            x
            w
    unfolding process_online process_assignment
    process_online-process_assignment = go start_reply refl
      where
        go :
            (s : Result (Unit {0}) × Conn)
            → start_reply ≡ s
            → own (process_online send codec is_shut_down test es x w c)
              ≡ process_assignment replies test
                  (transcript send codec running_as test es x.stopped start_reply.1)
                  x
                  w
        go (ok u, c') e =
            rw (e, sym (execute_online-transcript send codec running_as test es x c'))
              (reported-own running_as (execute_online send codec running_as test es x c') (ok u))
        go (err f, c') e = rw e refl
