-- ===== src/Aggregator/Written.antt =====
-- What the running aggregator writes to VictoriaMetrics.
use vulcan.Prelude.{
  ◌+◌, ◌≤◌, ◌≡◌, refl, sym, ap, ◌∙◌, ℤ, String, Bool, true, List, [], ◌∷◌, ◌++◌, none, All, max_int,
}
use mathlib.Core.List.{Perm, append-nil, append_assoc}
use Prim.Native.String.{◌++◌ as ◌++ₛ◌}
use vulcan.Errors.{Result, ok, err}
use vulcan.Api.{Response}
use vulcan.Victoria.{Post, answered, write}
use vulcan.Aggregator.Payload.{build_victoria_payload}
use vulcan.Metrics.{MetricBucket}
use vulcan.Runner.Stops.{goes_on}
use vulcan.Aggregator.{Floats, Aggregator, Snapshot, deliver, receive, merge_held, report}
use vulcan.Aggregator.Windows.{waiting, reported}
use vulcan.Aggregator.Conservation.{Event, bucket, tick, run}
use vulcan.Aggregator.Delivery.{Work, sent, all_published, answers, run-execute}
use vulcan.Aggregator.Loop.{
  Input, arrives, merges, second, Outside, on_message, write_snapshots, report_and_write, run_loop,
}

-- The turns of the loop when no report comes between a message and its merge.
abbrev pub turns : (MetricBucket → String) → List Event → List Input
turns encode [] = []
turns encode (bucket b ∷ es) = arrives (encode b) ∷ merges ∷ turns encode es
turns encode (tick ∷ es) = second ∷ turns encode es

-- One post for each snapshot: to the import of VictoriaMetrics, with the payload of the snapshot at some
-- time.
abbrev pub Posted :
    {F W : Type 0} → Outside F W → List (Snapshot F) → List (String × String) → Type 0
Posted outside [] [] = Unit {0}
Posted outside (s ∷ ss) ((url, body) ∷ posts) =
    ((url ≡ outside.url ++ₛ "/api/v1/import/prometheus")
      × (ts : ℤ) × (body ≡ build_victoria_payload outside.fmt ts s))
    × Posted outside ss posts
Posted outside _ _ = ⊥

answered-state : {W : Type 0} (post : Post W) (r : Result Response × W) → (answered post r).1 ≡ r.1
answered-state post (ok r, w) = refl
answered-state post (err e, w) = refl

module _ {F W : Type 0} (floats : Floats F) (outside : Outside F W)
    (encode : MetricBucket → String) where
  -- The subscription reads the message of this bucket as the bucket.
  abbrev pub IsRead : MetricBucket → Type 0
  IsRead b = outside.decode (encode b) ≡ ok b

  write_snapshots-append :
      (xs ys : List (Snapshot F)) (w : W)
      → write_snapshots floats outside (xs ++ ys) w
        ≡ write_snapshots floats outside ys (write_snapshots floats outside xs w)
  unfolding write_snapshots
  write_snapshots-append [] ys w = refl
  write_snapshots-append (x ∷ xs) ys w = write_snapshots-append xs ys _

  on_message-encode :
      (b : MetricBucket) (a : Aggregator F)
      → IsRead b
      → on_message floats outside (encode b) a ≡ receive floats b a
  unfolding on_message
  on_message-encode b a reads = rw reads refl

  run_loop-run :
      (es : List Event) (a : Aggregator F) (w : W)
      → All IsRead (sent es)
      → let r = run floats es a in
        run_loop floats outside (turns encode es) a w ≡ (r.0, write_snapshots floats outside r.1 w)
  unfolding run_loop run deliver report_and_write write_snapshots
  run_loop-run [] a w h = refl
  run_loop-run (bucket b ∷ es) a w (reads, h) =
      ap (λ v. run_loop floats outside (turns encode es) (merge_held floats v) w)
        (on_message-encode b a reads)
      ∙ run_loop-run es (deliver floats b a) w h
  run_loop-run (tick ∷ es) a w h =
      let (a', ss) = report floats a in
      rw (write_snapshots-append ss (run floats es a').1 w)
        (run_loop-run es a' (write_snapshots floats outside ss w) h)

  module _ (log : W → List (String × String))
      (sends : (url body : String) (w : W)
        → log (outside.post url body w).1 ≡ log w ++ ((url, body) ∷ [])) where
    write-log :
        (body : String) (w : W)
        → log (write outside.post outside.url body w).1
          ≡ log w ++ ((outside.url ++ₛ "/api/v1/import/prometheus", body) ∷ [])
    unfolding write
    write-log body w =
        ap log (
          answered-state outside.post
            (outside.post (outside.url ++ₛ "/api/v1/import/prometheus") body w))
        ∙ sends (outside.url ++ₛ "/api/v1/import/prometheus") body w

    write_snapshots-log :
        (ss : List (Snapshot F)) (w : W)
        → (posts : List (String × String)) × (log (write_snapshots floats outside ss w)
            ≡ log w ++ posts)
          × Posted outside ss posts
    unfolding write_snapshots
    write_snapshots-log [] w = ([], sym (append-nil _), tt)
    write_snapshots-log (s ∷ ss) w =
        let body = build_victoria_payload outside.fmt (outside.unix_milli w) s in
        let (posts, e, h) = write_snapshots-log ss (write outside.post outside.url body w).1 in
        (
          (outside.url ++ₛ "/api/v1/import/prometheus", body) ∷ posts,
          e ∙ ap (λ l. l ++ posts) (write-log body w) ∙ append_assoc (log w) _ posts,
          ((refl, outside.unix_milli w, refl), h),
        )

    -- The running aggregator, from the empty store on, gets as messages the buckets that any number of
    -- workers publish while their engines run, in any order, each once, with ticks of its reports at any
    -- times between. Then it has posted to the import of VictoriaMetrics, in order, the payloads of
    -- snapshots whose requests for any choice of tests, together with those that wait in its windows,
    -- are the results that the engines of these tests handed over, and has posted nothing else. For
    -- fewer than 2^63 results, executions that their engine ends, messages that are read as the buckets
    -- that were written, and callbacks that no report interrupts; whether VictoriaMetrics accepts a post
    -- does not matter. `log` is what of the world shows the posts.
    pub run_loop-execute :
        (ws : List Work) (es : List Event) (w : W)
        → All (λ v. All (λ e. goes_on e ≡ true) v.events) ws
        → Perm (sent es) (all_published ws)
        → All IsRead (sent es)
        → answers (λ _. true) ws ≤ max_int
        → let r =
            run_loop floats outside
              (turns encode es)
              (record { tests = []; next = 0; held = none })
              w in
          (ss : List (Snapshot F)) × (posts : List (String × String)) × (log r.1 ≡ log w ++ posts)
          × Posted outside ss posts
          × ((p : String → Bool) → reported p ss + waiting p r.0.tests ≡ answers p ws)
    run_loop-execute ws es w on delivered reads small =
        let empty : Aggregator F = record { tests = []; next = 0; held = none } in
        let ran = run_loop-run es empty w reads in
        let ss = (run floats es empty).1 in
        let (posts, e, h) = write_snapshots-log ss w in
        (
          ss,
          posts,
          ap (λ r. log r.1) ran ∙ e,
          h,
          λ p. rw ran (run-execute floats p ws es on delivered small),
        )
