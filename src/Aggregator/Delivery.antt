-- ===== src/Aggregator/Delivery.antt =====
-- The counts of the workers' engines reach the reports of the aggregator.
use vulcan.Prelude.{
  ℕ, ◌+◌, ◌≤◌, ◌≡◌, refl, ◌∙◌, String, Bool, true, false, List, [], ◌∷◌, ◌++◌, none, arith, All, ℤ,
  pos, negsuc, max_int, count_by, if◌then◌else◌, ltb_ℤ,
}
use mathlib.Core.List.{Perm}
use vulcan.Errors.{Result}
use vulcan.Metrics.{MetricBucket, new_collector}
use vulcan.Runner.{finished, execute}
use vulcan.Runner
use vulcan.Runner.Stops.{goes_on}
use vulcan.Runner.Published.{
  sum_by, sum_by-append, sum_by-Perm, is_answer, counts, is_bad, execute_counts,
}
use vulcan.Aggregator.{Floats}
use vulcan.Aggregator.Conservation.{Event, bucket, tick, arrived, IsCount, run, run_conserves}
use vulcan.Aggregator.Windows.{waiting, reported}

-- An assignment that a worker executes until its engine ends.
pub record Work : Type 0 where
  pub test : String
  pub worker : String
  pub from : ℕ
  pub events : List Runner.Event
  pub to : ℕ
  pub result : Result (Unit {0})

abbrev opened : Work → Runner.Execution
opened w = record {
  stopped = false;
  collector = new_collector w.test w.worker w.from;
  published = [];
}

abbrev pub published_by : Work → List MetricBucket
published_by w = (execute (w.events ++ (finished w.to w.result ∷ [])) (opened w)).1.published

abbrev pub all_published : List Work → List MetricBucket
all_published [] = []
all_published (w ∷ ws) = published_by w ++ all_published ws

-- The results that the engines of the tests that `p` picks have handed over.
abbrev pub answers : (String → Bool) → List Work → ℕ
answers p ws = sum_by (λ w. if p w.test then count_by is_answer w.events else 0) ws

abbrev pub sent : List Event → List MetricBucket
sent [] = []
sent (bucket b ∷ es) = b ∷ sent es
sent (tick ∷ es) = sent es

published_by-counts :
    (p : String → Bool) (w : Work)
    → All (λ e. goes_on e ≡ true) w.events
    → count_by is_answer w.events ≤ max_int
    → (sum_by (counts p) (published_by w) ≡ (if p w.test then count_by is_answer w.events else 0))
      × (sum_by is_bad (published_by w) ≡ 0)
unfolding new_collector
published_by-counts p w on small =
    let (sum, bad) =
      execute_counts p w.test w.events w.to w.result 0 (opened w) on
        (record { same = refl; counted = refl }) (omega (arith, small)) in
    (ground (arith, sum), bad)

all_published-counts :
    (p : String → Bool) (ws : List Work)
    → All (λ w. All (λ e. goes_on e ≡ true) w.events) ws
    → answers (λ _. true) ws ≤ max_int
    → (sum_by (counts p) (all_published ws) ≡ answers p ws) × (sum_by is_bad (all_published ws) ≡ 0)
all_published-counts p [] on small = (refl, refl)
all_published-counts p (w ∷ ws) (on, ons) small =
    let (sum, bad) = published_by-counts p w on (omega (arith, small)) in
    let (sums, bads) = all_published-counts p ws ons (omega (arith, small)) in
    (
      omega (arith, sum, sums, sum_by-append (counts p) (published_by w) (all_published ws)),
      omega (arith, bad, bads, sum_by-append is_bad (published_by w) (all_published ws)),
    )

arrived-sent : (p : String → Bool) (es : List Event) → arrived p es ≡ sum_by (counts p) (sent es)
arrived-sent p [] = refl
arrived-sent p (bucket b ∷ es) = omega (arith, arrived-sent p es)
arrived-sent p (tick ∷ es) = arrived-sent p es

not_bad : (z : ℤ) → ◌≡◌ {A = ℕ} (if ltb_ℤ z (pos 0) then 1 else 0) 0 → (n : ℕ) × (z ≡ pos n)
not_bad (pos n) h = (n, refl)
not_bad (negsuc n) h = ground arith

sent-IsCount : (es : List Event) → sum_by is_bad (sent es) ≡ 0 → All IsCount es
sent-IsCount [] h = tt
sent-IsCount (bucket b ∷ es) h =
    (not_bad b.requests (omega (arith, h)), sent-IsCount es (omega (arith, h)))
sent-IsCount (tick ∷ es) h = (tt, sent-IsCount es h)

-- The aggregator gets the buckets that any number of workers publish while their engines run, in any
-- order, each once, with reports at any times between: then for any choice of tests, the requests that
-- it has reported and those that wait in its windows are together the results that the engines of
-- these tests handed over. For fewer than 2^63 results, executions that their engine ends, and
-- callbacks that no report interrupts.
pub run-execute :
    {F : Type 0} (floats : Floats F) (p : String → Bool) (ws : List Work) (es : List Event)
    → All (λ w. All (λ e. goes_on e ≡ true) w.events) ws
    → Perm (sent es) (all_published ws)
    → answers (λ _. true) ws ≤ max_int
    → let r = run floats es (record { tests = []; next = 0; held = none }) in
      reported p r.1 + waiting p r.0.tests ≡ answers p ws
run-execute floats p ws es on delivered small =
    let (sum, bad) = all_published-counts p ws on small in
    let (all, _) = all_published-counts (λ _. true) ws on small in
    let fine = sent-IsCount es (sum_by-Perm is_bad delivered ∙ bad) in
    let few : arrived (λ _. true) es ≤ max_int = omega (
      arith,
      arrived-sent (λ _. true) es,
      sum_by-Perm (counts (λ _. true)) delivered,
      all,
      small,
    ) in
    run_conserves floats p es fine few ∙ arrived-sent p es ∙ sum_by-Perm (counts p) delivered ∙ sum
