-- ===== src/Aggregator.antt =====
-- internal/aggregator: the buckets of all workers are merged into one window for each test
-- (window.go, store.go, subscriber.go), and every second the windows are reported and emptied
-- (aggregator.go), as lines for VictoriaMetrics (victoria.go). The arithmetic of `float64` comes in a
-- record.
pub mod Windows
pub mod Conservation
pub mod Races
pub mod Delivery
pub mod Payload
pub mod Loop
pub mod Written
use vulcan.Prelude.{
  ℕ, suc, String, Bool, true, false, ◌&&◌, Option, none, some, List, [], ◌∷◌, ℤ, pos, negsuc, add64,
  str_eq, ◌==◌, any_by, if◌then◌else◌, length, ltb_ℤ,
}
use vulcan.Metrics.{MetricBucket, Average}

-- `quotient` is the `float64` that a bucket carries as its average.
pub record Floats (F : Type 0) : Type 0 where
  pub zero : F
  pub of_int : ℤ → F
  pub quotient : Average → F
  pub add : F → F → F
  pub mul : F → F → F
  pub div : F → F → F
  pub less : F → F → Bool

-- `none` is the zero time. The set of workers is a list without repetition.
pub record GlobalWindow (F : Type 0) : Type 0 where
  pub test_id : String
  pub window_start : Option ℕ
  pub window_end : Option ℕ
  pub requests : ℤ
  pub successes : ℤ
  pub failures : ℤ
  pub bytes_sent : ℤ
  pub bytes_received : ℤ
  pub total_latency : F
  pub max_latency : F
  pub workers : List String

pub record Snapshot (F : Type 0) : Type 0 where
  pub test_id : String
  pub workers : ℕ
  pub requests : ℤ
  pub successes : ℤ
  pub failures : ℤ
  pub bytes_sent : ℤ
  pub bytes_received : ℤ
  pub avg_latency : F
  pub max_latency : F
  pub success_rate : F
  pub rps : ℤ

-- An entry of the map of a `Store`. `serial` stands for the address of the window: `Get` hands it
-- out, and a window that has left the map is reached by that alone.
pub record Entry (F : Type 0) : Type 0 where
  pub key : String
  pub serial : ℕ
  pub window : GlobalWindow F

-- The store, and the message whose callback has its window and has not merged into it. Callbacks of
-- one subscription run one after the other.
pub record Aggregator (F : Type 0) : Type 0 where
  pub tests : List (Entry F)
  pub next : ℕ
  pub held : Option (ℕ × MetricBucket)

abbrev pub is_zero : ℤ → Bool
is_zero (pos n) = n == 0
is_zero (negsuc n) = false

abbrev pub or_else : Option ℕ → ℕ → Option ℕ
or_else none now = some now
or_else (some t) now = some t

abbrev with_worker : String → List String → List String
with_worker w ws = if any_by (λ v. str_eq v w) ws then ws else w ∷ ws

module _ {F : Type 0} (floats : Floats F) where
  open floats use {zero, of_int, quotient, add, mul, div, less}

  unfoldable pub new_window : String → GlobalWindow F
  new_window test = record {
    test_id = test;
    window_start = none;
    window_end = none;
    requests = pos 0;
    successes = pos 0;
    failures = pos 0;
    bytes_sent = pos 0;
    bytes_received = pos 0;
    total_latency = zero;
    max_latency = zero;
    workers = [];
  }

  unfoldable pub merge : MetricBucket → GlobalWindow F → GlobalWindow F
  merge b g = record g {
    window_start = or_else g.window_start b.window_start;
    window_end = some b.window_end;
    requests = add64 g.requests b.requests;
    successes = add64 g.successes b.successes;
    failures = add64 g.failures b.failures;
    bytes_sent = add64 g.bytes_sent b.bytes_sent;
    bytes_received = add64 g.bytes_received b.bytes_received;
    total_latency = add g.total_latency (mul (quotient b.avg_latency) (of_int b.requests));
    max_latency =
        if less g.max_latency (of_int b.max_latency_ms)
        then of_int b.max_latency_ms
        else g.max_latency;
    workers = with_worker b.worker_id g.workers;
  }

  abbrev pub find_entry : String → List (Entry F) → Option (Entry F)
  find_entry key [] = none
  find_entry key (e ∷ es) = if str_eq e.key key then some e else find_entry key es

  abbrev new_entry : String → Aggregator F → Entry F
  new_entry test a = record { key = test; serial = a.next; window = new_window test }

  abbrev pub found_or_new : String → Aggregator F → Option (Entry F) → ℕ × Aggregator F
  found_or_new test a (some e) = (e.serial, a)
  found_or_new test a none =
      (a.next, record a { tests = new_entry test a ∷ a.tests; next = suc a.next })

  -- `Store.Get`, with the address of the window that it returns.
  unfoldable pub get_window : String → Aggregator F → ℕ × Aggregator F
  unfolding new_window
  get_window test a = found_or_new test a (find_entry test a.tests)

  -- The window at the address, if the map still has it, takes in the bucket.
  abbrev pub merge_at : String → ℕ → MetricBucket → List (Entry F) → List (Entry F)
  merge_at key serial b [] = []
  merge_at key serial b (e ∷ es) =
      let rest = merge_at key serial b es in
      if str_eq e.key key && (e.serial == serial)
      then record e { window = merge b e.window } ∷ es
      else e ∷ rest

  abbrev pub holding : MetricBucket → ℕ × Aggregator F → Aggregator F
  holding b (serial, a) = record a { held = some (serial, b) }

  -- The callback of `subscribe` in its two steps: `Get`, and `Merge`.
  unfoldable pub receive : MetricBucket → Aggregator F → Aggregator F
  receive b a = holding b (get_window b.test_id a)

  unfoldable pub merge_held : Aggregator F → Aggregator F
  merge_held a = elim a.held [
    | none ↦ a
    | some (serial, b) ↦ record a { tests = merge_at b.test_id serial b a.tests; held = none }
  ]

  -- A callback that nothing comes between.
  unfoldable pub deliver : MetricBucket → Aggregator F → Aggregator F
  unfolding receive merge_held
  deliver b a = merge_held (receive b a)

  unfoldable pub snapshot : GlobalWindow F → Snapshot F
  snapshot g = record {
    test_id = g.test_id;
    workers = length g.workers;
    requests = g.requests;
    successes = g.successes;
    failures = g.failures;
    bytes_sent = g.bytes_sent;
    bytes_received = g.bytes_received;
    avg_latency =
        if ltb_ℤ (pos 0) g.requests then div g.total_latency (of_int g.requests) else zero;
    max_latency = g.max_latency;
    success_rate =
        if ltb_ℤ (pos 0) g.requests
        then mul (div (of_int g.successes) (of_int g.requests)) (of_int (pos 100))
        else zero;
    rps = g.requests;
  }

  -- The loop of `report`: an empty window leaves the map, another one is emptied.
  unfoldable pub report_entries : List (Entry F) → List (Entry F) × List (Snapshot F)
  unfolding snapshot new_window
  report_entries [] = ([], [])
  report_entries (e ∷ es) =
      let (kept, snapshots) = report_entries es in
      if is_zero e.window.requests
      then (kept, snapshots)
      else (record e { window = new_window e.window.test_id } ∷ kept, snapshot e.window ∷ snapshots)

  unfoldable pub report : Aggregator F → Aggregator F × List (Snapshot F)
  unfolding report_entries
  report a =
      let (kept, snapshots) = report_entries a.tests in (record a { tests = kept }, snapshots)
