-- ===== src/Autoscaler/Reconciler/Decision.antt =====
-- What one cycle of internal/autoscaler/reconciler.go decides, for every provisioner.
use vulcan.Prelude.{
  ℕ, suc, ◌-◌, ◌≤◌, ◌<◌, ◌≡◌, ap, ◌∙◌, ◌⊎◌, Bool, count_by, [], ◌∷◌, refl, inl, inr, true, false,
  List, arith, if◌then◌else◌, ltb, length, filter_by, sort_desc, All, All-take, All-filter_by,
  filter_by-All, length-take_le, ℤ, pos, max_int, sub64-pos, ltb_ℤ, Bool-cases,
}
use vulcan.Errors.{ok}
use vulcan.Models.{Test, Worker, WorkerStatus, worker_status_eq}
use vulcan.Driver.{Db, Env, Conn, wrapped}
use vulcan.Repository.Tests.{get_tests}
use vulcan.Repository.Workers.{get_workers}
use vulcan.Autoscaler.Capacity.{desired_capacity, pending_capacity}
use vulcan.Autoscaler.Capacity.Demand.{
  demand, demands_now, demands_soon, is_sound, capacities-demand,
}
use vulcan.Autoscaler.Reconciler.{
  Provisioner, is_autoscaler_managed_worker, count_actual, idle_workers, fleet_target,
  scale_down_candidates, is_usable, scale_up, scale_down, adjust, reconcile,
}

-- The statuses in which a worker serves a test or could.
abbrev pub serves : WorkerStatus → Bool
serves WorkerStatus.idle = true
serves WorkerStatus.reserved = true
serves WorkerStatus.running = true
serves WorkerStatus.draining = false
serves WorkerStatus.offline = false

is_usable-serves : (s : WorkerStatus) → is_usable s ≡ serves s
is_usable-serves WorkerStatus.idle = refl
is_usable-serves WorkerStatus.reserved = refl
is_usable-serves WorkerStatus.running = refl
is_usable-serves WorkerStatus.draining = refl
is_usable-serves WorkerStatus.offline = refl

count_actual-serves : (ws : List Worker) → count_actual ws ≡ count_by (λ w. serves w.status) ws
unfolding count_actual
count_actual-serves [] = refl
count_actual-serves (w ∷ ws) = rw (is_usable-serves w.status, count_actual-serves ws) refl

count_by_le : {A : Type 0} (p : A → Bool) (xs : List A) → count_by p xs ≤ length xs
count_by_le p [] = omega arith
count_by_le p (x ∷ xs) = ground (arith, count_by_le p xs)

trichotomy : (a b : ℕ) → (a < b) ⊎ ((a ≡ b) ⊎ (b < a))
trichotomy a b = ground arith

abbrev pub larger : ℕ → ℕ → ℕ
larger a b = if ltb a b then b else a

larger_le : (a b : ℕ) {n : ℕ} → a ≤ n → b ≤ n → larger a b ≤ n
larger_le a b h k = ground arith

fleet_target-pos : (d p : ℕ) → fleet_target (pos d) (pos p) ≡ pos (larger d p)
unfolding fleet_target
fleet_target-pos d p = ground arith

module _ (env : Env) (provisioner : Provisioner) {a t : ℕ} (idle : List Worker) (c : Conn) where
  adjust_up :
      a < t
      → t ≤ max_int
      → adjust env provisioner (pos a) (pos t) idle c
        ≡ wrapped "provision workers" (provisioner.provision (pos (t - a))) c
  unfolding adjust scale_up
  adjust_up h k = rw (sub64-pos t a (omega arith) k) (ground arith)

  adjust_down :
      t < a
      → a ≤ max_int
      → adjust env provisioner (pos a) (pos t) idle c
        ≡ scale_down env provisioner (pos (a - t)) idle c
  unfolding adjust
  adjust_down h k = rw (sub64-pos a t (omega arith) k) (ground arith)

  adjust_even : a ≡ t → adjust env provisioner (pos a) (pos t) idle c ≡ (ok tt, c)
  unfolding adjust
  adjust_even h = ground arith

adjust-cases :
    (env : Env) (provisioner : Provisioner) (a t : ℕ) (idle : List Worker) (c : Conn)
    → a ≤ max_int
    → t ≤ max_int
    → ((a < t)
        × (adjust env provisioner (pos a) (pos t) idle c
            ≡ wrapped "provision workers" (provisioner.provision (pos (t - a))) c))
      ⊎ (((a ≡ t) × (adjust env provisioner (pos a) (pos t) idle c ≡ (ok tt, c)))
          ⊎ ((t < a)
              × (adjust env provisioner (pos a) (pos t) idle c
                  ≡ scale_down env provisioner (pos (a - t)) idle c)))
adjust-cases env provisioner a t idle c h k = elim (trichotomy a t) [
  | inl less ↦ inl (less, adjust_up env provisioner idle c less k)
  | inr (inl even) ↦ inr (inl (even, adjust_even env provisioner idle c even))
  | inr (inr more) ↦ inr (inr (more, adjust_down env provisioner idle c more h))
]

module _ (env : Env) (provisioner : Provisioner) (capacity : ℤ) (c : Conn) where
  -- The tables as the two reads of the cycle see them, and the connection after them.
  abbrev pub tests_seen : List Test
  tests_seen = sort_desc (λ t. t.created_at) (env.others c.calls c.db).tests

  abbrev db_seen : Db
  db_seen = env.others (suc c.calls) (env.others c.calls c.db)

  abbrev pub workers_seen : List Worker
  workers_seen = sort_desc (λ w. w.registered_at) db_seen.workers

  abbrev pub after_reads : Conn
  after_reads = record c { db = db_seen; calls = suc (suc c.calls) }

  reconcile-adjust :
      (d p : ℕ)
      → env.fails c.calls ≡ false
      → env.fails (suc c.calls) ≡ false
      → desired_capacity tests_seen capacity ≡ ok (pos d)
      → pending_capacity tests_seen capacity ≡ ok (pos p)
      → reconcile env provisioner capacity c
        ≡ adjust env provisioner
            (pos (count_actual workers_seen))
            (pos (larger d p))
            (idle_workers workers_seen)
            after_reads
  unfolding reconcile get_tests get_workers
  reconcile-adjust d p h k e f = ground (arith, fleet_target-pos d p)

  -- The workers that serve or could.
  abbrev pub serving : ℕ
  serving = count_by (λ w. serves w.status) workers_seen

module _ (env : Env) (provisioner : Provisioner) (capacity : ℕ) (c : Conn) where
  -- The least number of workers for the STARTING and RUNNING tests, or for the CREATED ones if that is
  -- more.
  abbrev pub wanted : ℕ
  wanted =
      let ts = tests_seen env provisioner (pos capacity) c in
      larger (demand demands_now capacity ts) (demand demands_soon capacity ts)

  abbrev missing : ℕ
  missing = wanted - serving env provisioner (pos capacity) c

  abbrev spare : ℕ
  spare = serving env provisioner (pos capacity) c - wanted

  -- One cycle of the autoscaler that has read both tables compares the IDLE, RESERVED and RUNNING
  -- workers with the larger of two demands: the least number of workers for each STARTING and RUNNING
  -- test, added up, and that for the CREATED tests. With fewer workers than that, the cycle is one call
  -- of the provisioner for exactly those that are missing; with as many it does nothing more; and with
  -- more it is a scale-down by the excess over the IDLE workers. For a positive capacity, positive rates
  -- that fit, and sums and a number of workers that fit in an `int`.
  pub reconcile_decides :
      0 < capacity
      → env.fails c.calls ≡ false
      → env.fails (suc c.calls) ≡ false
      → let ts = tests_seen env provisioner (pos capacity) c in
        let ws = workers_seen env provisioner (pos capacity) c in
        let after = after_reads env provisioner (pos capacity) c in
        let cycle = reconcile env provisioner (pos capacity) c in
        All (λ t. is_sound demands_now capacity t ≡ true) ts
        → All (λ t. is_sound demands_soon capacity t ≡ true) ts
        → demand demands_now capacity ts ≤ max_int
        → demand demands_soon capacity ts ≤ max_int
        → length ws ≤ max_int
        → ((serving env provisioner (pos capacity) c < wanted)
            × (cycle ≡ wrapped "provision workers" (provisioner.provision (pos missing)) after))
          ⊎ (((serving env provisioner (pos capacity) c ≡ wanted) × (cycle ≡ (ok tt, after)))
              ⊎ ((wanted < serving env provisioner (pos capacity) c)
                  × (cycle
                      ≡ scale_down env provisioner
                          (pos spare)
                          (filter_by (λ w. worker_status_eq w.status WorkerStatus.idle) ws)
                          after)))
  unfolding count_actual idle_workers
  reconcile_decides some_capacity h k now soon f g few =
      let ts = tests_seen env provisioner (pos capacity) c in
      let ws = workers_seen env provisioner (pos capacity) c in
      let after = after_reads env provisioner (pos capacity) c in
      let (d, p) = capacities-demand capacity ts some_capacity now soon f g in
      let read =
        reconcile-adjust env provisioner (pos capacity) c (demand demands_now capacity ts)
          (demand demands_soon capacity ts) h k d p
        ∙ ap (λ n. adjust env provisioner (pos n) (pos wanted) (idle_workers ws) after)
            (count_actual-serves ws) in
      let low = larger_le (demand demands_now capacity ts) (demand demands_soon capacity ts) f g in
      elim (adjust-cases env provisioner (serving env provisioner (pos capacity) c) wanted
        (idle_workers ws) after (omega (arith, count_by_le (λ w. serves w.status) ws, few)) low) [
          | inl (less, e) ↦ inl (less, read ∙ e)
          | inr (inl (even, e)) ↦ inr (inl (even, read ∙ e))
          | inr (inr (more, e)) ↦ inr (inr (more, read ∙ e))
        ]

-- The candidates for scale-down are at most as many as the excess; each comes from the list it was
-- given, so satisfies all that its members do, and carries the hostname of a worker that the
-- autoscaler started.
pub scale_down_candidates_lem :
    (P : Worker → Type 0) (e : ℕ) (idle : List Worker)
    → All P idle
    → (length (scale_down_candidates (pos e) idle) ≤ e)
      × All P (scale_down_candidates (pos e) idle)
      × All
          (λ w. is_autoscaler_managed_worker w.hostname ≡ true)
          (scale_down_candidates (pos e) idle)
unfolding scale_down_candidates
scale_down_candidates_lem P e idle h = elim (Bool-cases (ltb_ℤ (pos e) (pos (length eligible)))) [
  | inl more ↦
      rw more (length-take_le e eligible, All-take _ e eligible held, All-take _ e eligible managed)
  | inr few ↦ rw few (ground arith, held, managed)
]
  where
    eligible : List Worker
    eligible = filter_by (λ w. is_autoscaler_managed_worker w.hostname) idle

    held : All P eligible
    held = All-filter_by P (λ w. is_autoscaler_managed_worker w.hostname) idle h

    managed : All (λ w. is_autoscaler_managed_worker w.hostname ≡ true) eligible
    managed = filter_by-All (λ w. is_autoscaler_managed_worker w.hostname) idle
