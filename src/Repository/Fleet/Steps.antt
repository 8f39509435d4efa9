-- ===== src/Repository/Fleet/Steps.antt =====
-- Every operation on the database, and any sequence of them, keeps the fleet.
use vulcan.Prelude.{
  ℕ, suc, String, ◌≡◌, sym, ◌∙◌, inl, inr, Bool, true, List, [], ◌∷◌, arith, update_where,
  filter_by, All, ℤ, str_eq, pos_part,
}
use vulcan.Models.{Worker, WorkerStatus}
use vulcan.Driver.{Env, Conn}
use vulcan.Repository.Rows.{any_id, worker_is, workers_in, set_worker, worker_ids}
use vulcan.Repository.Workers.{beat, is_dead, terminate_idle_workers}
use vulcan.Repository.Tables.{kept, added, Pointwise-refl, All-every, All-both}
use vulcan.Repository.Keys.{Keyed, selected, chosen_idle}
use vulcan.Repository.Effects.{
  found, chosen_at, reserve_effect, running_effect, completed_effect, failed_effect, lost_effect,
  release_effect, terminate_effect, beat_effect, offline_effect, register_effect,
}
use vulcan.Repository.History.{
  Op, register, beats, expire, reserve, release, start, complete, fail, sweep, terminate, perform,
  run_ops,
}
use vulcan.Repository.Fleet.{
  Ages, Ages-refl, FleetKept, any_by-worker_ids, FleetKept-refl, FleetKept-trans,
  update_where-FleetKept, update_by_status-FleetKept, OthersKeepFleet,
}

module _ (env : Env) (rely : OthersKeepFleet env) (c : Conn) (k : Keyed c.db.workers) where
  seen : FleetKept c.db.workers (found env c).workers
  seen = rely c.calls c.db k

  by_status :
      (p : Worker → Bool) (f : Worker → Worker)
      → ((w : Worker) → p w ≡ true → Ages w (f w))
      → FleetKept c.db.workers (update_where p f (found env c).workers)
  by_status p f h =
      FleetKept-trans _ _ _ seen (update_by_status-FleetKept p f (found env c).workers seen.keyed h)

  -- An update by the identifiers of selected rows, where only rows with `q` are selected.
  by_key :
      {q : Worker → Bool} (rows : List Worker) (f : Worker → Worker)
      → All (λ w. any_id (worker_ids rows) w.id ≡ true → q w ≡ true) (found env c).workers
      → ((w : Worker) → q w ≡ true → Ages w (f w))
      → FleetKept c.db.workers
          (update_where (λ w. any_id (worker_ids rows) w.id) f (found env c).workers)
  by_key {q} rows f a h = FleetKept-trans _ _ _ seen (
      update_where-FleetKept (λ w. any_id (worker_ids rows) w.id) f (found env c).workers seen.keyed
        (All-both (λ _. Unit {0}) _ _ (λ w _ s i. h w (s i)) (found env c).workers
          (All-every _ (λ _. tt) (found env c).workers) a))

  register-FleetKept : (w : Worker) → FleetKept c.db.workers (perform env (register w) c).db.workers
  unfolding perform
  register-FleetKept w = elim (register_effect env w c) [
    | inl e ↦ rw e seen
    | inr (fresh, e) ↦ rw e (
        FleetKept-trans _ _ _ seen (record {
          evolved = added w (kept (Pointwise-refl Ages Ages-refl (found env c).workers));
          keyed = (sym (any_by-worker_ids w.id _) ∙ fresh, seen.keyed);
        }))
  ]

  beats-FleetKept :
      (id : String) (status : WorkerStatus)
      → FleetKept c.db.workers (perform env (beats id status) c).db.workers
  unfolding perform
  beats-FleetKept id status = elim (beat_effect env id status c) [
    | inl e ↦ rw e seen
    | inr e ↦
        rw e
          (by_status (λ w. str_eq w.id id) (beat status (env.clock c.calls)) (λ w h. ground arith))
  ]

  expire-FleetKept :
      (cutoff : ℕ) → FleetKept c.db.workers (perform env (expire cutoff) c).db.workers
  unfolding perform
  expire-FleetKept cutoff = elim (offline_effect env cutoff c) [
    | inl e ↦ rw e seen
    | inr e ↦ rw e (
        by_status (is_dead cutoff) (set_worker WorkerStatus.offline (env.clock c.calls))
          (λ w h. ground arith))
  ]

  start-FleetKept :
      (test worker : String) → FleetKept c.db.workers (perform env (start test worker) c).db.workers
  unfolding perform
  start-FleetKept test worker = elim (running_effect env test worker c) [
    | inl e ↦ rw e seen
    | inr e ↦ rw e (
        by_status (worker_is worker WorkerStatus.reserved)
          (set_worker WorkerStatus.running (env.clock (suc (suc c.calls)))) (λ w h. ground arith))
  ]

  complete-FleetKept :
      (test worker : String)
      → FleetKept c.db.workers (perform env (complete test worker) c).db.workers
  unfolding perform
  complete-FleetKept test worker = elim (completed_effect env test worker c) [
    | inl e ↦ rw e seen
    | inr (inl (_, e)) ↦ rw e idled
    | inr (inr (_, e)) ↦ rw e idled
  ]
    where
      idled : FleetKept c.db.workers (
          update_where
            (worker_is worker WorkerStatus.running)
            (set_worker WorkerStatus.idle (env.clock (suc (suc (suc c.calls)))))
            (found env c).workers)
      idled = by_status (worker_is worker WorkerStatus.running) _ (λ w h. ground arith)

  fail-FleetKept :
      (test worker : String) → FleetKept c.db.workers (perform env (fail test worker) c).db.workers
  unfolding perform
  fail-FleetKept test worker = elim (failed_effect env test worker c) [
    | inl e ↦ rw e seen
    | inr e ↦ rw e seen
  ]

  sweep-FleetKept : FleetKept c.db.workers (perform env sweep c).db.workers
  unfolding perform
  sweep-FleetKept = elim (lost_effect env c) [ inl e ↦ rw e seen | inr e ↦ rw e seen ]

  release-FleetKept :
      (test : String) → FleetKept c.db.workers (perform env (release test) c).db.workers
  unfolding perform
  release-FleetKept test = elim (release_effect env test c) [
    | inl e ↦ rw e seen
    | inr e ↦ rw e (
        by_status _ (set_worker WorkerStatus.idle (env.clock (suc (suc c.calls))))
          (λ w h. ground arith))
  ]

  reserve-FleetKept :
      (test : String) (count : ℤ) (shares : List ℕ)
      → FleetKept c.db.workers (perform env (reserve test count shares) c).db.workers
  unfolding perform
  reserve-FleetKept test count shares = elim (reserve_effect env test count shares c) [
    | inl e ↦ rw e seen
    | inr e ↦ rw e (
        by_key (chosen_at env count c)
          (set_worker WorkerStatus.reserved (env.clock (suc (suc c.calls))))
          (chosen_idle (env.locked (suc c.calls)) (pos_part count) (found env c).workers seen.keyed)
          (λ w h. ground arith))
  ]

  terminate-FleetKept :
      (ids : List String) → FleetKept c.db.workers (perform env (terminate ids) c).db.workers
  unfolding perform terminate_idle_workers
  terminate-FleetKept [] = FleetKept-refl c.db.workers k
  terminate-FleetKept (id ∷ ids) = elim (terminate_effect env id ids c) [
    | inl e ↦ rw e seen
    | inr e ↦ rw e (
        by_key (filter_by (workers_in (id ∷ ids) WorkerStatus.idle) (found env c).workers)
          (set_worker WorkerStatus.draining (env.clock (suc (suc c.calls))))
          (selected (workers_in (id ∷ ids) WorkerStatus.idle) (found env c).workers seen.keyed)
          (λ w h. ground arith))
  ]

-- No operation loses a worker, gives it another identity or registers an identifier twice, and
-- none takes a worker out of DRAINING (but to OFFLINE) or out of OFFLINE. This holds for each
-- operation, with every pattern of failing calls, in a table whose identifiers differ, if what
-- the other clients commit in between keeps to the same rule.
pub perform-FleetKept :
    (env : Env)
    → OthersKeepFleet env
    → (op : Op) (c : Conn) → Keyed c.db.workers
    → FleetKept c.db.workers (perform env op c).db.workers
perform-FleetKept env rely (register w) c k = register-FleetKept env rely c k w
perform-FleetKept env rely (beats id status) c k = beats-FleetKept env rely c k id status
perform-FleetKept env rely (expire cutoff) c k = expire-FleetKept env rely c k cutoff
perform-FleetKept env rely (reserve test count shares) c k =
    reserve-FleetKept env rely c k test count shares
perform-FleetKept env rely (release test) c k = release-FleetKept env rely c k test
perform-FleetKept env rely (start test worker) c k = start-FleetKept env rely c k test worker
perform-FleetKept env rely (complete test worker) c k = complete-FleetKept env rely c k test worker
perform-FleetKept env rely (fail test worker) c k = fail-FleetKept env rely c k test worker
perform-FleetKept env rely sweep c k = sweep-FleetKept env rely c k
perform-FleetKept env rely (terminate ids) c k = terminate-FleetKept env rely c k ids

-- Any sequence of operations on workers and assignments, each of which may fail, keeps every worker
-- in the table with its identifier, hostname and registration time, and the identifiers stay
-- different; a worker that is DRAINING can only become OFFLINE, and an OFFLINE one stays so. This
-- holds if the identifiers differ at first and the other clients of the database keep all this too.
pub run_ops-FleetKept :
    (env : Env)
    → OthersKeepFleet env
    → (ops : List Op) (c : Conn) → Keyed c.db.workers
    → FleetKept c.db.workers (run_ops env ops c).db.workers
unfolding run_ops
run_ops-FleetKept env rely [] c k = FleetKept-refl c.db.workers k
run_ops-FleetKept env rely (op ∷ ops) c k =
    let h = perform-FleetKept env rely op c k in
    FleetKept-trans _ _ _ h (run_ops-FleetKept env rely ops (perform env op c) h.keyed)
