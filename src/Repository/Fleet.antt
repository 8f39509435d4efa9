-- ===== src/Repository/Fleet.antt =====
-- What no operation on the table of workers does, whoever else uses the database: it loses no
-- worker, gives none another identity, and hands out none that is DRAINING or OFFLINE.
pub mod Steps
use vulcan.Prelude.{
  ℕ, suc, String, ◌≡◌, refl, sym, ◌∙◌, ◌⊎◌, inl, inr, Bool, true, false, List, [], ◌∷◌, arith,
  any_by, update_where, filter_by, All, ℤ, str_eq, pos_part,
}
use vulcan.Models.{Worker, WorkerStatus, worker_status_eq}
use vulcan.Driver.{Db, Env, Conn}
use vulcan.Repository.Rows.{any_id, worker_is, workers_in, set_worker, worker_ids}
use vulcan.Repository.Workers.{beat, is_dead, terminate_idle_workers}
use vulcan.Repository.Tables.{
  Pointwise, Evolved, kept, added, Pointwise-refl, update_where-Pointwise, Evolved-trans, All-every,
  All-both,
}
use vulcan.Repository.Keys.{Keyed, selected, chosen_idle}
use vulcan.Repository.Effects.{
  found, chosen_at, reserve_effect, running_effect, completed_effect, failed_effect, lost_effect,
  release_effect, terminate_effect, beat_effect, offline_effect, register_effect,
}
use vulcan.Repository.History.{
  Op, register, beats, expire, reserve, release, start, complete, fail, sweep, terminate, perform,
  run_ops,
}

-- DRAINING may only go OFFLINE, and OFFLINE nowhere.
abbrev pub may_become : WorkerStatus → WorkerStatus → Bool
may_become WorkerStatus.draining WorkerStatus.draining = true
may_become WorkerStatus.draining WorkerStatus.offline = true
may_become WorkerStatus.offline WorkerStatus.offline = true
may_become WorkerStatus.draining _ = false
may_become WorkerStatus.offline _ = false
may_become _ _ = true

-- The worker is the same one, and has not come back from DRAINING or OFFLINE.
pub record Ages (w v : Worker) : Type 0 where
  pub same_id : v.id ≡ w.id
  pub same_hostname : v.hostname ≡ w.hostname
  pub same_registration : v.registered_at ≡ w.registered_at
  pub moves : may_become w.status v.status ≡ true

Ages-refl : (w : Worker) → Ages w w
Ages-refl w = ground arith

Ages-trans : (u v w : Worker) → Ages u v → Ages v w → Ages u w
Ages-trans u v w h k = ground arith

pub record FleetKept (ws vs : List Worker) : Type 0 where
  pub evolved : Evolved Ages ws vs
  pub keyed : Keyed vs

-- An update whose rows are neither DRAINING nor OFFLINE, or go to OFFLINE.
Ages-set :
    (to : WorkerStatus) (now : ℕ) (w : Worker)
    → ((worker_status_eq w.status WorkerStatus.draining ≡ false)
        × (worker_status_eq w.status WorkerStatus.offline ≡ false))
      ⊎ (to ≡ WorkerStatus.offline)
    → Ages w (set_worker to now w)
Ages-set to now w h = ground arith

worker_ids-Pointwise : (ws vs : List Worker) → Pointwise Ages ws vs → worker_ids vs ≡ worker_ids ws
worker_ids-Pointwise [] [] h = refl
worker_ids-Pointwise [] (v ∷ vs) h = elim h [ ]
worker_ids-Pointwise (w ∷ ws) [] h = elim h [ ]
worker_ids-Pointwise (w ∷ ws) (v ∷ vs) h = cc (h.0.same_id, worker_ids-Pointwise ws vs h.1)

Keyed-Pointwise : (ws vs : List Worker) → Pointwise Ages ws vs → Keyed ws → Keyed vs
Keyed-Pointwise [] [] h k = tt
Keyed-Pointwise [] (v ∷ vs) h k = elim h [ ]
Keyed-Pointwise (w ∷ ws) [] h k = elim h [ ]
Keyed-Pointwise (w ∷ ws) (v ∷ vs) h k =
    (rw (worker_ids-Pointwise ws vs h.1, h.0.same_id) k.0, Keyed-Pointwise ws vs h.1 k.1)

any_by-worker_ids :
    (id : String) (ws : List Worker) → any_by (λ v. str_eq v.id id) ws ≡ any_id (worker_ids ws) id
any_by-worker_ids id [] = refl
any_by-worker_ids id (w ∷ ws) = ground (arith, any_by-worker_ids id ws)

pub FleetKept-refl : (ws : List Worker) → Keyed ws → FleetKept ws ws
FleetKept-refl ws k = record { evolved = kept (Pointwise-refl Ages Ages-refl ws); keyed = k }

pub FleetKept-trans : (us vs ws : List Worker) → FleetKept us vs → FleetKept vs ws → FleetKept us ws
FleetKept-trans us vs ws h k = record {
  evolved = Evolved-trans Ages Ages-trans us vs ws h.evolved k.evolved;
  keyed = k.keyed;
}

update_where-FleetKept :
    (p : Worker → Bool) (f : Worker → Worker) (ws : List Worker)
    → Keyed ws
    → All (λ w. p w ≡ true → Ages w (f w)) ws
    → FleetKept ws (update_where p f ws)
update_where-FleetKept p f ws k a =
    let h = update_where-Pointwise Ages Ages-refl p f ws a in
    record { evolved = kept h; keyed = Keyed-Pointwise ws (update_where p f ws) h k }

-- An update by status, whatever else its WHERE asks.
update_by_status-FleetKept :
    (p : Worker → Bool) (f : Worker → Worker) (ws : List Worker)
    → Keyed ws
    → ((w : Worker) → p w ≡ true → Ages w (f w))
    → FleetKept ws (update_where p f ws)
update_by_status-FleetKept p f ws k h =
    update_where-FleetKept p f ws k (All-every (λ w. p w ≡ true → Ages w (f w)) h ws)

-- The other clients of the database keep the fleet as the operations here do.
abbrev pub OthersKeepFleet : Env → Type 0
OthersKeepFleet env =
    (n : ℕ) (d : Db) → Keyed d.workers → FleetKept d.workers (env.others n d).workers
