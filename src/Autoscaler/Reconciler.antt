-- ===== src/Autoscaler/Reconciler.antt =====
-- internal/autoscaler/reconciler.go: one cycle of the fleet autoscaler. The mutex lets one cycle
-- run at a time, so a cycle is one call here. The provisioner is another component, behind the
-- interface of internal/provisioner.
pub mod Decision
pub mod Floor
use vulcan.Prelude.{
  ℕ, String, Bool, true, false, Option, none, some, List, [], ◌∷◌, ltb, if◌then◌else◌, length, take,
  filter_by, count_by, map, ℤ, pos, pos_part, leb_ℤ, ltb_ℤ, sub64, str_eq,
}
use text.Mathlib.Text.{starts_with}
use vulcan.Errors.{message, cancelled, Result, ok, err}
use vulcan.Models.{Worker, WorkerStatus, worker_status_eq}
use vulcan.Ticker.{Signal, tick, done}
use vulcan.Driver.{Env, Conn, M, ◌>>=◌, ◌>>◌, pure, lift, wrapped}
use vulcan.Repository.Tests.{get_tests}
use vulcan.Repository.Workers.{get_workers, terminate_idle_workers}
use vulcan.Autoscaler.Capacity.{desired_capacity, pending_capacity}

-- The interface `provisioner.Provisioner`.
pub record Provisioner : Type 0 where
  pub provision : ℤ → M (Unit {0})
  pub terminate : List String → M (Unit {0})

unfoldable pub is_autoscaler_managed_worker : String → Bool
is_autoscaler_managed_worker hostname = starts_with hostname "vulcan-auto-worker-"

-- `case` of the switch: usable capacity is IDLE, RESERVED or RUNNING.
abbrev pub is_usable : WorkerStatus → Bool
is_usable WorkerStatus.idle = true
is_usable WorkerStatus.reserved = true
is_usable WorkerStatus.running = true
is_usable _ = false

unfoldable pub count_actual : List Worker → ℕ
count_actual ws = count_by (λ w. is_usable w.status) ws

unfoldable pub idle_workers : List Worker → List Worker
idle_workers ws = filter_by (λ w. worker_status_eq w.status WorkerStatus.idle) ws

unfoldable pub fleet_target : ℤ → ℤ → ℤ
fleet_target desired pending = if ltb_ℤ desired pending then pending else desired

-- The candidates: the first `excess` of the idle workers that the autoscaler started itself.
unfoldable pub scale_down_candidates : ℤ → List Worker → List Worker
unfolding is_autoscaler_managed_worker
scale_down_candidates excess idle =
    let eligible = filter_by (λ w. is_autoscaler_managed_worker w.hostname) idle in
    if ltb_ℤ excess (pos (length eligible)) then take (pos_part excess) eligible else eligible

-- `hostnameByID[id]`; a later entry overwrites an earlier one.
abbrev pub hostname_by_id : List Worker → String → Option String
hostname_by_id [] id = none
hostname_by_id (w ∷ ws) id = elim (hostname_by_id ws id) [
  | some h ↦ some h
  | none ↦ if str_eq w.id id then some w.hostname else none
]

abbrev pub add_hostname : Option String → List String → List String
add_hostname none rest = rest
add_hostname (some h) rest = h ∷ rest

abbrev pub hostnames_of : List Worker → List String → List String
hostnames_of ws [] = []
hostnames_of ws (id ∷ ids) = add_hostname (hostname_by_id ws id) (hostnames_of ws ids)

module _ (env : Env) (provisioner : Provisioner) where
  open provisioner use {provision, terminate}

  unfoldable pub scale_up : ℤ → M (Unit {0})
  scale_up count =
      if leb_ℤ count (pos 0) then pure tt else wrapped "provision workers" (provision count)

  unfoldable pub terminate_hosts : List String → M (Unit {0})
  terminate_hosts [] = pure tt
  terminate_hosts (h ∷ hs) = wrapped "terminate workers" (terminate (h ∷ hs))

  -- Past the tests for nothing to do, over the candidates.
  unfoldable pub drain : List Worker → M (Unit {0})
  drain [] = pure tt
  drain (w ∷ ws) = do
    draining ←
        wrapped "mark workers for termination"
          (terminate_idle_workers env (map (λ v. v.id) (w ∷ ws)))
    terminate_hosts (hostnames_of (w ∷ ws) draining)

  unfoldable pub scale_down : ℤ → List Worker → M (Unit {0})
  scale_down excess idle =
      if leb_ℤ excess (pos 0) then pure tt else drain (scale_down_candidates excess idle)

  unfoldable pub adjust : ℤ → ℤ → List Worker → M (Unit {0})
  adjust actual target idle =
      if ltb_ℤ actual target
      then scale_up (sub64 target actual)
      else if ltb_ℤ target actual
      then scale_down (sub64 actual target) idle
      else pure tt

  unfoldable pub reconcile : ℤ → M (Unit {0})
  reconcile capacity = do
    tests ← wrapped "get tests" (get_tests env)
    desired ← wrapped "calculate desired capacity" (lift (desired_capacity tests capacity))
    pending ← wrapped "calculate pending capacity" (lift (pending_capacity tests capacity))
    workers ← wrapped "get workers" (get_workers env)
    adjust (pos (count_actual workers)) (fleet_target desired pending) (idle_workers workers)

  -- Each round of `Run`: an error is logged, and the next tick tries again.
  unfoldable pub run_once : ℤ → Conn → Conn
  run_once capacity c = (reconcile capacity c).1

  autoscaler_loop : ℤ → List Signal → Conn → Option (Result (Unit {0})) × Conn
  autoscaler_loop capacity [] c = (none, c)
  autoscaler_loop capacity (done ∷ signals) c = (some (err cancelled), c)
  autoscaler_loop capacity (tick ∷ signals) c =
      autoscaler_loop capacity signals (run_once capacity c)

  -- `Run`, where the context may be cancelled before; no result while the loop waits.
  unfoldable pub run : ℤ → ℤ → Bool → List Signal → Conn → Option (Result (Unit {0})) × Conn
  unfolding autoscaler_loop
  run capacity interval is_cancelled signals c =
      if leb_ℤ interval (pos 0)
      then (some (err (message "reconciliation interval must be greater than zero")), c)
      else if is_cancelled
      then (some (err cancelled), c)
      else autoscaler_loop capacity signals (run_once capacity c)
