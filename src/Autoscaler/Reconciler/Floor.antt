-- ===== src/Autoscaler/Reconciler/Floor.antt =====
-- How far a scale-down can shrink the fleet: by IDLE workers only, and by no more than was asked.
use vulcan.Prelude.{
  ℕ, suc, String, ◌+◌, ◌≤◌, ◌≡◌, refl, ◌∙◌, ◌⊎◌, inl, inr, Bool, true, false, ◌||◌, List, [], ◌∷◌,
  arith, length, count_by, update_where, filter_by, map, All, pos, str_eq, leb_ℤ, eq_iff,
  Bool-cases,
}
use vulcan.Models.{Worker, WorkerStatus}
use vulcan.Driver.{Env, Conn, wrapped}
use vulcan.Driver.Frames.{bind-db, wrapped-db}
use vulcan.Repository.Rows.{any_id, worker_ids, workers_in, set_worker}
use vulcan.Repository.Workers.{terminate_idle_workers}
use vulcan.Repository.Keys.{Keyed, selected, str_eq_comm}
use vulcan.Repository.Tables.{
  Pointwise, Pointwise-refl, update_where-Pointwise, All-every, All-both,
}
use native.Mathlib.Nat.{le_trans}
use vulcan.Repository.Effects.{found, terminate_effect}
use vulcan.Autoscaler.Reconciler.{
  Provisioner, is_usable, count_actual, scale_down, scale_down_candidates, drain, terminate_hosts,
  hostnames_of,
}
use vulcan.Autoscaler.Reconciler.Decision.{scale_down_candidates_lem}

-- A worker that is left alone, or one of those asked for that goes from IDLE to DRAINING.
abbrev pub Drains : List String → Worker → Worker → Type 0
Drains ids w v =
    (v ≡ w)
    ⊎ ((any_id ids w.id ≡ true)
        × (w.status ≡ WorkerStatus.idle)
        × (v.status ≡ WorkerStatus.draining)
        × (v.id ≡ w.id))

length-worker_ids : (ws : List Worker) → length (worker_ids ws) ≡ length ws
length-worker_ids [] = refl
length-worker_ids (w ∷ ws) = omega (arith, length-worker_ids ws)

count_by-absent :
    (id : String) (ws : List Worker)
    → any_id (worker_ids ws) id ≡ false
    → count_by (λ w. str_eq id w.id) ws ≡ 0
count_by-absent id [] h = refl
count_by-absent id (w ∷ ws) h = ground (arith, str_eq_comm id w.id, count_by-absent id ws)

-- A key selects at most one row, and a list of keys at most one for each of its members.
count_by-key : (id : String) (ws : List Worker) → Keyed ws → count_by (λ w. str_eq id w.id) ws ≤ 1
count_by-key id [] k = omega arith
count_by-key id (w ∷ ws) k = elim (Bool-cases (str_eq id w.id)) [
  | inl e ↦
      let same : id ≡ w.id = (eq_iff id w.id).0 e in
      rw (e, count_by-absent id ws (rw same k.0)) (omega arith)
  | inr e ↦ rw e (count_by-key id ws k.1)
]

module _ {A : Type 0} (p q : A → Bool) where
  count_by-or : (xs : List A) → count_by (λ x. p x || q x) xs ≤ count_by p xs + count_by q xs
  count_by-or [] = omega arith
  count_by-or (x ∷ xs) = ground (arith, count_by-or xs)

  count_by_mono :
      (xs : List A) → All (λ x. p x ≡ true → q x ≡ true) xs → count_by p xs ≤ count_by q xs
  count_by_mono [] h = omega arith
  count_by_mono (x ∷ xs) h = elim (Bool-cases (p x)) [
    | inl e ↦ rw (e, h.0 e) (omega (arith, count_by_mono xs h.1))
    | inr e ↦ rw e (ground (arith, count_by_mono xs h.1))
  ]

  -- An update can take away at most the rows that it touches.
  count_by-update :
      (f : A → A) (xs : List A) → count_by p xs ≤ count_by p (update_where q f xs) + count_by q xs
  count_by-update f [] = omega arith
  count_by-update f (x ∷ xs) = ground (arith, count_by-update f xs)

count_by-none : {A : Type 0} (xs : List A) → count_by (λ _. false) xs ≡ 0
count_by-none [] = refl
count_by-none (x ∷ xs) = count_by-none xs

count_by-any_id :
    (ids : List String) (ws : List Worker)
    → Keyed ws
    → count_by (λ w. any_id ids w.id) ws ≤ length ids
count_by-any_id [] ws k = omega (arith, count_by-none ws)
count_by-any_id (id ∷ ids) ws k = omega (
  arith,
  count_by-or (λ w. str_eq id w.id) (λ w. any_id ids w.id) ws,
  count_by-key id ws k,
  count_by-any_id ids ws k,
)

module _ (ids : List String) (now : ℕ) (ws : List Worker) (k : Keyed ws) where
  abbrev drained : List Worker
  drained =
      update_where (λ w. any_id (worker_ids (filter_by (workers_in ids WorkerStatus.idle) ws)) w.id)
        (set_worker WorkerStatus.draining now) ws

  few_drained :
      count_by (λ w. any_id (worker_ids (filter_by (workers_in ids WorkerStatus.idle) ws)) w.id) ws
      ≤ length ids
  few_drained =
      le_trans
        (count_by_mono _ (workers_in ids WorkerStatus.idle) ws
          (selected (workers_in ids WorkerStatus.idle) ws k))
        (le_trans
          (count_by_mono (workers_in ids WorkerStatus.idle) (λ w. any_id ids w.id) ws
            (All-every _ (λ w h. ground arith) ws))
          (count_by-any_id ids ws k))

  drained_floor : count_actual ws ≤ count_actual drained + length ids
  unfolding count_actual
  drained_floor = omega (
    arith,
    count_by-update (λ w. is_usable w.status)
        (λ w. any_id (worker_ids (filter_by (workers_in ids WorkerStatus.idle) ws)) w.id)
        (set_worker WorkerStatus.draining now) ws,
    few_drained,
  )

  drained_row :
      (w : Worker)
      → workers_in ids WorkerStatus.idle w ≡ true
      → Drains ids w (set_worker WorkerStatus.draining now w)
  drained_row w h = inr (ground arith, ground arith, refl, refl)

  drained_rows : Pointwise (Drains ids) ws drained
  drained_rows =
      update_where-Pointwise (Drains ids) (λ w. inl refl)
        (λ w. any_id (worker_ids (filter_by (workers_in ids WorkerStatus.idle) ws)) w.id)
        (set_worker WorkerStatus.draining now) ws
        (All-both (λ _. Unit {0}) _ _ (λ w _ s i. drained_row w (s i)) ws (All-every _ (λ _. tt) ws)
          (selected (workers_in ids WorkerStatus.idle) ws k))

-- The fleet lost at most `e` usable workers, each of them one of `ids` that was IDLE.
pub record Shrunk (ids : List String) (e : ℕ) (ws vs : List Worker) : Type 0 where
  pub floor : count_actual ws ≤ count_actual vs + e
  pub rows : Pointwise (Drains ids) ws vs

Shrunk-refl : (ids : List String) (e : ℕ) (ws : List Worker) → Shrunk ids e ws ws
Shrunk-refl ids e ws = record {
  floor = omega arith;
  rows = Pointwise-refl (Drains ids) (λ w. inl refl) ws;
}

-- In a table whose identifiers differ, a termination takes at most as many workers out of service
-- as it was asked for, only workers that it was asked for, and of these only IDLE ones: the others,
-- RESERVED and RUNNING ones among them, stay as they are. This holds whether it succeeds or fails.
terminate_idle_workers-Shrunk :
    (env : Env) (id : String) (ids : List String) (c : Conn)
    → Keyed (found env c).workers
    → Shrunk
        (id ∷ ids)
        (length (id ∷ ids))
        (found env c).workers
        (terminate_idle_workers env (id ∷ ids) c).1.db.workers
terminate_idle_workers-Shrunk env id ids c k = elim (terminate_effect env id ids c) [
  | inl e ↦ rw e (Shrunk-refl (id ∷ ids) (length (id ∷ ids)) (found env c).workers)
  | inr e ↦ rw e (record {
    floor = drained_floor (id ∷ ids) (env.clock (suc (suc c.calls))) (found env c).workers k;
    rows = drained_rows (id ∷ ids) (env.clock (suc (suc c.calls))) (found env c).workers k;
  })
]

module _ (env : Env) (provisioner : Provisioner)
    (untouched : (hosts : List String) (c : Conn)
      → (provisioner.terminate hosts c).1.db ≡ c.db) where
  terminate_hosts-db :
      (hosts : List String) (c : Conn) → (terminate_hosts env provisioner hosts c).1.db ≡ c.db
  unfolding terminate_hosts
  terminate_hosts-db [] c = refl
  terminate_hosts-db (h ∷ hs) c = ground (arith, untouched (h ∷ hs) c)

  drain-db :
      (w : Worker) (ws : List Worker) (c : Conn)
      → (drain env provisioner (w ∷ ws) c).1.db
        ≡ (terminate_idle_workers env (map (λ v. v.id) (w ∷ ws)) c).1.db
  unfolding drain
  drain-db w ws c =
      bind-db (λ ids. terminate_hosts env provisioner (hostnames_of (w ∷ ws) ids))
        (λ ids c'. terminate_hosts-db (hostnames_of (w ∷ ws) ids) c')
        (wrapped "mark workers for termination"
          (terminate_idle_workers env (map (λ v. v.id) (w ∷ ws))))
        c
      ∙ wrapped-db "mark workers for termination"
          (terminate_idle_workers env (map (λ v. v.id) (w ∷ ws))) c

  drain-Shrunk :
      (e : ℕ) (ws : List Worker) (c : Conn)
      → Keyed (found env c).workers
      → length ws ≤ e
      → ((drain env provisioner ws c).1.db ≡ c.db)
        ⊎ Shrunk (worker_ids ws) e (found env c).workers (drain env provisioner ws c).1.db.workers
  drain-Shrunk e [] c k h = inl (unfold drain in refl)
  drain-Shrunk e (w ∷ ws) c k h =
      let s = terminate_idle_workers-Shrunk env w.id (worker_ids ws) c k in
      inr (
        rw (drain-db w ws c)
          (record { floor = omega (arith, s.floor, length-worker_ids (w ∷ ws)); rows = s.rows }))

  -- A scale-down by an excess takes at most so many workers out of service, each of them an IDLE
  -- worker among its candidates, if identifiers differ and the provisioner does not write to the
  -- database; or it leaves the database as it was.
  pub scale_down-Shrunk :
      (e : ℕ) (idle : List Worker) (c : Conn)
      → Keyed (found env c).workers
      → ((scale_down env provisioner (pos e) idle c).1.db ≡ c.db)
        ⊎ Shrunk
            (worker_ids (scale_down_candidates (pos e) idle))
            e
            (found env c).workers
            (scale_down env provisioner (pos e) idle c).1.db.workers
  unfolding scale_down
  scale_down-Shrunk e idle c k =
      let (few, _, _) =
        scale_down_candidates_lem (λ _. Unit {0}) e idle (All-every _ (λ _. tt) idle) in
      elim (Bool-cases (leb_ℤ (pos e) (pos 0))) [
        | inl none ↦ rw none (inl refl)
        | inr some ↦ rw some (drain-Shrunk e (scale_down_candidates (pos e) idle) c k few)
      ]
