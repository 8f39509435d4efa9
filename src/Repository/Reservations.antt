-- ===== src/Repository/Reservations.antt =====
-- What a reservation of internal/repository/worker_repository.go grants, and when it must.
use vulcan.Prelude.{
  ℕ, zero, suc, String, ◌≡◌, refl, sym, ap, ◌∙◌, ◌≤◌, ◌<◌, Bool, true, false, not, ◌&&◌, List, [],
  ◌∷◌, ◌++◌, arith, length, take, filter_by, count_by, map, All, All-take, sort_desc-All,
  All-filter_by, update_where, any_by, Bool-cases, str_eq, ◌||◌, ◌⊎◌, inl, inr, filter_by-All,
  length-take_le, sort_desc-length, sort_desc, pos,
}
use vulcan.Errors.{ok, err, insufficient_workers}
use vulcan.Models.{Worker, WorkerStatus, worker_status_eq, Assignment, AssignmentStatus}
use vulcan.Driver.{Env, Conn}
use vulcan.Repository.Rows.{worker_ids, any_id, set_worker}
use vulcan.Repository.Tables.{Pointwise}
use mathlib.Core.List.{Mem, mem-cons_self, mem-cons_of_mem}
use vulcan.Repository.Workers.{
  idle_rows, assignment_rows, as_reserved, rejects_rows, reserve_rows, reserve_workers_for_test,
}
use vulcan.Repository.Effects.{found, chosen_at, reserved_db}

abbrev pub is_free : (Worker → Bool) → Worker → Bool
is_free locked w = worker_status_eq w.status WorkerStatus.idle && not (locked w)

idle_rows-All :
    (locked : Worker → Bool) (n : ℕ) (ws : List Worker)
    → All (λ w. is_free locked w ≡ true) (idle_rows locked n ws)
idle_rows-All locked n ws =
    All-take _ n (sort_desc (λ w. w.last_heartbeat) (filter_by (is_free locked) ws)) (
      sort_desc-All _ (λ w. w.last_heartbeat) (filter_by (is_free locked) ws)
        (filter_by-All (is_free locked) ws))

idle_rows-Mem :
    (locked : Worker → Bool) (n : ℕ) (ws : List Worker)
    → All (λ w. Mem w ws) (idle_rows locked n ws)
idle_rows-Mem locked n ws =
    All-take _ n (sort_desc (λ w. w.last_heartbeat) (filter_by (is_free locked) ws)) (
      sort_desc-All _ (λ w. w.last_heartbeat) (filter_by (is_free locked) ws)
        (All-filter_by _ (is_free locked) ws (all-Mem ws (λ w m. m))))
  where
    all-Mem : (xs : List Worker) → ((w : Worker) → Mem w xs → Mem w ws) → All (λ w. Mem w ws) xs
    all-Mem [] f = tt
    all-Mem (x ∷ xs) f = (f x mem-cons_self, all-Mem xs (λ w m. f w (mem-cons_of_mem _ m)))

-- What a reservation makes of a row: it is RESERVED if its identifier is among those that are handed out,
-- and else it stays as it was.
abbrev pub HandedOut : List Worker → Worker → Worker → Type 0
HandedOut granted v w =
    ((any_by (λ g. str_eq g.id v.id) granted ≡ true)
      × (w ≡ record v { status = WorkerStatus.reserved; updated_at = w.updated_at }))
    ⊎ ((any_by (λ g. str_eq g.id v.id) granted ≡ false) × (w ≡ v))

any_by-ids :
    (id : String) (ws : List Worker)
    → any_by (λ g. str_eq g.id id) (map as_reserved ws) ≡ any_id (worker_ids ws) id
any_by-ids id [] = refl
any_by-ids id (w ∷ ws) = ap (λ b. str_eq w.id id || b) (any_by-ids id ws)

handed_out :
    (now : ℕ) (chosen ws : List Worker)
    → Pointwise (HandedOut (map as_reserved chosen)) ws (
        update_where
          (λ w. any_id (worker_ids chosen) w.id)
          (set_worker WorkerStatus.reserved now)
          ws)
handed_out now chosen [] = tt
handed_out now chosen (w ∷ ws) = elim (Bool-cases (any_id (worker_ids chosen) w.id)) [
  | inl e ↦ rw e (inl (any_by-ids w.id chosen ∙ e, refl), handed_out now chosen ws)
  | inr e ↦ rw e (inr (any_by-ids w.id chosen ∙ e, refl), handed_out now chosen ws)
]

-- The new rows join the chosen workers to the shares, in order.
assignment_rows-columns :
    (test : String) (now : ℕ) (ws : List Worker) (shares : List ℕ)
    → length shares ≡ length ws
    → (map (λ a. a.worker_id) (assignment_rows test now ws shares) ≡ worker_ids ws)
      × (map (λ a. a.rps) (assignment_rows test now ws shares) ≡ shares)
      × All
          (λ a. (a.test_id ≡ test) × (a.status ≡ AssignmentStatus.reserved))
          (assignment_rows test now ws shares)
assignment_rows-columns test now [] [] h = (refl, refl, tt)
assignment_rows-columns test now [] (x ∷ xs) h = absurd (omega arith)
assignment_rows-columns test now (w ∷ ws) [] h = absurd (omega arith)
assignment_rows-columns test now (w ∷ ws) (x ∷ xs) h =
    let (ids, rates, rest) = assignment_rows-columns test now ws xs (omega arith) in
    (cc ids, cc rates, ((refl, refl), rest))

length-map {ℓ κ} :
    {A : Type ℓ} {B : Type κ} (f : A → B) (xs : List A) → length (map f xs) ≡ length xs
length-map f [] = refl
length-map f (x ∷ xs) = omega (arith, length-map f xs)

module _ (env : Env) (test : String) (n : ℕ) (shares : List ℕ) where
  reserve_rows-ok :
      (chosen : List Worker) (c : Conn) {ws : List Worker}
      → (reserve_rows env test (pos n) shares chosen c).0 ≡ ok ws
      → (n ≤ length chosen)
        × (length shares ≡ length chosen)
        × (ws ≡ map as_reserved chosen)
        × ((reserve_rows env test (pos n) shares chosen c).1.db
            ≡ reserved_db test shares chosen (env.clock c.calls) (env.clock (suc c.calls)) c.work)
  unfolding reserve_rows
  reserve_rows-ok chosen c h = ground arith

module _ (env : Env) (test : String) (n : ℕ) (shares : List ℕ) (c : Conn) where
  abbrev choosing : Conn
  choosing = record { db = found env c; work = found env c; calls = suc (suc c.calls) }

  reserve_from :
      {ws : List Worker}
      → (reserve_workers_for_test env test (pos n) shares c).0 ≡ ok ws
      → reserve_workers_for_test env test (pos n) shares c
        ≡ reserve_rows env test (pos n) shares (chosen_at env (pos n) c) choosing
  unfolding reserve_workers_for_test
  reserve_from h = ground arith

  -- A reservation that succeeds grants as many workers as were asked for, one for each share. They
  -- are rows of the table of workers that were IDLE and not locked by another transaction; in the
  -- table that is committed the rows with their identifiers are RESERVED, and all others are as they
  -- were. It adds to the table of assignments, before the rows that were there, a RESERVED assignment
  -- of the test to each of them in order, with the shares for rates.
  pub reserve_workers_for_test_lem :
      {ws : List Worker}
      → (reserve_workers_for_test env test (pos n) shares c).0 ≡ ok ws
      → (chosen : List Worker) × (rows : List Assignment) × (ws ≡ map as_reserved chosen)
        × (length ws ≡ n)
        × All (λ w. is_free (env.locked (suc c.calls)) w ≡ true) chosen
        × All (λ w. Mem w (found env c).workers) chosen
        × Pointwise
            (HandedOut ws)
            (found env c).workers
            (reserve_workers_for_test env test (pos n) shares c).1.db.workers
        × ((reserve_workers_for_test env test (pos n) shares c).1.db.assignments
            ≡ rows ++ (found env c).assignments)
        × (map (λ a. a.worker_id) rows ≡ worker_ids chosen)
        × (map (λ a. a.rps) rows ≡ shares)
        × All (λ a. (a.test_id ≡ test) × (a.status ≡ AssignmentStatus.reserved)) rows
  reserve_workers_for_test_lem {ws} h =
      let same = reserve_from h in
      let (enough, even, granted, done) =
        reserve_rows-ok env test n shares (chosen_at env (pos n) c) choosing
          (sym (ap (λ r. r.0) same) ∙ h) in
      let (ids, rates, fresh) =
        assignment_rows-columns test (env.clock (suc (suc (suc c.calls)))) (chosen_at env (pos n) c)
          shares even in
      (
        chosen_at env (pos n) c,
        assignment_rows test (env.clock (suc (suc (suc c.calls)))) (chosen_at env (pos n) c) shares,
        granted,
        omega (
          arith,
          ap length granted,
          length-map as_reserved (chosen_at env (pos n) c),
          enough,
          length-take_le n (
              sort_desc (λ w. w.last_heartbeat)
                (filter_by (is_free (env.locked (suc c.calls))) (found env c).workers)),
        ),
        idle_rows-All (env.locked (suc c.calls)) n (found env c).workers,
        idle_rows-Mem (env.locked (suc c.calls)) n (found env c).workers,
        rw (granted, ap (λ r. r.1.db.workers) same ∙ ap (λ d. d.workers) done)
            (handed_out (env.clock (suc (suc c.calls))) (chosen_at env (pos n) c)
              (found env c).workers),
        ap (λ r. r.1.db.assignments) same ∙ ap (λ d. d.assignments) done,
        ids,
        rates,
        fresh,
      )

length-take : {A : Type 0} (n : ℕ) (xs : List A) → n ≤ length xs → length (take n xs) ≡ n
length-take zero xs h = refl
length-take (suc n) [] h = absurd (omega arith)
length-take (suc n) (x ∷ xs) h = omega (arith, length-take n xs (omega arith))

length-take_short : {A : Type 0} (n : ℕ) (xs : List A) → length xs < n → length (take n xs) < n
length-take_short zero xs h = absurd (omega arith)
length-take_short (suc n) [] h = omega arith
length-take_short (suc n) (x ∷ xs) h = omega (arith, length-take_short n xs (omega arith))

length-filter_by :
    {A : Type 0} (p : A → Bool) (xs : List A) → length (filter_by p xs) ≡ count_by p xs
length-filter_by p [] = refl
length-filter_by p (x ∷ xs) = ground (arith, length-filter_by p xs)

length-free :
    (locked : Worker → Bool) (ws : List Worker)
    → length (sort_desc (λ w. w.last_heartbeat) (filter_by (is_free locked) ws))
      ≡ count_by (is_free locked) ws
length-free locked ws =
    sort_desc-length (λ w. w.last_heartbeat) (filter_by (is_free locked) ws)
    ∙ length-filter_by (is_free locked) ws

module _ (env : Env) (calm : (k : ℕ) → env.fails k ≡ false) (test : String) (n : ℕ)
    (shares : List ℕ) (c : Conn) where
  rows_succeed :
      (chosen : List Worker)
      → n ≤ length chosen
      → length shares ≡ length chosen
      → rejects_rows test (worker_ids chosen) (found env c) ≡ false
      → (reserve_rows env test (pos n) shares chosen (choosing env test n shares c)).0
        ≡ ok (map as_reserved chosen)
  unfolding reserve_rows
  rows_succeed chosen h k b = ground (
    arith,
    calm (suc (suc c.calls)),
    calm (suc (suc (suc c.calls))),
    calm (suc (suc (suc (suc c.calls)))),
  )

  rows_refuse :
      (chosen : List Worker)
      → length chosen < n
      → (reserve_rows env test (pos n) shares chosen (choosing env test n shares c)).0
        ≡ err insufficient_workers
  unfolding reserve_rows
  rows_refuse chosen h = ground arith

  reserve_calmly :
      reserve_workers_for_test env test (pos n) shares c
      ≡ reserve_rows env test
          (pos n)
          shares
          (chosen_at env (pos n) c)
          (choosing env test n shares c)
  unfolding reserve_workers_for_test
  reserve_calmly = ground (arith, calm c.calls, calm (suc c.calls))

  full :
      n ≤ count_by (is_free (env.locked (suc c.calls))) (found env c).workers
      → length (chosen_at env (pos n) c) ≡ n
  full h =
      length-take n _ (omega (arith, length-free (env.locked (suc c.calls)) (found env c).workers))

  -- With no failing call, a reservation of as many workers as there are shares succeeds if so many
  -- are free and the insertion of the new rows is not rejected: there is one at least, the test is
  -- there, and none of the chosen was ever joined to it.
  pub reserve_workers_for_test_enough :
      n ≤ count_by (is_free (env.locked (suc c.calls))) (found env c).workers
      → length shares ≡ n
      → rejects_rows test (worker_ids (chosen_at env (pos n) c)) (found env c) ≡ false
      → (reserve_workers_for_test env test (pos n) shares c).0
        ≡ ok (map as_reserved (chosen_at env (pos n) c))
  reserve_workers_for_test_enough h e b =
      ap (λ r. r.0) reserve_calmly
      ∙ rows_succeed (chosen_at env (pos n) c) (omega (arith, full h)) (e ∙ sym (full h)) b

  -- With no failing call and fewer free workers than asked for, a reservation is refused for that
  -- reason.
  reserve_workers_for_test_short :
      count_by (is_free (env.locked (suc c.calls))) (found env c).workers < n
      → (reserve_workers_for_test env test (pos n) shares c).0 ≡ err insufficient_workers
  reserve_workers_for_test_short h =
      ap (λ r. r.0) reserve_calmly
      ∙ rows_refuse (chosen_at env (pos n) c) (
          length-take_short n _
            (omega (arith, length-free (env.locked (suc c.calls)) (found env c).workers)))
