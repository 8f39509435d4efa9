-- ===== src/Repository/Keys.antt =====
-- The primary key of the table of workers, and what it gives: an UPDATE by the identifiers of
-- some IDLE rows touches IDLE rows only.
use vulcan.Prelude.{
  ℕ, zero, suc, String, ◌≡◌, refl, sym, ◌∙◌, Bool, true, false, ◌&&◌, not, List, [], ◌∷◌, arith,
  filter_by, take, sort_desc, insert_desc, All, str_eq, eq_iff,
}
use vulcan.Models.{Worker, WorkerStatus, worker_status_eq}
use vulcan.Repository.Rows.{any_id, worker_ids}
use vulcan.Repository.Workers.{idle_rows}
use vulcan.Repository.Tables.{All-both, All-every}

pub str_eq_comm : (s t : String) → str_eq s t ≡ true → str_eq t s ≡ true
str_eq_comm s t h = (eq_iff t s).1 (sym ((eq_iff s t).0 h))

abbrev pub Keyed : List Worker → Type 0
Keyed [] = Unit {0}
Keyed (w ∷ ws) = (any_id (worker_ids ws) w.id ≡ false) × Keyed ws

-- An identifier that is in no row differs from that of each.
distinct :
    (id : String) (ws : List Worker)
    → any_id (worker_ids ws) id ≡ false
    → All (λ v. str_eq id v.id ≡ false) ws
distinct id [] h = tt
distinct id (w ∷ ws) h = (ground (arith, str_eq_comm id w.id), distinct id ws (ground arith))

module _ (p : Worker → Bool) where
  any_id-filter_by :
      (ws : List Worker) (id : String)
      → any_id (worker_ids (filter_by p ws)) id ≡ true
      → any_id (worker_ids ws) id ≡ true
  any_id-filter_by [] id h = h
  any_id-filter_by (w ∷ ws) id h = ground (arith, any_id-filter_by ws id)

  abbrev Selects : List Worker → Worker → Type 0
  Selects ws w = any_id (worker_ids (filter_by p ws)) w.id ≡ true → p w ≡ true

  selected_head :
      (w : Worker) (ws : List Worker) → any_id (worker_ids ws) w.id ≡ false → Selects (w ∷ ws) w
  selected_head w ws k h = ground (arith, any_id-filter_by ws w.id)

  selected_tail :
      (w v : Worker) (ws : List Worker)
      → str_eq w.id v.id ≡ false
      → Selects ws v
      → Selects (w ∷ ws) v
  selected_tail w v ws k s h = ground (arith, s)

  -- A row whose identifier is among those of the selected rows is one of them.
  pub selected : (ws : List Worker) → Keyed ws → All (Selects ws) ws
  selected [] k = tt
  selected (w ∷ ws) k = (
    selected_head w ws k.0,
    All-both (λ v. str_eq w.id v.id ≡ false) (Selects ws) (Selects (w ∷ ws))
        (λ v d s. selected_tail w v ws d s) ws (distinct w.id ws k.0) (selected ws k.1),
  )

any_id-take :
    (n : ℕ) (ws : List Worker) (id : String)
    → any_id (worker_ids (take n ws)) id ≡ true
    → any_id (worker_ids ws) id ≡ true
any_id-take zero ws id h = cc
any_id-take (suc n) [] id h = h
any_id-take (suc n) (w ∷ ws) id h = ground (arith, any_id-take n ws id)

any_id-insert_desc :
    (key : Worker → ℕ) (w : Worker) (ws : List Worker) (id : String)
    → any_id (worker_ids (insert_desc key w ws)) id ≡ any_id (worker_ids (w ∷ ws)) id
unfolding insert_desc
any_id-insert_desc key w [] id = refl
any_id-insert_desc key w (v ∷ ws) id = ground (arith, any_id-insert_desc key w ws id)

any_id-sort_desc :
    (key : Worker → ℕ) (ws : List Worker) (id : String)
    → any_id (worker_ids (sort_desc key ws)) id ≡ any_id (worker_ids ws) id
unfolding sort_desc
any_id-sort_desc key [] id = refl
any_id-sort_desc key (w ∷ ws) id =
    ground (arith, any_id-insert_desc key w (sort_desc key ws) id, any_id-sort_desc key ws id)

-- The rows that a reservation updates by identifier were IDLE and not locked.
pub chosen_idle :
    (locked : Worker → Bool) (n : ℕ) (ws : List Worker)
    → Keyed ws
    → All
        (λ w.
          any_id (worker_ids (idle_rows locked n ws)) w.id ≡ true
          → (worker_status_eq w.status WorkerStatus.idle && not (locked w)) ≡ true)
        ws
chosen_idle locked n ws k =
    All-both (λ w. Unit {0}) (Selects is_free ws) _ (λ w _ s h. s (among w h)) ws
      (All-every _ (λ _. tt) ws) (selected is_free ws k)
  where
    is_free : Worker → Bool
    is_free w = worker_status_eq w.status WorkerStatus.idle && not (locked w)

    sorted : List Worker
    sorted = sort_desc (λ w. w.last_heartbeat) (filter_by is_free ws)

    among :
        (w : Worker)
        → any_id (worker_ids (take n sorted)) w.id ≡ true
        → any_id (worker_ids (filter_by is_free ws)) w.id ≡ true
    among w h =
        sym (any_id-sort_desc (λ v. v.last_heartbeat) (filter_by is_free ws) w.id)
        ∙ any_id-take n sorted w.id h
