-- ===== src/Repository/Releases.antt =====
-- What `ReleaseWorkersForTest` of internal/repository/worker_repository.go frees, and whom.
use vulcan.Prelude.{
  suc, String, ◌≡◌, refl, sym, ap, ◌∙◌, ◌⊎◌, inl, inr, Bool, true, false, ◌&&◌, List, [], ◌∷◌,
  arith, ◌<◌, map, filter_by, count_by, update_where, str_eq, eq_iff, Bool-cases,
}
use vulcan.Errors.{ok}
use vulcan.Models.{Worker, WorkerStatus, Assignment, worker_status_eq, is_live}
use vulcan.Driver.{Db, Env, Conn}
use vulcan.Repository.Rows.{any_id, worker_is, workers_in, set_worker, complete_row}
use vulcan.Repository.Workers.{release_rows, release_workers_for_test}
use vulcan.Repository.Assignments.{waits}
use vulcan.Repository.Tables.{count_by-update_where}
use vulcan.Repository.Effects.{found, released_db}

-- The workers that the release locks: all that ever had an assignment of the test.
abbrev pub assigned : String → List Assignment → List String
assigned test rows = map (λ a. a.worker_id) (filter_by (λ a. str_eq a.test_id test) rows)

count_by-kept :
    {A : Type 0} (p q : A → Bool) (f : A → A) (xs : List A)
    → ((x : A) → q x ≡ true → p (f x) ≡ p x)
    → count_by p (update_where q f xs) ≡ count_by p xs
count_by-kept p q f [] h = refl
count_by-kept p q f (x ∷ xs) h = elim (Bool-cases (q x)) [
  | inl e ↦ rw (e, h x e, count_by-kept p q f xs h)
  | inr e ↦ rw (e, count_by-kept p q f xs h)
]

update_where-same :
    {A : Type 0} (p : A → Bool) (f : A → A) (xs : List A)
    → ((x : A) → p x ≡ false)
    → update_where p f xs ≡ xs
update_where-same p f [] h = refl
update_where-same p f (x ∷ xs) h = rw (h x, update_where-same p f xs h)

-- With no assignment of the test there is nothing to update.
unassigned :
    (test : String) (f : Assignment → Assignment) (rows : List Assignment)
    → assigned test rows ≡ []
    → update_where (λ a. str_eq a.test_id test && is_live a.status) f rows ≡ rows
unassigned test f [] h = refl
unassigned test f (a ∷ rows) h = elim (Bool-cases (str_eq a.test_id test)) [
  | inl e ↦ cc (rw e at h)
  | inr e ↦ rw e (ground (arith, unassigned test f rows))
]

module _ (env : Env) (test : String) (c : Conn) where
  release_rows-ok :
      (ids : List String) (c' : Conn)
      → (release_rows env test ids c').0 ≡ ok tt
      → ((ids ≡ []) × ((release_rows env test ids c').1.db ≡ c'.work))
        ⊎ ((release_rows env test ids c').1.db ≡ record c'.work {
          workers =
              update_where
                (workers_in ids WorkerStatus.reserved)
                (set_worker WorkerStatus.idle (env.clock c'.calls))
                c'.work.workers;
          assignments =
              update_where
                (λ a. str_eq a.test_id test && is_live a.status)
                (complete_row (env.clock (suc c'.calls)))
                c'.work.assignments;
        })
  unfolding release_rows
  release_rows-ok [] c' h = ground arith
  release_rows-ok (id ∷ ids) c' h = ground arith

  abbrev freed : Db
  freed =
      released_db test (env.clock (suc (suc c.calls))) (env.clock (suc (suc (suc c.calls))))
        (found env c)

  freed-nothing : assigned test (found env c).assignments ≡ [] → freed ≡ found env c
  freed-nothing e = cc (
    update_where-same (workers_in (assigned test (found env c).assignments) WorkerStatus.reserved)
        (set_worker WorkerStatus.idle (env.clock (suc (suc c.calls)))) (found env c).workers
        (λ w. rw e),
    unassigned test (complete_row (env.clock (suc (suc (suc c.calls))))) (found env c).assignments
        e,
  )

  released :
      (release_workers_for_test env test c).0 ≡ ok tt
      → (release_workers_for_test env test c).1.db ≡ freed
  unfolding release_workers_for_test
  released h = ground (
    arith,
    freed-nothing,
    release_rows-ok (assigned test (found env c).assignments)
        (record { db = found env c; work = found env c; calls = suc (suc c.calls) }),
  )

  -- A release that succeeds leaves no unfinished assignment of the test and no RESERVED worker that
  -- ever had an assignment of it. It frees no RUNNING worker: there are as many as before. The tests
  -- are as they were.
  pub release_workers_for_test_lem :
      (release_workers_for_test env test c).0 ≡ ok tt
      → let d = (release_workers_for_test env test c).1.db in
        (count_by (λ a. str_eq a.test_id test && is_live a.status) d.assignments ≡ 0)
        × (count_by
              (workers_in (assigned test (found env c).assignments) WorkerStatus.reserved)
              d.workers
            ≡ 0)
        × (count_by (λ w. worker_status_eq w.status WorkerStatus.running) d.workers
            ≡ count_by (λ w. worker_status_eq w.status WorkerStatus.running) (found env c).workers)
        × (d.tests ≡ (found env c).tests)
  release_workers_for_test_lem h = rw (released h) (
    count_by-update_where (λ a. str_eq a.test_id test && is_live a.status)
        (λ a. str_eq a.test_id test && is_live a.status) _ (found env c).assignments
        (λ a e. ground arith) (λ a e. e),
    count_by-update_where (workers_in ids WorkerStatus.reserved)
        (workers_in ids WorkerStatus.reserved)
        (set_worker WorkerStatus.idle (env.clock (suc (suc c.calls)))) (found env c).workers
        (λ w e. ground arith) (λ w e. e),
    count_by-kept (λ w. worker_status_eq w.status WorkerStatus.running)
        (workers_in ids WorkerStatus.reserved)
        (set_worker WorkerStatus.idle (env.clock (suc (suc c.calls)))) (found env c).workers
        (λ w e. ground arith),
    refl,
  )
    where
      ids : List String
      ids = assigned test (found env c).assignments

  -- A release also frees workers that another test holds. If the worker ever had an assignment of
  -- the released test, finished or not, and now has a RESERVED assignment of another test, then after
  -- the release it is RESERVED no longer, and the other assignment is RESERVED still.
  pub release_workers_for_test_strips :
      (worker other : String)
      → (release_workers_for_test env test c).0 ≡ ok tt
      → any_id (assigned test (found env c).assignments) worker ≡ true
      → str_eq other test ≡ false
      → 0 < count_by (waits other worker) (found env c).assignments
      → let d = (release_workers_for_test env test c).1.db in
        (count_by (worker_is worker WorkerStatus.reserved) d.workers ≡ 0)
        × (0 < count_by (waits other worker) d.assignments)
  release_workers_for_test_strips worker other h ever differ held = rw (released h) (
    count_by-update_where (worker_is worker WorkerStatus.reserved)
        (workers_in ids WorkerStatus.reserved)
        (set_worker WorkerStatus.idle (env.clock (suc (suc c.calls)))) (found env c).workers
        (λ w e. ground arith) (λ w e. freed_by_key w e),
    rw
        (count_by-kept (waits other worker) (λ a. str_eq a.test_id test && is_live a.status)
          (complete_row (env.clock (suc (suc (suc c.calls))))) (found env c).assignments
          (λ a e. other_test a e))
        held,
  )
    where
      ids : List String
      ids = assigned test (found env c).assignments

      freed_by_key :
          (w : Worker)
          → workers_in ids WorkerStatus.reserved w ≡ false
          → worker_is worker WorkerStatus.reserved w ≡ false
      freed_by_key w e = elim (Bool-cases (str_eq w.id worker)) [
        | inl q ↦
            let listed : any_id ids w.id ≡ true =
              ap (any_id ids) ((eq_iff w.id worker).0 q) ∙ ever in
            rw q (rw listed at e)
        | inr q ↦ rw q
      ]

      other_test :
          (a : Assignment)
          → (str_eq a.test_id test && is_live a.status) ≡ true
          → waits other worker (complete_row (env.clock (suc (suc (suc c.calls)))) a)
            ≡ waits other worker a
      other_test a e = elim (Bool-cases (str_eq a.test_id other)) [
        | inl q ↦
            let here : str_eq a.test_id test ≡ true = ground arith in
            let same : other ≡ test =
              sym ((eq_iff a.test_id other).0 q) ∙ (eq_iff a.test_id test).0 here in
            cc (differ, (eq_iff other test).1 same)
        | inr q ↦ rw q
      ]
