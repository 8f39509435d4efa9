-- ===== src/Service/Tests/Stop.antt =====
-- What `StopTest` of internal/service/test_service.go leaves behind.
use vulcan.Prelude.{
  refl, ℕ, String, ◌≡◌, sym, ap, subst, ◌∙◌, ◌⊎◌, inl, inr, Bool, true, false, not, ◌&&◌, arith,
  count_by, str_eq, update_where,
}
use vulcan.Errors.{ok}
use vulcan.Models.{Test, TestStatus, test_status_eq, is_live}
use vulcan.Driver.{Db, Env, Conn, M, ◌>>=◌}
use vulcan.Driver.Frames.{bind-ok}
use vulcan.Repository.Tests.{
  has_id, set_status, get_test_by_id, try_transition_status, update_status,
}
use vulcan.Repository.Workers.{release_workers_for_test}
use vulcan.Repository.Tables.{count_by-update_where}
use vulcan.Repository.Effects.{found}
use vulcan.Repository.Releases.{release_workers_for_test_lem}
use vulcan.Service.Tests.{TestService, stop_test, stop_unfinished, is_finished}

-- Every commit is one of the calls that are spoken of: no other client writes.
abbrev pub IsAlone : Env → Type 0
IsAlone env = (n : ℕ) (d : Db) → env.others n d ≡ d

update_status-ok :
    (env : Env) (id : String) (status : TestStatus) (c : Conn)
    → (update_status env id status c).0 ≡ ok tt
    → (update_status env id status c).1.db ≡ record (found env c) {
      tests = update_where (has_id id) (set_status status (env.clock c.calls)) (found env c).tests;
    }
unfolding update_status
update_status-ok env id status c h = ground arith

get_test_by_id-db :
    (env : Env) (id : String) (c : Conn) → (get_test_by_id env id c).1.db ≡ found env c
unfolding get_test_by_id
get_test_by_id-db env id c = ground arith

abbrev pub not_stopped : String → Test → Bool
not_stopped id t = str_eq t.id id && not (test_status_eq t.status TestStatus.stopped)

module _ (env : Env) (service : TestService) (alone : IsAlone env) (id : String) where
  -- The three calls of a stop of an unfinished test.
  stopped_by :
      (seen : TestStatus) (c : Conn)
      → (stop_unfinished env service false id seen c).0 ≡ ok tt
      → let d = (stop_unfinished env service false id seen c).1.db in
        (count_by (not_stopped id) d.tests ≡ 0)
        × (count_by (λ a. str_eq a.test_id id && is_live a.status) d.assignments ≡ 0)
  unfolding stop_unfinished
  stopped_by seen c h =
      let (won, c₁, q, e) =
        bind-ok (try_transition_status env id seen TestStatus.stopping) (λ _. finish) c h in
      let (_, c₂, q₂, e₂) =
        bind-ok (release_workers_for_test env id) (λ _. update_status env id TestStatus.stopped) c₁
          (sym (ap (λ r. r.0) e) ∙ h) in
      let last = sym (ap (λ r. r.0) (e ∙ e₂)) ∙ h in
      let freed = release_workers_for_test_lem env id c₁ (ap (λ r. r.0) q₂) in
      rw (ap (λ r. r.1.db) (e ∙ e₂) ∙ update_status-ok env id TestStatus.stopped c₂ last) (
        count_by-update_where (not_stopped id) (has_id id)
            (set_status TestStatus.stopped (env.clock c₂.calls)) (found env c₂).tests
            (λ t k. ground arith) (λ t k. ground arith),
        rw (alone c₂.calls c₂.db, ← ap (λ r. r.1.db) q₂) freed.0,
      )
    where
      finish : M (Unit {0})
      finish = release_workers_for_test env id >>= λ _. update_status env id TestStatus.stopped

  abbrev Halted : Bool → Db → Db → Type 0
  Halted over before d =
      ((over ≡ true) × (d ≡ before))
      ⊎ ((count_by (not_stopped id) d.tests ≡ 0)
          × (count_by (λ a. str_eq a.test_id id && is_live a.status) d.assignments ≡ 0))

  halted :
      (c : Conn) (over : Bool) (seen : TestStatus) (c₁ : Conn)
      → c₁.db ≡ c.db
      → (stop_unfinished env service over id seen c₁).0 ≡ ok tt
      → Halted over c.db (stop_unfinished env service over id seen c₁).1.db
  halted c true seen c₁ read h = inl (refl, unfold stop_unfinished in read)
  halted c false seen c₁ read h = inr (stopped_by seen c₁ h)

  -- A stop that succeeds, where no other client writes meanwhile, has read the test with a status in
  -- which it is finished, and left the database as it was; or it leaves the test STOPPED, whatever its
  -- status was, and none of its assignments unfinished.
  pub stop_test_lem :
      (c : Conn)
      → (stop_test env service id c).0 ≡ ok tt
      → let d = (stop_test env service id c).1.db in
        ((t : Test) × ((get_test_by_id env id c).0 ≡ ok t)
          × (is_finished env service t.status ≡ true)
          × (d ≡ c.db))
        ⊎ ((count_by (not_stopped id) d.tests ≡ 0)
            × (count_by (λ a. str_eq a.test_id id && is_live a.status) d.assignments ≡ 0))
  unfolding stop_test
  stop_test_lem c h =
      let (t, c₁, q, e) =
        bind-ok (get_test_by_id env id)
          (λ t. stop_unfinished env service (is_finished env service t.status) id t.status) c h in
      let read : c₁.db ≡ c.db =
        sym (ap (λ r. r.1.db) q) ∙ get_test_by_id-db env id c ∙ alone c.calls c.db in
      elim (subst (Halted (is_finished env service t.status) c.db) (sym (ap (λ r. r.1.db) e)) (
        halted c (is_finished env service t.status) t.status c₁ read (sym (ap (λ r. r.0) e) ∙ h))) [
          | inl (over, same) ↦ inl (t, ap (λ r. r.0) q, over, same)
          | inr stopped ↦ inr stopped
        ]
