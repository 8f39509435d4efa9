-- ===== src/Repository/Tests.antt =====
-- internal/repository/test_repository.go: the table of tests.
use vulcan.Prelude.{
  ℕ, String, Bool, ◌&&◌, Option, none, some, List, [], ◌∷◌, ltb, if◌then◌else◌, any_by, count_by,
  update_where, sort_desc, ℤ, str_eq, ◌==◌,
}
use vulcan.Errors.{test_not_found}
use vulcan.Models.{Test, TestStatus, test_status_eq}
use vulcan.Driver.{Db, Env, M, ◌>>=◌, pure, throw, throw_if, wrapped, statement, statement_unless}

-- WHERE id = $1.
abbrev pub has_id : String → Test → Bool
has_id id t = str_eq t.id id

-- WHERE id = $1 AND status = $2.
abbrev pub has_status : String → TestStatus → Test → Bool
has_status id from t = str_eq t.id id && test_status_eq t.status from

-- SET status = ..., updated_at = NOW().
abbrev pub set_status : TestStatus → ℕ → Test → Test
set_status to now t = record t { status = to; updated_at = now }

-- UPDATE tests SET status = to WHERE p, with RowsAffected().
abbrev pub update_tests : (Test → Bool) → (ℕ → Test → Test) → ℕ → Db → ℕ × Db
update_tests p f now db =
    (count_by p db.tests, record db { tests = update_where p (f now) db.tests })

abbrev pub find_test : String → List Test → Option Test
find_test id [] = none
find_test id (t ∷ ts) = if str_eq t.id id then some t else find_test id ts

abbrev pub or_not_found : Option Test → M Test
or_not_found none = throw test_not_found
or_not_found (some t) = pure t

module _ (env : Env) where
  -- `INSERT INTO tests`; the identifier is the primary key.
  unfoldable pub create_test : Test → M (Unit {0})
  create_test t = wrapped "create test" (
      statement_unless env (λ db. any_by (has_id t.id) db.tests)
        (λ now db. (tt, record db { tests = t ∷ db.tests })))

  unfoldable pub get_tests : M (List Test)
  get_tests =
      wrapped "list tests" (statement env (λ now db. (sort_desc (λ t. t.created_at) db.tests, db)))

  unfoldable pub get_test_by_id : String → M Test
  get_test_by_id id = do
    row ← wrapped "get test" (statement env (λ now db. (find_test id db.tests, db)))
    or_not_found row

  unfoldable pub update_status : String → TestStatus → M (Unit {0})
  update_status id status = do
    rows ←
        wrapped "update test status" (statement env (update_tests (has_id id) (set_status status)))
    throw_if (rows == 0) test_not_found

  unfoldable pub update_worker_count : String → ℤ → M (Unit {0})
  update_worker_count id workers = do
    rows ← wrapped "update test worker count" (
        statement env (
          update_tests (has_id id)
            (λ now t. record t { worker_count = workers; updated_at = now })))
    throw_if (rows == 0) test_not_found

  unfoldable pub try_transition_status : String → TestStatus → TestStatus → M Bool
  try_transition_status id from to = do
    rows ←
        wrapped "transition test status"
          (statement env (update_tests (has_status id from) (set_status to)))
    pure (ltb 0 rows)
