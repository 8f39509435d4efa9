-- ===== src/Driver.antt =====
-- What internal/repository asks of PostgreSQL through pgx: single statements on the pool, and
-- transactions that work on a copy until they commit. The database server is not part of the
-- repository; an `Env` says what it and the rest of the world do at the n-th call.
pub mod Frames
use vulcan.Prelude.{ℕ, suc, Bool, false, ◌||◌, List, String, if◌then◌else◌}
use vulcan.Errors.{Error, driver, wrap, Result, ok, err}
use vulcan.Models.{Test, Worker, Assignment}

pub record Db : Type 0 where
  pub tests : List Test
  pub workers : List Worker
  pub assignments : List Assignment

-- `fails n`: the n-th call returns an error. `took n`: if it is a commit or a statement on the pool, the
-- server has carried it out all the same, and only the answer is lost. `clock n`: the time at it. `others n`: what the
-- other clients of the database have committed since the call before it. `locked n`: the rows
-- that another transaction holds locked at it, which `SKIP LOCKED` passes over.
pub record Env : Type 0 where
  pub fails : ℕ → Bool
  pub took : ℕ → Bool
  pub clock : ℕ → ℕ
  pub others : ℕ → Db → Db
  pub locked : ℕ → Worker → Bool

-- `db` is what is committed, `work` the copy of the open transaction, `calls` counts the calls.
pub record Conn : Type 0 where
  pub db : Db
  pub work : Db
  pub calls : ℕ

abbrev pub M : Type 0 → Type 0
M A = Conn → Result A × Conn

abbrev pub continue : {A B : Type 0} → (A → M B) → Result A × Conn → Result B × Conn
continue f (ok a, c) = f a c
continue f (err e, c) = (err e, c)

infixl 5 ◌>>=◌ ◌>>◌
abbrev pub ◌>>=◌ : {A B : Type 0} → M A → (A → M B) → M B
◌>>=◌ m f c = continue f (m c)

abbrev pub ◌>>◌ : {A B : Type 0} → M A → M B → M B
m >> n = m >>= λ _. n

abbrev pub pure : {A : Type 0} → A → M A
pure a c = (ok a, c)

abbrev pub throw : {A : Type 0} → Error → M A
throw e c = (err e, c)

-- A computation without effects.
abbrev pub lift : {A : Type 0} → Result A → M A
lift (ok a) c = (ok a, c)
lift (err e) c = (err e, c)

-- `if test { return e }`.
abbrev pub throw_if : Bool → Error → M (Unit {0})
throw_if test e = if test then throw e else pure tt

-- `if err != nil { return fmt.Errorf("text: %w", err) }`.
abbrev pub rewrap : {A : Type 0} → String → Result A × Conn → Result A × Conn
rewrap text (ok a, c) = (ok a, c)
rewrap text (err e, c) = (err (wrap text e), c)

abbrev pub wrapped : {A : Type 0} → String → M A → M A
wrapped text m c = rewrap text (m c)

module _ (env : Env) where
  open env use {fails, took, clock, others}

  -- A statement on the pool, at once committed. The server refuses it where `refuses` says so,
  -- as for a key that is there already; else the function is given the time.
  abbrev pub statement_unless : {A : Type 0} → (Db → Bool) → (ℕ → Db → A × Db) → M A
  statement_unless refuses f c =
      let db = others c.calls c.db in
      let (a, db') = f (clock c.calls) db in
      if refuses db
      then (err (driver c.calls), record c { db = db; calls = suc c.calls })
      else if fails c.calls
      then (
        err (driver c.calls),
        record c { db = if took c.calls then db' else db; calls = suc c.calls },
      )
      else (ok a, record c { db = db'; calls = suc c.calls })

  abbrev pub statement : {A : Type 0} → (ℕ → Db → A × Db) → M A
  statement f = statement_unless (λ _. false) f

  abbrev pub begin : M (Unit {0})
  begin c =
      let db = others c.calls c.db in
      if fails c.calls
      then (err (driver c.calls), record c { db = db; calls = suc c.calls })
      else (ok tt, record c { db = db; work = db; calls = suc c.calls })

  -- A statement inside the transaction. The rows that it reads and writes are locked by then, or
  -- no other client writes them; so the rest of the world stands still for it.
  abbrev pub tx_statement_unless : {A : Type 0} → (Db → Bool) → (ℕ → Db → A × Db) → M A
  tx_statement_unless refuses f c =
      let (a, db') = f (clock c.calls) c.work in
      if refuses c.work || fails c.calls
      then (err (driver c.calls), record c { calls = suc c.calls })
      else (ok a, record c { work = db'; calls = suc c.calls })

  abbrev pub tx_statement : {A : Type 0} → (ℕ → Db → A × Db) → M A
  tx_statement f = tx_statement_unless (λ _. false) f

  abbrev pub commit : M (Unit {0})
  commit c =
      if fails c.calls
      then (
        err (driver c.calls),
        record c { db = if took c.calls then c.work else c.db; calls = suc c.calls },
      )
      else (ok tt, record c { db = c.work; calls = suc c.calls })
