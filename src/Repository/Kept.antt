-- ===== src/Repository/Kept.antt =====
-- What keeps workers and assignments, and that it is passed on through the monad: every computation
-- that is put together from the operations of internal/repository keeps them too.
pub mod Operations
use vulcan.Prelude.{
  ℕ, String, ◌≡◌, refl, sym, subst, Bool, true, false, Option, none, some, List, ℤ, Bool-cases,
  ◌||◌, inl, inr, if◌then◌else◌,
}
use vulcan.Errors.{Error, Result, ok, err}
use vulcan.Driver.{
  Db, Env, Conn, M, ◌>>=◌, ◌>>◌, continue, pure, throw, throw_if, lift, wrapped, rewrap,
  statement_unless,
}
use vulcan.Repository.Keys.{Keyed}
use vulcan.Repository.Fleet.{FleetKept, FleetKept-refl, FleetKept-trans, OthersKeepFleet}
use vulcan.Repository.Ledger.{LedgerKept, LedgerKept-refl, LedgerKept-trans, OthersKeepLedger}

-- The fleet evolves, and the ledger does.
pub record StateKept (d e : Db) : Type 0 where
  pub fleet : FleetKept d.workers e.workers
  pub ledger : LedgerKept d.assignments e.assignments

pub StateKept-refl : (d : Db) → Keyed d.workers → StateKept d d
StateKept-refl d k = record {
  fleet = FleetKept-refl d.workers k;
  ledger = LedgerKept-refl d.assignments;
}

pub StateKept-trans : (d e f : Db) → StateKept d e → StateKept e f → StateKept d f
StateKept-trans d e f h k = record {
  fleet = FleetKept-trans _ _ _ h.fleet k.fleet;
  ledger = LedgerKept-trans _ _ _ h.ledger k.ledger;
}

same_rows :
    (d e f : Db)
    → StateKept d e
    → (f.workers ≡ e.workers) × (f.assignments ≡ e.assignments)
    → StateKept d f
same_rows d e f h (w, a) = record {
  fleet = subst (FleetKept d.workers) (sym w) h.fleet;
  ledger = subst (LedgerKept d.assignments) (sym a) h.ledger;
}

pub record Keeps {A : Type 0} (m : M A) : Type 0 where
  pub keeps : (c : Conn) → Keyed c.db.workers → StateKept c.db (m c).1.db

pub pure-Keeps : {A : Type 0} (a : A) → Keeps (pure a)
pure-Keeps a = record { keeps = λ c k. StateKept-refl c.db k }

pub throw-Keeps : (A : Type 0) (e : Error) → Keeps (throw {A = A} e)
throw-Keeps A e = record { keeps = λ c k. StateKept-refl c.db k }

pub lift-Keeps : {A : Type 0} (r : Result A) → Keeps (lift r)
lift-Keeps (ok a) = record { keeps = λ c k. StateKept-refl c.db k }
lift-Keeps (err e) = record { keeps = λ c k. StateKept-refl c.db k }

pub if-Keeps : {A : Type 0} (b : Bool) (m n : M A) → Keeps m → Keeps n → Keeps (if b then m else n)
if-Keeps true m n h k = h
if-Keeps false m n h k = k

pub throw_if-Keeps : (b : Bool) (e : Error) → Keeps (throw_if b e)
throw_if-Keeps true e = throw-Keeps (Unit {0}) e
throw_if-Keeps false e = pure-Keeps tt

continue-Keeps :
    {A B : Type 0} (f : A → M B) (d : Db) (r : Result A × Conn)
    → ((a : A) → Keeps (f a))
    → StateKept d r.1.db
    → StateKept d (continue f r).1.db
continue-Keeps f d (ok a, c) h k = StateKept-trans d c.db _ k ((h a).keeps c k.fleet.keyed)
continue-Keeps f d (err e, c) h k = k

pub bind-Keeps :
    {A B : Type 0} (m : M A) (f : A → M B) → Keeps m → ((a : A) → Keeps (f a)) → Keeps (m >>= f)
bind-Keeps m f h k = record { keeps = λ c keyed. continue-Keeps f c.db (m c) k (h.keeps c keyed) }

rewrap-Keeps :
    {A : Type 0} (text : String) (d : Db) (r : Result A × Conn)
    → StateKept d r.1.db
    → StateKept d (rewrap text r).1.db
rewrap-Keeps text d (ok a, c) h = h
rewrap-Keeps text d (err e, c) h = h

pub wrapped-Keeps : {A : Type 0} (text : String) (m : M A) → Keeps m → Keeps (wrapped text m)
wrapped-Keeps text m h = record { keeps = λ c k. rewrap-Keeps text c.db (m c) (h.keeps c k) }

-- The other clients keep the state.
pub record OthersKeep (env : Env) : Type 0 where
  pub fleet : OthersKeepFleet env
  pub ledger : OthersKeepLedger env

module _ (env : Env) (rely : OthersKeep env) where
  pub others-Keeps : (c : Conn) → Keyed c.db.workers → StateKept c.db (env.others c.calls c.db)
  others-Keeps c k = record { fleet = rely.fleet c.calls c.db k; ledger = rely.ledger c.calls c.db }

  -- A statement that leaves workers and assignments alone.
  pub statement-Keeps :
      {A : Type 0} (refuses : Db → Bool) (f : ℕ → Db → A × Db)
      → ((n : ℕ) (d : Db)
          → ((f n d).1.workers ≡ d.workers) × ((f n d).1.assignments ≡ d.assignments))
      → Keeps (statement_unless env refuses f)
  statement-Keeps refuses f h = record {
    keeps = λ c k.
        let d = env.others c.calls c.db in
        let seen = others-Keeps c k in
        let done = same_rows c.db d (f (env.clock c.calls) d).1 seen (h (env.clock c.calls) d) in
        elim (Bool-cases (refuses d)) [
          | inl e ↦ rw e seen
          | inr e ↦ elim (Bool-cases (env.fails c.calls)) [
            | inr n ↦ rw (e, n) done
            | inl y ↦ elim (Bool-cases (env.took c.calls)) [
              | inl t ↦ rw (e, y, t) done
              | inr t ↦ rw (e, y, t) seen
            ]
          ]
        ];
  }

-- What keeps the state however it is put together.
pub ruleset keeps =
    (bind-Keeps, wrapped-Keeps, lift-Keeps, throw_if-Keeps, throw-Keeps, pure-Keeps, if-Keeps)
