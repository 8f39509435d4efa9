-- ===== src/Driver/Frames.antt =====
-- What a step that leaves the committed database alone gives to the steps around it.
use vulcan.Prelude.{String, ◌≡◌, refl, ap}
use vulcan.Errors.{Result, ok, err}
use vulcan.Driver.{Conn, M, ◌>>=◌, wrapped, rewrap, continue, lift}

module _ {A B : Type 0} (f : A → M B) (h : (a : A) (c : Conn) → (f a c).1.db ≡ c.db) where
  continue-db : (r : Result A × Conn) → (continue f r).1.db ≡ r.1.db
  continue-db (ok a, c) = h a c
  continue-db (err e, c) = refl

  pub bind-db : (m : M A) (c : Conn) → ((m >>= f) c).1.db ≡ (m c).1.db
  bind-db m c = continue-db (m c)

pub wrapped-db :
    {A : Type 0} (text : String) (m : M A) (c : Conn) → (wrapped text m c).1.db ≡ (m c).1.db
wrapped-db {A} text m c = go (m c)
  where
    go : (r : Result A × Conn) → (rewrap text r).1.db ≡ r.1.db
    go (ok a, c') = refl
    go (err e, c') = refl

continue-ok :
    {A B : Type 0} (f : A → M B) (r : Result A × Conn) {b : B}
    → (continue f r).0 ≡ ok b
    → (a : A) × (c' : Conn) × (r ≡ (ok a, c')) × (continue f r ≡ f a c')
continue-ok f (ok a, c') h = (a, c', refl, refl)
continue-ok f (err e, c') h = cc

-- Inversion of a chain that succeeds.
pub bind-ok :
    {A B : Type 0} (m : M A) (f : A → M B) (c : Conn) {b : B}
    → ((m >>= f) c).0 ≡ ok b
    → (a : A) × (c' : Conn) × (m c ≡ (ok a, c')) × ((m >>= f) c ≡ f a c')
bind-ok m f c h = continue-ok f (m c) h

rewrap-ok :
    {A : Type 0} (text : String) (r : Result A × Conn) {a : A}
    → (rewrap text r).0 ≡ ok a
    → (rewrap text r ≡ r) × (r.0 ≡ ok a)
rewrap-ok text (ok a, c') h = (refl, h)
rewrap-ok text (err e, c') h = cc

pub wrapped-ok :
    {A : Type 0} (text : String) (m : M A) (c : Conn) {a : A}
    → (wrapped text m c).0 ≡ ok a
    → (wrapped text m c ≡ m c) × ((m c).0 ≡ ok a)
wrapped-ok text m c h = rewrap-ok text (m c) h

pub lift-bind :
    {A B : Type 0} {r : Result A} {a : A} (f : A → M B) (c : Conn)
    → r ≡ ok a
    → (lift r >>= f) c ≡ f a c
lift-bind f c e = ap (λ q. continue f (lift q c)) e
