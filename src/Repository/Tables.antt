-- ===== src/Repository/Tables.antt =====
-- How a table may change: rows are added, and a row that was there stays, as the statements that
-- update it allow.
use vulcan.Prelude.{
  ◌≡◌, Bool, true, false, List, [], ◌∷◌, ◌++◌, inl, inr, count_by, refl, update_where, Bool-cases,
  All, ◌+◌, arith,
}

module _ {A : Type 0} (R : A → A → Type 0) where
  abbrev pub Pointwise : List A → List A → Type 0
  Pointwise [] [] = Unit {0}
  Pointwise (x ∷ xs) (y ∷ ys) = R x y × Pointwise xs ys
  Pointwise _ _ = ⊥

  -- The rows of `xs` in their order, each followed by what became of it, behind some new rows.
  pub data Evolved (xs : List A) : List A → Type 0 where
    kept : {ys : List A} → Pointwise xs ys → Evolved xs ys
    added : (y : A) {ys : List A} → Evolved xs ys → Evolved xs (y ∷ ys)

  module _ (same : (x : A) → R x x) where
    pub Pointwise-refl : (xs : List A) → Pointwise xs xs
    Pointwise-refl [] = tt
    Pointwise-refl (x ∷ xs) = (same x, Pointwise-refl xs)

    -- Where the WHERE selects a row, the SET takes it to a row that R allows.
    pub update_where-Pointwise :
        (p : A → Bool) (f : A → A) (xs : List A)
        → All (λ x. p x ≡ true → R x (f x)) xs
        → Pointwise xs (update_where p f xs)
    update_where-Pointwise p f [] h = tt
    update_where-Pointwise p f (x ∷ xs) h = elim (Bool-cases (p x)) [
      | inl e ↦ rw e (h.0 e, update_where-Pointwise p f xs h.1)
      | inr e ↦ rw e (same x, update_where-Pointwise p f xs h.1)
    ]

    pub append-Evolved : (new xs ys : List A) → Pointwise xs ys → Evolved xs (new ++ ys)
    append-Evolved [] xs ys h = kept h
    append-Evolved (n ∷ new) xs ys h = added n (append-Evolved new xs ys h)

  module _ (trans : (x y z : A) → R x y → R y z → R x z) where
    Pointwise-trans : (xs ys zs : List A) → Pointwise xs ys → Pointwise ys zs → Pointwise xs zs
    Pointwise-trans [] [] zs h k = k
    Pointwise-trans [] (y ∷ ys) zs h k = elim h [ ]
    Pointwise-trans (x ∷ xs) [] zs h k = elim h [ ]
    Pointwise-trans (x ∷ xs) (y ∷ ys) [] h k = elim k [ ]
    Pointwise-trans (x ∷ xs) (y ∷ ys) (z ∷ zs) h k =
        (trans x y z h.0 k.0, Pointwise-trans xs ys zs h.1 k.1)

    Evolved-Pointwise : (xs ys zs : List A) → Evolved xs ys → Pointwise ys zs → Evolved xs zs
    Evolved-Pointwise xs ys zs (kept h) k = kept (Pointwise-trans xs ys zs h k)
    Evolved-Pointwise xs (y ∷ ys) [] (added _ e) k = elim k [ ]
    Evolved-Pointwise xs (y ∷ ys) (z ∷ zs) (added _ e) k =
        added z (Evolved-Pointwise xs ys zs e k.1)

    pub Evolved-trans : (xs ys zs : List A) → Evolved xs ys → Evolved ys zs → Evolved xs zs
    Evolved-trans xs ys zs e (kept k) = Evolved-Pointwise xs ys zs e k
    Evolved-trans xs ys (z ∷ zs) e (added _ f) = added z (Evolved-trans xs ys zs e f)

module _ {A : Type 0} where
  pub All-every : (P : A → Type 0) → ((x : A) → P x) → (xs : List A) → All P xs
  All-every P h [] = tt
  All-every P h (x ∷ xs) = (h x, All-every P h xs)

  pub All-both :
      (P Q S : A → Type 0)
      → ((x : A) → P x → Q x → S x)
      → (xs : List A) → All P xs
      → All Q xs
      → All S xs
  All-both P Q S f [] p q = tt
  All-both P Q S f (x ∷ xs) p q = (f x p.0 q.0, All-both P Q S f xs p.1 q.1)

  -- An update leaves no row that `p` selects, if the SET takes each out of it and no other row
  -- comes into it.
  pub count_by-update_where :
      (p q : A → Bool) (f : A → A) (xs : List A)
      → ((x : A) → q x ≡ true → p (f x) ≡ false)
      → ((x : A) → q x ≡ false → p x ≡ false)
      → count_by p (update_where q f xs) ≡ 0
  count_by-update_where p q f [] h k = refl
  count_by-update_where p q f (x ∷ xs) h k = elim (Bool-cases (q x)) [
    | inl e ↦ rw (e, h x e) (count_by-update_where p q f xs h k)
    | inr e ↦ rw (e, k x e) (count_by-update_where p q f xs h k)
  ]

  -- Where the SET takes each row that it selects into `q`, which no such row was in, `q` gains them.
  pub count_by-update_where-moved :
      (p q : A → Bool) (f : A → A) (xs : List A)
      → ((x : A) → p x ≡ true → q x ≡ false)
      → ((x : A) → p x ≡ true → q (f x) ≡ true)
      → count_by q (update_where p f xs) ≡ count_by p xs + count_by q xs
  count_by-update_where-moved p q f [] out into = refl
  count_by-update_where-moved p q f (x ∷ xs) out into =
      let again = count_by-update_where-moved p q f xs out into in
      elim (Bool-cases (p x)) [
        | inl e ↦ rw (e, out x e, into x e) (omega arith)
        | inr e ↦ elim (Bool-cases (q x)) [
          | inl k ↦ rw (e, k) (omega arith)
          | inr k ↦ rw (e, k) (omega arith)
        ]
      ]
