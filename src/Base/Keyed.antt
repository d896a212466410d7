-- ===== src/Base/Keyed.antt =====
-- Tables in which no two rows have the same key, and loops over the rows that a SELECT gave.
use garant.Base.{
  ℕ, ◌+◌, ◌≡◌, refl, not, Bool, true, false, some, List, [], ◌∷◌, arith, ◌==◌, if◌then◌else◌,
  Bool-cases, inl, inr,
}
use garant.Base.Table.{All, get, put, sum_by, select, get-put, All-put, All-map}

pub All-select {ℓ} :
    {A : Type ℓ} (P : A → Type 0) (p : A → Bool) (xs : List A) → All P xs → All P (select p xs)
unfolding select
All-select P p [] h = tt
All-select P p (x ∷ xs) h = elim (Bool-cases (p x)) [
  | inl hit ↦ rw hit (h.0, All-select P p xs h.1)
  | inr miss ↦ rw miss (All-select P p xs h.1)
]

pub All-selected {ℓ} :
    {A : Type ℓ} (p : A → Bool) (xs : List A) → All (λ x. p x ≡ true) (select p xs)
unfolding select
All-selected p [] = tt
All-selected p (x ∷ xs) = elim (Bool-cases (p x)) [
  | inl hit ↦ rw hit (hit, All-selected p xs)
  | inr miss ↦ rw miss (All-selected p xs)
]

module _ {ℓ} {A : Type ℓ} (key : A → ℕ) where
  -- `y` has another key than `x`.
  abbrev pub Differs : A → A → Type 0
  Differs x y = (key x == key y) ≡ false

  abbrev pub Distinct : List A → Type 0
  Distinct [] = Unit
  Distinct (x ∷ xs) = All (Differs x) xs × Distinct xs

  same_key :
      (x a : A) (xs : List A) → (key x == key a) ≡ true → All (Differs x) xs → All (Differs a) xs
  same_key x a xs same h = All-map (Differs x) (Differs a) xs (λ y d. ground arith) h

  pub Distinct-put : (a : A) (xs : List A) → Distinct xs → Distinct (put key a xs)
  unfolding put
  Distinct-put a [] h = (tt, tt)
  Distinct-put a (x ∷ xs) h = elim (Bool-cases (key x == key a)) [
    | inl same ↦ rw same (same_key x a xs same h.0, h.1)
    | inr other ↦ rw other (All-put key (Differs x) a xs other h.0, Distinct-put a xs h.1)
  ]

  pub Distinct-select : (p : A → Bool) (xs : List A) → Distinct xs → Distinct (select p xs)
  unfolding select
  Distinct-select p [] h = tt
  Distinct-select p (x ∷ xs) h = elim (Bool-cases (p x)) [
    | inl hit ↦ rw hit (All-select (Differs x) p xs h.0, Distinct-select p xs h.1)
    | inr miss ↦ rw miss (Distinct-select p xs h.1)
  ]

module _ {A : Type 0} (key : A → ℕ) where
  -- Each row is the one that its key finds.
  pub Distinct-found : (xs : List A) → Distinct key xs → All (λ x. get key (key x) xs ≡ some x) xs
  unfolding get
  Distinct-found [] h = tt
  Distinct-found (x ∷ xs) h = (ground arith, below xs xs (Distinct-found xs h.1) h.0)
    where
      below :
          (ys zs : List A)
          → All (λ y. get key (key y) zs ≡ some y) ys
          → All (Differs key x) ys
          → All (λ y. (if key x == key y then some x else get key (key y) zs) ≡ some y) ys
      below [] zs f d = tt
      below (y ∷ ys) zs f d = (ground arith, below ys zs f.1 d.1)

  -- Writing one row leaves the others where they are.
  pub others-found :
      (a : A) (db rows : List A)
      → All (λ x. get key (key x) db ≡ some x) rows
      → All (Differs key a) rows
      → All (λ x. get key (key x) (put key a db) ≡ some x) rows
  others-found a db [] f d = tt
  others-found a db (x ∷ rows) f d =
      (ground (arith, get-put key (key x) a db), others-found a db rows f.1 d.1)

  -- The rows that a DELETE by key leaves.
  abbrev pub without : ℕ → List A → List A
  without k xs = select (λ x. not (key x == k)) xs

  without-others :
      (k : ℕ) (f : A → ℕ) (a : A) (xs : List A)
      → key a ≡ k
      → All (Differs key a) xs
      → sum_by f (without k xs) ≡ sum_by f xs
  unfolding select sum_by
  without-others k f a [] e d = refl
  without-others k f a (x ∷ xs) e d = ground (arith, without-others k f a xs e d.1, d.0)

  -- A DELETE takes the row's share out of a sum.
  pub sum_by-without :
      (k : ℕ) (f : A → ℕ) (a : A) (xs : List A)
      → Distinct key xs
      → get key k xs ≡ some a
      → sum_by f (without k xs) + f a ≡ sum_by f xs
  unfolding get select sum_by
  sum_by-without k f a [] d h = cc
  sum_by-without k f a (x ∷ xs) d h = elim (Bool-cases (key x == k)) [
    | inl hit ↦ ground (arith, without-others k f x xs (ground arith) d.0)
    | inr miss ↦ ground (arith, sum_by-without k f a xs d.1)
  ]
