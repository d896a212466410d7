-- ===== src/Base/Table.antt =====
-- A database table as a list of rows under a key. `put` overwrites the row with the key of the
-- given one (an UPDATE), or appends it (an INSERT).
use garant.Base.{
  ℕ, ◌+◌, ◌≤◌, ◌<◌, ◌≡◌, refl, subst, Bool, true, false, Option, none, some, List, [], ◌∷◌, arith,
  ◌==◌, if◌then◌else◌, Bool-cases, inl, inr,
}

abbrev pub All {ℓ} : {A : Type ℓ} → (A → Type 0) → List A → Type 0
All P [] = Unit
All P (x ∷ xs) = P x × All P xs

unfoldable pub sum_by {ℓ} : {A : Type ℓ} → (A → ℕ) → List A → ℕ
sum_by f [] = 0
sum_by f (x ∷ xs) = f x + sum_by f xs

module _ {ℓ} {A : Type ℓ} (key : A → ℕ) where
  unfoldable pub get : ℕ → List A → Option A
  get k [] = none
  get k (x ∷ xs) = if key x == k then some x else get k xs

  unfoldable pub put : A → List A → List A
  put a [] = a ∷ []
  put a (x ∷ xs) = if key x == key a then a ∷ xs else x ∷ put a xs

  pub get-put :
      (k : ℕ) (a : A) (xs : List A) → get k (put a xs) ≡ (if key a == k then some a else get k xs)
  unfolding get put
  get-put k a [] = refl
  get-put k a (x ∷ xs) = ground (arith, get-put k a xs)

  -- The key of the row that is found is the one asked for.
  pub get-key : (k : ℕ) (a : A) (xs : List A) → get k xs ≡ some a → key a ≡ k
  unfolding get
  get-key k a [] h = cc
  get-key k a (x ∷ xs) h = ground (arith, get-key k a xs)

  -- Overwriting a row replaces its share of a sum.
  pub sum_by-put :
      (f : A → ℕ) (a old : A) (xs : List A)
      → get (key a) xs ≡ some old
      → sum_by f (put a xs) + f old ≡ sum_by f xs + f a
  unfolding get put sum_by
  sum_by-put f a old [] h = cc
  sum_by-put f a old (x ∷ xs) h = ground (arith, sum_by-put f a old xs)

  -- A new row adds its share.
  pub sum_by-put_new :
      (f : A → ℕ) (a : A) (xs : List A)
      → get (key a) xs ≡ none
      → sum_by f (put a xs) ≡ sum_by f xs + f a
  unfolding get put sum_by
  sum_by-put_new f a [] h = omega arith
  sum_by-put_new f a (x ∷ xs) h = ground (arith, sum_by-put_new f a xs)

  -- A stored row's share is within the sum.
  pub le-sum_by : (f : A → ℕ) (k : ℕ) (a : A) (xs : List A) → get k xs ≡ some a → f a ≤ sum_by f xs
  unfolding get sum_by
  le-sum_by f k a [] h = cc
  le-sum_by f k a (x ∷ xs) h = ground (arith, le-sum_by f k a xs)

  pub All-get : (P : A → Type 0) (k : ℕ) (a : A) (xs : List A) → All P xs → get k xs ≡ some a → P a
  unfolding get
  All-get P k a [] h e = cc
  All-get P k a (x ∷ xs) h e = elim (Bool-cases (key x == k)) [
    | inl same ↦ subst P (cc (take same)) h.0
    | inr other ↦ All-get P k a xs h.1 (rest other)
  ]
    where
      take : key x == k ≡ true → x ≡ a
      take same = ground arith

      rest : key x == k ≡ false → get k xs ≡ some a
      rest other = ground arith

  pub All-put : (P : A → Type 0) (a : A) (xs : List A) → P a → All P xs → All P (put a xs)
  unfolding put
  All-put P a [] p h = (p, tt)
  All-put P a (x ∷ xs) p h = elim (Bool-cases (key x == key a)) [
    | inl same ↦ rw same (p, h.1)
    | inr other ↦ rw other (h.0, All-put P a xs p h.1)
  ]

-- `SELECT … WHERE`
unfoldable pub select {ℓ} : {A : Type ℓ} → (A → Bool) → List A → List A
select p [] = []
select p (x ∷ xs) = if p x then x ∷ select p xs else select p xs

pub All-map {ℓ} :
    {A : Type ℓ} (P Q : A → Type 0) (xs : List A) → ((a : A) → P a → Q a) → All P xs → All Q xs
All-map P Q [] f h = tt
All-map P Q (x ∷ xs) f h = (f x h.0, All-map P Q xs f h.1)

abbrev pub first_row {ℓ} : {A : Type ℓ} → List A → Option A
first_row [] = none
first_row (x ∷ _) = some x

pub All-first_row-select {ℓ} :
    {A : Type ℓ} (P : A → Type 0) (p : A → Bool) (a : A) (xs : List A)
    → All P xs
    → first_row (select p xs) ≡ some a
    → P a
unfolding select
All-first_row-select P p a [] h e = cc
All-first_row-select P p a (x ∷ xs) h e = elim (Bool-cases (p x)) [
  | inl hit ↦ subst P (here hit) h.0
  | inr miss ↦ All-first_row-select P p a xs h.1 (there miss)
]
  where
    here : p x ≡ true → x ≡ a
    here hit = ground arith

    there : p x ≡ false → first_row (select p xs) ≡ some a
    there miss = ground arith

module _ {ℓ} {A : Type ℓ} (key : A → ℕ) where
  -- A key that is above all keys of the table is free.
  pub get_fresh : (n : ℕ) (xs : List A) → All (λ x. key x < n) xs → get key n xs ≡ none
  unfolding get
  get_fresh n [] h = refl
  get_fresh n (x ∷ xs) h = ground (arith, get_fresh n xs h.1)
