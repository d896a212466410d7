-- ===== src/RateLimit/Retry.antt =====
-- The `Retry-After` of backend/app/rate_limit.py and the size of a bucket.
use garant.Base.{
  ℕ, ◌+◌, ◌-◌, ◌*◌, ◌/◌, ◌≤◌, ◌≡◌, refl, sym, subst, true, false, List, [], ◌∷◌, ◌++◌, arith, leb,
  Bool-cases, inl, inr,
}
use garant.RateLimit.{
  second, Answer, admitted, too_many, length, pop_expired, refusal, hit_inmemory,
}

pop_expired-shortens :
    (window now : ℕ) (bucket : List ℕ) → length (pop_expired window now bucket) ≤ length bucket
unfolding pop_expired
pop_expired-shortens window now [] = omega arith
pop_expired-shortens window now (first ∷ hits) =
    let rest = pop_expired-shortens window now hits in ground arith

length-append : (bucket : List ℕ) (now : ℕ) → length (bucket ++ (now ∷ [])) ≡ 1 + length bucket
length-append [] now = refl
length-append (hit ∷ hits) now = let rest = length-append hits now in omega arith

pub hit_inmemory-length :
    (limit window now : ℕ) (bucket : List ℕ)
    → length bucket ≤ limit
    → length (hit_inmemory limit window now bucket).1 ≤ limit
unfolding hit_inmemory
hit_inmemory-length limit window now bucket fits =
    let popped = pop_expired window now bucket in
    let shorter = pop_expired-shortens window now bucket in
    let longer = length-append popped now in
    elim (Bool-cases (leb limit (length popped))) [
      | inl full ↦ rw full (omega arith)
      | inr free ↦ rw free (ground arith)
    ]

too_many-inj : {a b : ℕ} → too_many a ≡ too_many b → a ≡ b
too_many-inj h = cc

-- The whole seconds and one more are at least the time.
seconds-cover : (n : ℕ) → n ≤ (n / second + 1) * second
seconds-cover n = omega arith

module _ (limit window now retry : ℕ) where
  later_hit :
      (popped : List ℕ)
      → 1 ≤ limit
      → length popped ≤ limit
      → leb limit (length popped) ≡ true
      → refusal window now popped ≡ too_many retry
      → (hit_inmemory limit window (now + retry * second) popped).0 ≡ admitted
  unfolding hit_inmemory pop_expired
  later_hit [] some_limit fits full refused = ground arith
  later_hit (first ∷ hits) some_limit fits full refused =
      let same = too_many-inj refused in
      let late = seconds-cover (first + window - now) in
      let shorter = pop_expired-shortens window (now + retry * second) hits in
      let due : leb (first + window) (now + retry * second) ≡ true = ground arith in
      let room : leb limit (length (pop_expired window (now + retry * second) hits)) ≡ false =
        ground arith in
      rw due (rw room refl)

  hit_inmemory-full :
      (bucket : List ℕ)
      → leb limit (length (pop_expired window now bucket)) ≡ true
      → hit_inmemory limit window now bucket
        ≡ (refusal window now (pop_expired window now bucket), pop_expired window now bucket)
  unfolding hit_inmemory
  hit_inmemory-full bucket full = rw full refl

  hit_inmemory-free :
      (bucket : List ℕ)
      → leb limit (length (pop_expired window now bucket)) ≡ false
      → hit_inmemory limit window now bucket
        ≡ (admitted, pop_expired window now bucket ++ (now ∷ []))
  unfolding hit_inmemory
  hit_inmemory-free bucket free = rw free refl

  -- What is to be shown of the answer to a hit.
  abbrev Retries : Answer × List ℕ → Type 0
  Retries hit =
      hit.0 ≡ too_many retry → (hit_inmemory limit window (now + retry * second) hit.1).0 ≡ admitted

  admitted-Retries : (bucket : List ℕ) → Retries (admitted, bucket)
  admitted-Retries bucket clash = cc

  -- At a positive limit and on a bucket of at most limit hits, a hit that is refused with a
  -- Retry-After is admitted when it is repeated after that number of seconds.
  pub retry-admits :
      (bucket : List ℕ)
      → 1 ≤ limit
      → length bucket ≤ limit
      → (hit_inmemory limit window now bucket).0 ≡ too_many retry
      → (hit_inmemory limit window
          (now + retry * second)
          (hit_inmemory limit window now bucket).1).0
        ≡ admitted
  retry-admits bucket some_limit fits =
      let popped = pop_expired window now bucket in
      let shorter = pop_expired-shortens window now bucket in
      elim (Bool-cases (leb limit (length popped))) [
        | inl full ↦
            subst Retries (sym (hit_inmemory-full bucket full))
              (later_hit popped some_limit (omega arith) full)
        | inr free ↦
            subst Retries (sym (hit_inmemory-free bucket free))
              (admitted-Retries (popped ++ (now ∷ [])))
      ]
