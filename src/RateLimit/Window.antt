-- ===== src/RateLimit/Window.antt =====
-- The limiter of backend/app/rate_limit.py against its description: a hit passes when fewer than
-- `limit` hits passed in the window that ends with it.
use garant.Base.{
  ℕ, ◌+◌, ◌≤◌, ◌≡◌, refl, sym, ap, subst, ◌∙◌, Bool, true, false, List, [], ◌∷◌, ◌++◌, arith, leb,
  ltb, ◌&&◌, if◌then◌else◌, Bool-cases, inl, inr,
}
use garant.RateLimit.{
  Answer, admitted, too_many, index_error, length, pop_expired, refusal, hit_inmemory,
}

unfoldable pub count : (ℕ → Bool) → List ℕ → ℕ
count p [] = 0
count p (hit ∷ hits) = (if p hit then 1 else 0) + count p hits

-- The hit still counts at the time `now`.
abbrev pub is_recent : ℕ → ℕ → ℕ → Bool
is_recent window now hit = ltb now (hit + window)

-- The hit is in the span of `window` ticks that ends with `now`.
abbrev pub is_within : ℕ → ℕ → ℕ → Bool
is_within window now hit = leb hit now && ltb now (hit + window)

-- Each time is at least the one before it.
abbrev pub Ascends : ℕ → List ℕ → Type 0
Ascends last [] = Unit
Ascends last (now ∷ later) = (last ≤ now) × Ascends now later

abbrev pub is_admitted : Answer → Bool
is_admitted admitted = true
is_admitted (too_many _) = false
is_admitted index_error = false

-- The hits that the limiter admits, latest first, after those of `log`.
unfoldable pub passed : ℕ → ℕ → List ℕ → List ℕ → List ℕ → List ℕ
passed limit window [] bucket log = log
passed limit window (now ∷ later) bucket log =
    let hit = hit_inmemory limit window now bucket in
    passed limit window later hit.1 (if is_admitted hit.0 then now ∷ log else log)

-- The description, which forgets nothing.
unfoldable pub permitted : ℕ → ℕ → List ℕ → List ℕ → List ℕ
permitted limit window [] log = log
permitted limit window (now ∷ later) log =
    permitted limit window later
      (if ltb (count (is_recent window now) log) limit then now ∷ log else log)

abbrev pub UpTo : ℕ → List ℕ → Type 0
UpTo last [] = Unit
UpTo last (hit ∷ hits) = (hit ≤ last) × UpTo last hits

UpTo-later : (last now : ℕ) (hits : List ℕ) → last ≤ now → UpTo last hits → UpTo now hits
UpTo-later last now [] le h = tt
UpTo-later last now (hit ∷ hits) le h = (omega arith, UpTo-later last now hits le h.1)

-- Oldest first.
abbrev pub Aged : List ℕ → Type 0
Aged [] = Unit
Aged (first ∷ hits) = Ascends first hits

module _ (window : ℕ) where
  count-append :
      (p : ℕ → Bool) (hits : List ℕ) (now : ℕ) → count p (hits ++ (now ∷ [])) ≡ count p (now ∷ hits)
  unfolding count
  count-append p [] now = refl
  count-append p (hit ∷ hits) now = let rest = count-append p hits now in omega arith

  -- What is popped at `now` does not count later.
  count-pop_expired :
      (now later : ℕ) (hits : List ℕ)
      → now ≤ later
      → count (is_recent window later) (pop_expired window now hits)
        ≡ count (is_recent window later) hits
  unfolding count pop_expired
  count-pop_expired now later [] le = refl
  count-pop_expired now later (first ∷ hits) le =
      let rest = count-pop_expired now later hits le in ground arith

  all_recent :
      (now first : ℕ) (hits : List ℕ)
      → ltb now (first + window) ≡ true
      → Ascends first hits
      → count (is_recent window now) hits ≡ length hits
  unfolding count
  all_recent now first [] fresh up = refl
  all_recent now first (hit ∷ hits) fresh up =
      let rest = all_recent now hit hits (ground arith) up.1 in ground arith

  -- What is left counts.
  pop_expired-length :
      (now : ℕ) (hits : List ℕ)
      → Aged hits
      → length (pop_expired window now hits) ≡ count (is_recent window now) hits
  unfolding count pop_expired
  pop_expired-length now [] up = refl
  pop_expired-length now (first ∷ []) up = ground arith
  pop_expired-length now (first ∷ second ∷ hits) up = elim (Bool-cases (leb (first + window) now)) [
    | inl gone ↦ let rest = pop_expired-length now (second ∷ hits) up.1 in ground arith
    | inr here ↦ let rest = all_recent now first (second ∷ hits) (ground arith) up in ground arith
  ]

  Ascends-earlier :
      (first second : ℕ) (hits : List ℕ) → first ≤ second → Ascends second hits → Ascends first hits
  Ascends-earlier first second [] le up = tt
  Ascends-earlier first second (hit ∷ hits) le up = (omega arith, up.1)

  Ascends-Aged : (first : ℕ) (hits : List ℕ) → Ascends first hits → Aged hits
  Ascends-Aged first [] up = tt
  Ascends-Aged first (hit ∷ hits) up = up.1

  pop_expired-Aged : (now : ℕ) (hits : List ℕ) → Aged hits → Aged (pop_expired window now hits)
  unfolding pop_expired
  pop_expired-Aged now [] up = tt
  pop_expired-Aged now (first ∷ hits) up = elim (Bool-cases (leb (first + window) now)) [
    | inl gone ↦ rw gone (pop_expired-Aged now hits (Ascends-Aged first hits up))
    | inr here ↦ rw here up
  ]

  pop_expired-UpTo :
      (last now : ℕ) (hits : List ℕ) → UpTo last hits → UpTo last (pop_expired window now hits)
  unfolding pop_expired
  pop_expired-UpTo last now [] h = tt
  pop_expired-UpTo last now (first ∷ hits) h = elim (Bool-cases (leb (first + window) now)) [
    | inl gone ↦ rw gone (pop_expired-UpTo last now hits h.1)
    | inr here ↦ rw here h
  ]

  append-Ascends :
      (first now : ℕ) (hits : List ℕ)
      → first ≤ now
      → Ascends first hits
      → UpTo now hits
      → Ascends first (hits ++ (now ∷ []))
  append-Ascends first now [] le up h = (le, tt)
  append-Ascends first now (hit ∷ hits) le up h = (up.0, append-Ascends hit now hits h.0 up.1 h.1)

  append-Aged : (now : ℕ) (hits : List ℕ) → Aged hits → UpTo now hits → Aged (hits ++ (now ∷ []))
  append-Aged now [] up h = tt
  append-Aged now (first ∷ hits) up h = append-Ascends first now hits h.0 up h.1

  append-UpTo : (now : ℕ) (hits : List ℕ) → UpTo now hits → UpTo now (hits ++ (now ∷ []))
  append-UpTo now [] h = (omega arith, tt)
  append-UpTo now (hit ∷ hits) h = (h.0, append-UpTo now hits h.1)

  -- The bucket counts what the log counts, from `last` on.
  abbrev Follows : ℕ → List ℕ → List ℕ → Type 0
  Follows last bucket log =
      Aged bucket
      × UpTo last bucket
      × ((now : ℕ)
          → last ≤ now
          → count (is_recent window now) bucket ≡ count (is_recent window now) log)

  Follows-pop_expired :
      (last now : ℕ) (bucket log : List ℕ)
      → last ≤ now
      → Follows last bucket log
      → Follows now (pop_expired window now bucket) log
  Follows-pop_expired last now bucket log le (up, low, same) = (
    pop_expired-Aged now bucket up,
    pop_expired-UpTo now now bucket (UpTo-later last now bucket le low),
    λ later after. count-pop_expired now later bucket after ∙ same later (omega arith),
  )

  Follows-append :
      (now : ℕ) (bucket log : List ℕ)
      → Follows now bucket log
      → Follows now (bucket ++ (now ∷ [])) (now ∷ log)
  unfolding count
  Follows-append now bucket log (up, low, same) = (
    append-Aged now bucket up low,
    append-UpTo now bucket low,
    λ later after.
        let counted = count-append (is_recent window later) bucket now in
        let before = same later after in omega arith,
  )

  refusal-refuses : (now : ℕ) (bucket : List ℕ) → is_admitted (refusal window now bucket) ≡ false
  refusal-refuses now [] = refl
  refusal-refuses now (first ∷ hits) = refl

  popped-length :
      (last now : ℕ) (bucket log : List ℕ)
      → last ≤ now
      → Follows last bucket log
      → length (pop_expired window now bucket) ≡ count (is_recent window now) log
  popped-length last now bucket log le (up, low, same) =
      pop_expired-length now bucket up ∙ same now le

  -- A hit on the bucket answers as the description does, and the two stay together.
  abbrev Agrees : ℕ → ℕ → List ℕ → Answer × List ℕ → Type 0
  Agrees limit now log hit =
      (is_admitted hit.0 ≡ ltb (count (is_recent window now) log) limit)
      × Follows now hit.1 (if is_admitted hit.0 then now ∷ log else log)

  hit_inmemory-Agrees :
      (limit last now : ℕ) (bucket log : List ℕ)
      → last ≤ now
      → Follows last bucket log
      → Agrees limit now log (hit_inmemory limit window now bucket)
  unfolding hit_inmemory
  hit_inmemory-Agrees limit last now bucket log le follows =
      let long = popped-length last now bucket log le follows in
      let popped = Follows-pop_expired last now bucket log le follows in
      let refuses = refusal-refuses now (pop_expired window now bucket) in
      elim (Bool-cases (leb limit (length (pop_expired window now bucket)))) [
        | inl full ↦ rw full (rw refuses (ground arith, popped))
        | inr free ↦
            rw free (ground arith, Follows-append now (pop_expired window now bucket) log popped)
      ]

  passed-permitted :
      (limit last : ℕ) (times bucket log : List ℕ)
      → Ascends last times
      → Follows last bucket log
      → passed limit window times bucket log ≡ permitted limit window times log
  unfolding passed permitted
  passed-permitted limit last [] bucket log up follows = refl
  passed-permitted limit last (now ∷ later) bucket log up follows =
      let hit = hit_inmemory limit window now bucket in
      let (same, next) = hit_inmemory-Agrees limit last now bucket log up.0 follows in
      let rest =
        passed-permitted limit now later hit.1 (if is_admitted hit.0 then now ∷ log else log) up.1
          next in
      rest ∙ ap (λ b. permitted limit window later (if b then now ∷ log else log)) same

  -- For a clock that does not run back, the hits that hit_inmemory admits on an empty bucket
  -- are exactly those of the description: a hit is admitted when fewer than limit admitted
  -- hits are less than window ticks old.
  pub passed-refines :
      (limit last : ℕ) (times : List ℕ)
      → Ascends last times
      → passed limit window times [] [] ≡ permitted limit window times []
  passed-refines limit last times up =
      passed-permitted limit last times [] [] up (tt, tt, λ _ _. refl)

  -- Up to a later time, what counts in a span counts at its last hit.
  within-le :
      (now span : ℕ) (log : List ℕ)
      → now ≤ span
      → count (is_within window span) log ≤ count (is_recent window now) log
  unfolding count
  within-le now span [] le = omega arith
  within-le now span (hit ∷ hits) le = let rest = within-le now span hits le in ground arith

  permitted-le :
      (limit span : ℕ) (times log : List ℕ)
      → count (is_within window span) log ≤ limit
      → count (is_within window span) (permitted limit window times log) ≤ limit
  unfolding permitted count
  permitted-le limit span [] log few = few
  permitted-le limit span (now ∷ later) log few =
      permitted-le limit span later
        (if ltb (count (is_recent window now) log) limit then now ∷ log else log)
        (elim (Bool-cases (leb now span)) [
          | inl inside ↦ let fits = within-le now span log (ground arith) in ground arith
          | inr outside ↦ ground arith
        ])

  -- For a clock that does not run back, every span of window ticks contains at most limit of
  -- the hits that hit_inmemory admits on an empty bucket.
  pub passed-le :
      (limit last span : ℕ) (times : List ℕ)
      → Ascends last times
      → count (is_within window span) (passed limit window times [] []) ≤ limit
  unfolding count
  passed-le limit last span times up =
      subst (λ log. count (is_within window span) log ≤ limit)
        (sym (passed-refines limit last times up)) (permitted-le limit span times [] (omega arith))
