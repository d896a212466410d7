-- ===== src/RateLimit.antt =====
-- `_hit_inmemory` of backend/app/rate_limit.py on the bucket of one scope and key: the times of
-- the admitted hits, oldest first, in nanoseconds of the monotonic clock. The Redis script is not
-- part of it.
pub mod Window
pub mod Retry
use garant.Base.{ℕ, ◌+◌, ◌-◌, ◌/◌, ◌^◌, List, [], ◌∷◌, ◌++◌, leb, if◌then◌else◌}

abbrev pub second : ℕ
second = 10 ^ 9

-- `_raise_429` with its `Retry-After` in seconds, and the `IndexError` of `bucket[0]` on an empty
-- bucket.
pub data Answer : Type 0 where
  admitted : Answer
  too_many : ℕ → Answer
  index_error : Answer

abbrev pub length : List ℕ → ℕ
length [] = 0
length (_ ∷ hits) = 1 + length hits

-- `while bucket and bucket[0] <= cutoff: bucket.popleft()`
unfoldable pub pop_expired : ℕ → ℕ → List ℕ → List ℕ
pop_expired window now [] = []
pop_expired window now (first ∷ hits) =
    let popped = pop_expired window now hits in
    if leb (first + window) now then popped else first ∷ hits

abbrev pub refusal : ℕ → ℕ → List ℕ → Answer
refusal window now [] = index_error
refusal window now (first ∷ _) = too_many ((first + window - now) / second + 1)

unfoldable pub hit_inmemory : ℕ → ℕ → ℕ → List ℕ → Answer × List ℕ
hit_inmemory limit window now bucket =
    let popped = pop_expired window now bucket in
    if leb limit (length popped)
    then (refusal window now popped, popped)
    else (admitted, popped ++ (now ∷ []))
