-- ===== src/Tests/RateLimit.antt =====
-- Two hits in 60 nanoseconds on one key of the limiter.
use garant.Base.{ℕ, ◌+◌, ◌*◌, ◌≤◌, ◌≡◌, refl, List, [], ◌∷◌, arith}
use garant.RateLimit.{second, admitted, too_many, pop_expired, hit_inmemory}
use garant.RateLimit.Window.{
  count, is_within, Ascends, passed, permitted, passed-refines, passed-le,
}
use garant.RateLimit.Retry.{retry-admits}

abbrev times : List ℕ
times = 0 ∷ 10 ∷ 20 ∷ 65 ∷ 70 ∷ []

times-Ascends : Ascends 0 times
times-Ascends = (omega arith, (omega arith, (omega arith, (omega arith, (omega arith, tt)))))

passed-eq : passed 2 60 times [] [] ≡ 70 ∷ 65 ∷ 10 ∷ 0 ∷ []
unfolding passed hit_inmemory pop_expired
passed-eq = refl

passed-refines_example : passed 2 60 times [] [] ≡ permitted 2 60 times []
passed-refines_example = passed-refines 60 2 0 times times-Ascends

passed-le_example : count (is_within 60 69) (passed 2 60 times [] []) ≤ 2
passed-le_example = passed-le 60 2 0 69 times times-Ascends

abbrev bucket : List ℕ
bucket = 0 ∷ 10 ∷ []

refused : (hit_inmemory 2 60 20 bucket).0 ≡ too_many 1
unfolding hit_inmemory pop_expired
refused = refl

retry-admits_example :
    (hit_inmemory 2 60 (20 + 1 * second) (hit_inmemory 2 60 20 bucket).1).0 ≡ admitted
retry-admits_example = retry-admits 2 60 20 1 bucket (omega arith) (omega arith) refused
