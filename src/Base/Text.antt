-- ===== src/Base/Text.antt =====
-- Python's `str` as a list of code points: the whitespace of `str.strip`, and upper case for ASCII.
use garant.Base.{
  ℕ, ◌+◌, ◌-◌, Bool, true, false, ◌&&◌, ◌||◌, List, [], ◌∷◌, map, reverse, leb, ◌==◌, if◌then◌else◌,
}

abbrev pub Text : Type 0
Text = List ℕ

-- `str.isspace`
unfoldable pub is_space : ℕ → Bool
is_space c =
    leb 9 c && leb c 13
    || leb 28 c && leb c 32
    || c == 0x85
    || c == 0xa0
    || c == 0x1680
    || leb 0x2000 c && leb c 0x200a
    || c == 0x2028
    || c == 0x2029
    || c == 0x202f
    || c == 0x205f
    || c == 0x3000

-- `not reason or not reason.strip()`
unfoldable pub is_blank : Text → Bool
is_blank [] = true
is_blank (c ∷ cs) = is_space c && is_blank cs

unfoldable pub upper : Text → Text
upper = map (λ c. if leb b'a' c && leb c b'z' then c - 32 else c)

unfoldable pub same_text : Text → Text → Bool
same_text [] [] = true
same_text (c ∷ cs) (d ∷ ds) = c == d && same_text cs ds
same_text _ _ = false

unfoldable pub strip_left : Text → Text
strip_left [] = []
strip_left (c ∷ cs) = if is_space c then strip_left cs else c ∷ cs

-- `str.strip`
unfoldable pub strip : Text → Text
unfolding strip_left is_space
strip cs = reverse (strip_left (reverse (strip_left cs)))

abbrev pub length : Text → ℕ
length [] = 0
length (_ ∷ cs) = 1 + length cs

-- `cs[:n]` and `cs[n:]`
unfoldable pub take : ℕ → Text → Text
take n [] = []
take n (c ∷ cs) = if n == 0 then [] else c ∷ take (n - 1) cs

unfoldable pub drop : ℕ → Text → Text
drop n [] = []
drop n (c ∷ cs) = if n == 0 then c ∷ cs else drop (n - 1) cs
