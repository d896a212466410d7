-- ===== src/Withdrawals/Address/Bounds.antt =====
-- What `_sanitise_withdraw_address` and `_truncate_address` of backend/app/services_wallet.py
-- guarantee of the text that they give.
use garant.Base.{
  ℕ, ◌+◌, ◌-◌, ◌≤◌, ◌≡◌, sym, subst, true, not, [], ◌∷◌, ◌++◌, arith, reverse, reverse-cons, ◌==◌,
  Bool-cases, inl, inr,
}
use garant.Base.Table.{All, select}
use garant.Base.Keyed.{All-selected}
use garant.Base.Text.{Text, strip, strip_left, is_space, length, take, drop}
use garant.Withdrawals.Address.{
  withdraw_address_max_len, is_forbidden, sanitise_withdraw_address, truncate_address,
}

abbrev pub IsClean : Text → Type 0
IsClean t = All (λ c. not (is_forbidden c) ≡ true) t

length-take : (n : ℕ) (t : Text) → length (take n t) ≤ n
unfolding take
length-take n [] = omega arith
length-take n (c ∷ cs) = ground (arith, length-take (n - 1) cs)

length-drop : (n : ℕ) (t : Text) → length (drop n t) ≡ length t - n
unfolding drop
length-drop n [] = omega arith
length-drop n (c ∷ cs) = ground (arith, length-drop (n - 1) cs)

length-++ : (s t : Text) → length (s ++ t) ≡ length s + length t
length-++ [] t = omega arith
length-++ (c ∷ cs) t = omega (arith, length-++ cs t)

IsClean-take : (n : ℕ) (t : Text) → IsClean t → IsClean (take n t)
unfolding take
IsClean-take n [] h = tt
IsClean-take n (c ∷ cs) h = elim (Bool-cases (n == 0)) [
  | inl stop ↦ rw stop tt
  | inr more ↦ rw more (h.0, IsClean-take (n - 1) cs h.1)
]

IsClean-strip_left : (t : Text) → IsClean t → IsClean (strip_left t)
unfolding strip_left
IsClean-strip_left [] h = tt
IsClean-strip_left (c ∷ cs) h = elim (Bool-cases (is_space c)) [
  | inl blank ↦ rw blank (IsClean-strip_left cs h.1)
  | inr solid ↦ rw solid h
]

IsClean-++ : (s t : Text) → IsClean s → IsClean t → IsClean (s ++ t)
IsClean-++ [] t h k = k
IsClean-++ (c ∷ cs) t h k = (h.0, IsClean-++ cs t h.1 k)

IsClean-reverse : (t : Text) → IsClean t → IsClean (reverse t)
IsClean-reverse [] h = tt
IsClean-reverse (c ∷ cs) h =
    subst IsClean (sym (reverse-cons c cs))
      (IsClean-++ (reverse cs) (c ∷ []) (IsClean-reverse cs h.1) (h.0, tt))

IsClean-strip : (t : Text) → IsClean t → IsClean (strip t)
unfolding strip
IsClean-strip t h =
    IsClean-reverse _
      (IsClean-strip_left _ (IsClean-reverse (strip_left t) (IsClean-strip_left t h)))

-- A sanitised address has no forbidden character and at most withdraw_address_max_len
-- characters.
pub sanitise_withdraw_address-IsClean :
    (raw : Text)
    → IsClean (sanitise_withdraw_address raw)
      × (length (sanitise_withdraw_address raw) ≤ withdraw_address_max_len)
unfolding sanitise_withdraw_address
sanitise_withdraw_address-IsClean raw = (
  IsClean-take withdraw_address_max_len (strip (select (λ c. not (is_forbidden c)) raw))
      (IsClean-strip _ (All-selected (λ c. not (is_forbidden c)) raw)),
  length-take withdraw_address_max_len (strip (select (λ c. not (is_forbidden c)) raw)),
)

pub length-truncate_address : (addr : Text) → length (truncate_address addr) ≤ 15
unfolding truncate_address
length-truncate_address addr = ground (
  arith,
  length-take 6 addr,
  length-drop (length addr - 6) addr,
  length-++ (take 6 addr) (0x2026 ∷ drop (length addr - 6) addr),
)
