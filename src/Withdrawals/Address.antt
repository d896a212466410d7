-- ===== src/Withdrawals/Address.antt =====
-- The address of a withdrawal: `_sanitise_withdraw_address`, `_truncate_address` and
-- `_safe_fullmatch` of backend/app/services_wallet.py. The regular expression is matched by a
-- child process; what the parent hears of it is a parameter.
pub mod Bounds
use garant.Base.{
  ℕ, ◌+◌, ◌-◌, Bool, true, false, not, ◌||◌, ◌&&◌, Option, none, some, List, [], ◌∷◌, ◌++◌, ltb,
  leb, ◌==◌, if◌then◌else◌,
}
use garant.Base.Table.{select}
use garant.Base.Text.{Text, strip, length, take, drop}

abbrev pub withdraw_address_max_len : ℕ
withdraw_address_max_len = 256

-- Control bytes, DEL and the backslash
abbrev pub is_forbidden : ℕ → Bool
is_forbidden c = ltb c 32 || c == 0x7f || c == b'\\'

unfoldable pub sanitise_withdraw_address : Text → Text
unfolding strip
sanitise_withdraw_address raw =
    take withdraw_address_max_len (strip (select (λ c. not (is_forbidden c)) raw))

-- `addr[:head]…addr[-tail:]` with head = tail = 6
unfoldable pub truncate_address : Text → Text
truncate_address addr =
    if leb (length addr) 15 then addr else take 6 addr ++ (0x2026 ∷ drop (length addr - 6) addr)

-- What the child process of `_safe_fullmatch` reports within its time.
pub data MatchReply : Type 0 where
  timed_out no_result invalid_regex worker_failed : MatchReply
  matched : Bool → MatchReply

unfoldable pub safe_fullmatch : MatchReply → Bool
safe_fullmatch (matched b) = b
safe_fullmatch _ = false

-- `_sanitise_withdraw_address(address) or None`
abbrev pub or_none : Text → Option Text
or_none [] = none
or_none (c ∷ cs) = some (c ∷ cs)

unfoldable pub clean_address : Option Text → Option Text
unfolding sanitise_withdraw_address
clean_address none = none
clean_address (some raw) = or_none (sanitise_withdraw_address raw)

-- The address fails the currency's regular expression.
abbrev pub is_refused : Bool → MatchReply → Option Text → Bool
is_refused has_regex reply none = false
is_refused has_regex reply (some _) = has_regex && not (safe_fullmatch reply)
