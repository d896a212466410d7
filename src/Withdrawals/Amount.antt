-- ===== src/Withdrawals/Amount.antt =====
-- The amount of a withdrawal's request (`WalletWithdrawCreateReq` of backend/app/schemas.py): a
-- positive `Decimal` that no code quantises, next to columns that hold whole units. How the
-- database rounds a value on its way into a Numeric(28, 8) column is a parameter, `Column`.
pub mod Whole
use garant.Base.{
  ℕ, ◌+◌, ◌-◌, ◌*◌, ◌^◌, ◌≡◌, Bool, ◌&&◌, ltb, leb, ◌==◌, if◌then◌else◌, none, some, ◌∷◌,
}
use garant.Base.Int.{ℤ, pos, sub_ℕ}
use garant.Wallet.{
  Balance, Wallet, LedgerEntry, Event, Source, find_balance, lock_user_balance, save_balance,
}

-- `digits / 10 ^ places` units, in lowest terms.
pub record Amount : Type 0 where
  pub digits : ℕ
  pub places : ℕ

abbrev pub Column : Type 0
Column = Amount → ℕ

abbrev pub whole : ℕ → Amount
whole x = record { digits = x; places = 0 }

-- A whole number of units is stored as it is.
abbrev pub IsExact : Column → Type 0
IsExact column = (x : ℕ) → column (whole x) ≡ x

-- `x` units, in the places of `amount`.
abbrev pub scaled : ℕ → Amount → ℕ
scaled x amount = x * 10 ^ amount.places

abbrev pub is_below : Amount → ℕ → Bool
is_below amount x = ltb amount.digits (scaled x amount)

abbrev pub exceeds : Amount → ℕ → Bool
exceeds amount x = ltb (scaled x amount) amount.digits

-- `x + amount`, and `max(0, x - amount)`
abbrev pub plus : ℕ → Amount → Amount
plus x amount = record amount { digits = scaled x amount + amount.digits }

abbrev pub minus : ℕ → Amount → Amount
minus x amount = record amount { digits = scaled x amount - amount.digits }

-- `after - before`, in its column.
unfoldable pub delta : Column → Amount → ℕ → ℤ
delta column after before =
    if leb (scaled before after) after.digits
    then pos (column (record after { digits = after.digits - scaled before after }))
    else sub_ℕ 0 (column (record after { digits = scaled before after - after.digits }))

unfoldable pub equals : Amount → ℕ → Bool
equals amount x = amount.digits == scaled x amount

-- What a helper does with a row where the new figures are `Decimal`s: the row and the entry are
-- flushed, each column rounded by itself.
unfoldable pub update_decimal :
    Column → ℕ → ℕ → (ℕ → ℕ → Amount × Amount) → Event → Source → Wallet → Wallet
update_decimal column user_id currency_id change event source w =
    let (bal, w') = lock_user_balance user_id currency_id w in
    let (amount, locked) = change bal.amount bal.locked in
    let saved = save_balance (record bal { amount = column amount; locked = column locked }) w' in
    if equals amount bal.amount && equals locked bal.locked then saved else record saved {
      entries =
          record {
            user_id = bal.user_id;
            currency_id = bal.currency_id;
            event = event;
            source = source;
            amount_before = bal.amount;
            amount_delta = delta column amount bal.amount;
            amount_after = column amount;
            locked_before = bal.locked;
            locked_delta = delta column locked bal.locked;
            locked_after = column locked;
          }
          ∷ saved.entries;
    }

unfoldable pub update_decimal_existing :
    Column → ℕ → ℕ → (ℕ → ℕ → Amount × Amount) → Event → Source → Wallet → Wallet
update_decimal_existing column user_id currency_id change event source w =
    elim (find_balance user_id currency_id w.balances) [
      | none ↦ w
      | some _ ↦ update_decimal column user_id currency_id change event source w
    ]
