-- ===== src/Wallet/Total.antt =====
-- The funds of a currency over all users, spendable and locked.
use garant.Base.{
  ℕ, ◌+◌, ◌≡◌, Option, none, some, List, [], ◌∷◌, arith, ◌==◌, if◌then◌else◌, Option-cases, inl,
  inr,
}
use garant.Wallet.{
  Balance, Wallet, Event, Source, find_balance, put_balance, save_balance, new_balance,
  lock_user_balance, record_balance_ledger, update_balance, amount_of, locked_of,
}
use garant.Wallet.Rows.{changed, find-put_balance, update_balance-eq}

abbrev pub funds : ℕ → Balance → ℕ
funds c b = if b.currency_id == c then b.amount + b.locked else 0

unfoldable pub total_rows : ℕ → List Balance → ℕ
total_rows c [] = 0
total_rows c (b ∷ rows) = funds c b + total_rows c rows

pub total : ℕ → Wallet → ℕ
total c w = total_rows c w.balances

-- What a user holds of a currency.
abbrev pub held_by : ℕ → ℕ → Wallet → ℕ
held_by u c w = amount_of u c w + locked_of u c w

row_funds : Option Balance → ℕ
row_funds none = 0
row_funds (some b) = b.amount + b.locked

total_rows-put_balance :
    (k : ℕ) (a : Balance) (rows : List Balance)
    → total_rows k (put_balance a rows)
        + (if a.currency_id == k then row_funds (find_balance a.user_id a.currency_id rows) else 0)
      ≡ total_rows k rows + funds k a
unfolding total_rows put_balance find_balance row_funds
total_rows-put_balance k a [] = ground arith
total_rows-put_balance k a (b ∷ rows) = ground (arith, total_rows-put_balance k a rows)

held_by-row_funds : (u c : ℕ) (w : Wallet) → row_funds (find_balance u c w.balances) ≡ held_by u c w
unfolding row_funds amount_of locked_of
held_by-row_funds u c w = ground arith

pub lock_user_balance-total :
    (k u c : ℕ) (w : Wallet) → total k (lock_user_balance u c w).1 ≡ total k w
unfolding total lock_user_balance row_funds
lock_user_balance-total k u c w = elim (Option-cases (find_balance u c w.balances)) [
  | inl missing ↦ ground (arith, total_rows-put_balance k (new_balance u c) w.balances)
  | inr (b, found) ↦ ground arith
]

pub lock_user_balance-held :
    (u c : ℕ) (w : Wallet) → held_by u c (lock_user_balance u c w).1 ≡ held_by u c w
unfolding lock_user_balance amount_of locked_of
lock_user_balance-held u c w = elim (Option-cases (find_balance u c w.balances)) [
  | inl missing ↦ ground (arith, find-put_balance u c (new_balance u c) w.balances)
  | inr (b, found) ↦ ground arith
]

pub save_balance-total :
    (k : ℕ) (a : Balance) (w : Wallet)
    → total k (save_balance a w)
        + (if a.currency_id == k then held_by a.user_id a.currency_id w else 0)
      ≡ total k w + funds k a
unfolding total
save_balance-total k a w =
    rw (← held_by-row_funds a.user_id a.currency_id w) (total_rows-put_balance k a w.balances)

pub record_balance_ledger-total :
    (k : ℕ) (bal : Balance) (a l : ℕ) (ev : Event) (src : Source) (w : Wallet)
    → total k (record_balance_ledger bal a l ev src w) ≡ total k w
unfolding record_balance_ledger total
record_balance_ledger-total k bal a l ev src w = ground arith

-- An update changes the total of its currency by what it changes in its row.
pub total-update_balance :
    (k u c : ℕ) (change : ℕ → ℕ → ℕ × ℕ) (ev : Event) (src : Source) (w : Wallet)
    → total k (update_balance u c change ev src w) + (if c == k then held_by u c w else 0)
      ≡ total k w
        + (if c == k
            then (change (amount_of u c w) (locked_of u c w)).0
              + (change (amount_of u c w) (locked_of u c w)).1
            else 0)
total-update_balance k u c change ev src w =
    rw (update_balance-eq u c change ev src w, record_balance_ledger-total)
      (ground (
        arith,
        save_balance-total k (changed u c change ev src w) (lock_user_balance u c w).1,
        lock_user_balance-total k u c w,
        lock_user_balance-held u c w,
      ))
