-- ===== src/Wallet/Rows.antt =====
-- Which row an update changes, and to what.
use garant.Base.{
  ℕ, ◌≡◌, refl, false, ◌&&◌, some, List, [], ◌∷◌, arith, ◌==◌, if◌then◌else◌, Option-cases, inl,
  inr,
}
use garant.Wallet.{
  Balance, Wallet, Event, Source, is_row, find_balance, put_balance, save_balance, new_balance,
  lock_user_balance, record_balance_ledger, update_balance, amount_of, locked_of, row_of,
}

update_balance_lem :
    (u c : ℕ) (change : ℕ → ℕ → ℕ × ℕ) (ev : Event) (src : Source) (w : Wallet)
    → let bal = (lock_user_balance u c w).0 in
      let after : Balance = record bal {
        amount = (change bal.amount bal.locked).0;
        locked = (change bal.amount bal.locked).1;
      } in
      update_balance u c change ev src w
      ≡ record_balance_ledger after bal.amount bal.locked ev src
          (save_balance after (lock_user_balance u c w).1)
unfolding update_balance
update_balance_lem u c change ev src w = refl

pub find-put_balance :
    (u c : ℕ) (a : Balance) (rows : List Balance)
    → find_balance u c (put_balance a rows)
      ≡ (if is_row u c a then some a else find_balance u c rows)
unfolding find_balance put_balance
find-put_balance u c a [] = refl
find-put_balance u c a (b ∷ rows) = ground (arith, find-put_balance u c a rows)

pub find_balance-key :
    (u c : ℕ) (b : Balance) (rows : List Balance)
    → find_balance u c rows ≡ some b
    → (b.user_id ≡ u) × (b.currency_id ≡ c)
unfolding find_balance
find_balance-key u c b [] h = cc
find_balance-key u c b (x ∷ rows) h = ground (arith, find_balance-key u c b rows)

-- The row that `lock_user_balance` hands out is the one asked for, with the stored figures.
pub lock_user_balance-row :
    (u c : ℕ) (w : Wallet)
    → let (bal, w') = lock_user_balance u c w in
      (bal.user_id ≡ u)
      × (bal.currency_id ≡ c)
      × (bal.amount ≡ amount_of u c w)
      × (bal.locked ≡ locked_of u c w)
      × (w'.entries ≡ w.entries)
unfolding lock_user_balance amount_of locked_of
lock_user_balance-row u c w = elim (Option-cases (find_balance u c w.balances)) [
  | inl missing ↦ ground arith
  | inr (b, found) ↦ ground (arith, find_balance-key u c b w.balances)
]

pub lock_user_balance-row_of : (u c : ℕ) (w : Wallet) → (lock_user_balance u c w).0 ≡ row_of u c w
lock_user_balance-row_of u c w = ground (arith, lock_user_balance-row u c w)

lock_user_balance-find_ne :
    (u c j k : ℕ) (w : Wallet)
    → (u == j && c == k) ≡ false
    → find_balance j k (lock_user_balance u c w).1.balances ≡ find_balance j k w.balances
unfolding lock_user_balance
lock_user_balance-find_ne u c j k w h = elim (Option-cases (find_balance u c w.balances)) [
  | inl missing ↦ ground (arith, find-put_balance j k (new_balance u c) w.balances)
  | inr (b, found) ↦ ground arith
]

pub amount_of-lock_user_balance :
    (u c j k : ℕ) (w : Wallet) → amount_of j k (lock_user_balance u c w).1 ≡ amount_of j k w
unfolding amount_of lock_user_balance
amount_of-lock_user_balance u c j k w = elim (Option-cases (find_balance u c w.balances)) [
  | inl missing ↦ ground (arith, find-put_balance j k (new_balance u c) w.balances)
  | inr (b, found) ↦ ground arith
]

pub locked_of-lock_user_balance :
    (u c j k : ℕ) (w : Wallet) → locked_of j k (lock_user_balance u c w).1 ≡ locked_of j k w
unfolding locked_of lock_user_balance
locked_of-lock_user_balance u c j k w = elim (Option-cases (find_balance u c w.balances)) [
  | inl missing ↦ ground (arith, find-put_balance j k (new_balance u c) w.balances)
  | inr (b, found) ↦ ground arith
]

pub amount_of-save_balance :
    (j k : ℕ) (a : Balance) (w : Wallet)
    → amount_of j k (save_balance a w) ≡ (if is_row j k a then a.amount else amount_of j k w)
unfolding amount_of
amount_of-save_balance j k a w = ground (arith, find-put_balance j k a w.balances)

pub locked_of-save_balance :
    (j k : ℕ) (a : Balance) (w : Wallet)
    → locked_of j k (save_balance a w) ≡ (if is_row j k a then a.locked else locked_of j k w)
unfolding locked_of
locked_of-save_balance j k a w = ground (arith, find-put_balance j k a w.balances)

record_balance_ledger-balances :
    (bal : Balance) (a l : ℕ) (ev : Event) (src : Source) (w : Wallet)
    → (record_balance_ledger bal a l ev src w).balances ≡ w.balances
unfolding record_balance_ledger
record_balance_ledger-balances bal a l ev src w = ground arith

pub amount_of-record :
    (j k : ℕ) (bal : Balance) (a l : ℕ) (ev : Event) (src : Source) (w : Wallet)
    → amount_of j k (record_balance_ledger bal a l ev src w) ≡ amount_of j k w
unfolding amount_of
amount_of-record j k bal a l ev src w = rw record_balance_ledger-balances

pub locked_of-record :
    (j k : ℕ) (bal : Balance) (a l : ℕ) (ev : Event) (src : Source) (w : Wallet)
    → locked_of j k (record_balance_ledger bal a l ev src w) ≡ locked_of j k w
unfolding locked_of
locked_of-record j k bal a l ev src w = rw record_balance_ledger-balances

module _ (u c : ℕ) (change : ℕ → ℕ → ℕ × ℕ) (ev : Event) (src : Source) (w : Wallet) where
  abbrev pub changed : Balance
  changed = record {
    user_id = u;
    currency_id = c;
    amount = (change (amount_of u c w) (locked_of u c w)).0;
    locked = (change (amount_of u c w) (locked_of u c w)).1;
  }

  -- With the helpers shut: what is saved, and what is recorded.
  pub update_balance-eq :
      update_balance u c change ev src w
      ≡ record_balance_ledger changed
          (amount_of u c w)
          (locked_of u c w)
          ev
          src
          (save_balance changed (lock_user_balance u c w).1)
  update_balance-eq = rw (update_balance_lem, lock_user_balance-row_of)

  pub update_balance-find :
      (j k : ℕ)
      → find_balance j k (update_balance u c change ev src w).balances
        ≡ (if u == j && c == k then some changed else find_balance j k w.balances)
  update_balance-find j k =
      rw (update_balance-eq, record_balance_ledger-balances, find-put_balance)
        (ground (arith, lock_user_balance-find_ne u c j k w))

  pub amount_of-update_balance :
      (j k : ℕ)
      → amount_of j k (update_balance u c change ev src w)
        ≡ (if u == j && c == k then changed.amount else amount_of j k w)
  unfolding amount_of
  amount_of-update_balance j k = ground (arith, update_balance-find j k)

  pub locked_of-update_balance :
      (j k : ℕ)
      → locked_of j k (update_balance u c change ev src w)
        ≡ (if u == j && c == k then changed.locked else locked_of j k w)
  unfolding locked_of
  locked_of-update_balance j k = ground (arith, update_balance-find j k)
