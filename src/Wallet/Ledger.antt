-- ===== src/Wallet/Ledger.antt =====
-- The ledger reconciles with the balance rows: replaying the deltas of a user's entries in a
-- currency gives the row. Entries of trust deposits are no part of it.
use garant.Base.{ℕ, ◌≡◌, Bool, true, false, ◌&&◌, List, [], ◌∷◌, arith, ◌==◌, if◌then◌else◌}
use garant.Base.Int.{ℤ, pos, sub_ℕ, ◌+ℤ◌, +ℤ-sub_ℕ}
use garant.Wallet.{
  Balance, Wallet, Event, deposit_trust_credit, Source, LedgerEntry, is_row, lock_user_balance,
  record_balance_ledger, update_balance, amount_of, locked_of,
}
use garant.Wallet.Rows.{
  amount_of-lock_user_balance, locked_of-lock_user_balance, changed, lock_user_balance-row,
  update_balance-eq, amount_of-update_balance, locked_of-update_balance,
}

abbrev pub is_balance_event : Event → Bool
is_balance_event deposit_trust_credit = false
is_balance_event _ = true

abbrev pub concerns : ℕ → ℕ → LedgerEntry → Bool
concerns u c e = is_balance_event e.event && e.user_id == u && e.currency_id == c

unfoldable pub replayed_amount : ℕ → ℕ → List LedgerEntry → ℤ
replayed_amount u c [] = pos 0
replayed_amount u c (e ∷ es) =
    if concerns u c e then replayed_amount u c es +ℤ e.amount_delta else replayed_amount u c es

unfoldable pub replayed_locked : ℕ → ℕ → List LedgerEntry → ℤ
replayed_locked u c [] = pos 0
replayed_locked u c (e ∷ es) =
    if concerns u c e then replayed_locked u c es +ℤ e.locked_delta else replayed_locked u c es

abbrev pub Reconciles : ℕ → ℕ → Wallet → Type 0
Reconciles u c w =
    (replayed_amount u c w.entries ≡ pos (amount_of u c w))
    × (replayed_locked u c w.entries ≡ pos (locked_of u c w))

abbrev pub IsReconciled : Wallet → Type 0
IsReconciled w = (u c : ℕ) → Reconciles u c w

add_nothing : (z : ℤ) (a : ℕ) → z +ℤ sub_ℕ a a ≡ z
unfolding ◌+ℤ◌
add_nothing z a = ground arith

module _ (bal : Balance) (a l : ℕ) (ev : Event) (src : Source) (w : Wallet)
    (counted : is_balance_event ev ≡ true) where
  pub record-replayed_amount :
      (u c : ℕ)
      → replayed_amount u c (record_balance_ledger bal a l ev src w).entries ≡ (
          if is_row u c bal
          then replayed_amount u c w.entries +ℤ sub_ℕ bal.amount a
          else replayed_amount u c w.entries)
  unfolding record_balance_ledger replayed_amount
  record-replayed_amount u c = ground (arith, add_nothing (replayed_amount u c w.entries) a)

  pub record-replayed_locked :
      (u c : ℕ)
      → replayed_locked u c (record_balance_ledger bal a l ev src w).entries ≡ (
          if is_row u c bal
          then replayed_locked u c w.entries +ℤ sub_ℕ bal.locked l
          else replayed_locked u c w.entries)
  unfolding record_balance_ledger replayed_locked
  record-replayed_locked u c = ground (arith, add_nothing (replayed_locked u c w.entries) l)

-- Locking a row changes no figure.
pub lock_user_balance-IsReconciled :
    (u c : ℕ) (w : Wallet) → IsReconciled w → IsReconciled (lock_user_balance u c w).1
lock_user_balance-IsReconciled u c w r j k =
    rw
      (
        (lock_user_balance-row u c w).4,
        amount_of-lock_user_balance u c j k w,
        locked_of-lock_user_balance u c j k w,
      )
      (r j k)

module _ (u c : ℕ) (change : ℕ → ℕ → ℕ × ℕ) (ev : Event) (src : Source) (w : Wallet) where
  module _ (counted : is_balance_event ev ≡ true) where
    update_balance-replayed_amount :
        (j k : ℕ)
        → replayed_amount j k (update_balance u c change ev src w).entries ≡ (
            if u == j && c == k
            then replayed_amount j k w.entries
              +ℤ sub_ℕ (changed u c change ev src w).amount (amount_of u c w)
            else replayed_amount j k w.entries)
    update_balance-replayed_amount j k = rw (
      update_balance-eq u c change ev src w,
      record-replayed_amount (changed u c change ev src w) _ _ ev src _ counted j k,
      (lock_user_balance-row u c w).4,
    )

    update_balance-replayed_locked :
        (j k : ℕ)
        → replayed_locked j k (update_balance u c change ev src w).entries ≡ (
            if u == j && c == k
            then replayed_locked j k w.entries
              +ℤ sub_ℕ (changed u c change ev src w).locked (locked_of u c w)
            else replayed_locked j k w.entries)
    update_balance-replayed_locked j k = rw (
      update_balance-eq u c change ev src w,
      record-replayed_locked (changed u c change ev src w) _ _ ev src _ counted j k,
      (lock_user_balance-row u c w).4,
    )

    -- An update of a balance row that records an event other than a trust credit keeps the
    -- ledger reconciled with the rows.
    pub update_balance-IsReconciled :
        IsReconciled w → IsReconciled (update_balance u c change ev src w)
    update_balance-IsReconciled r j k = (
      rw (update_balance-replayed_amount j k, amount_of-update_balance u c change ev src w j k)
          (ground (
            arith,
            r j k,
            +ℤ-sub_ℕ (replayed_amount j k w.entries) (amount_of u c w)
                (changed u c change ev src w).amount,
          )),
      rw (update_balance-replayed_locked j k, locked_of-update_balance u c change ev src w j k)
          (ground (
            arith,
            r j k,
            +ℤ-sub_ℕ (replayed_locked j k w.entries) (locked_of u c w)
                (changed u c change ev src w).locked,
          )),
    )
