-- ===== src/Deals/Escrow/Effect.antt =====
-- What each escrow helper leaves in every row.
use garant.Base.{
  ℕ, ◌+◌, ◌-◌, ◌≤◌, ◌<◌, ◌≡◌, refl, ◌&&◌, ◌⊎◌, none, arith, leb, ◌==◌, if◌then◌else◌, ok, err,
}
use garant.Wallet.{
  Wallet, from_deal, lock_user_balance, update_balance, save_balance, record_balance_ledger, row_of,
  amount_of, locked_of, deal_lock, deal_refund_principal, deal_release_debit, deal_release_credit,
}
use garant.Wallet.Rows.{
  lock_user_balance-row, amount_of-update_balance, locked_of-update_balance,
  amount_of-lock_user_balance, locked_of-lock_user_balance, amount_of-save_balance,
  locked_of-save_balance, amount_of-record, locked_of-record,
}
use garant.Deals.Escrow.{debit, refund_principal, release_to}
use garant.Schema.{insufficient_funds}

-- What `debit` does when the row covers the amount.
abbrev pub moved_to_locked : ℕ → ℕ → ℕ → Wallet → Wallet
moved_to_locked u c x w =
    update_balance u c (λ a l. (a - x, l + x)) deal_lock (from_deal none)
      (lock_user_balance u c w).1

-- debit either refuses, with the figures of the shortfall, an amount above the spendable
-- balance, or moves an amount that the balance covers to the locked part.
pub debit-cases :
    (u c x : ℕ) (w : Wallet)
    → ((amount_of u c w < x) × (debit u c x w ≡ err (insufficient_funds x (amount_of u c w))))
      ⊎ ((x ≤ amount_of u c w) × (debit u c x w ≡ ok (moved_to_locked u c x w)))
unfolding debit
debit-cases u c x w = ground (arith, lock_user_balance-row u c w)

module _ (u c x : ℕ) (w : Wallet) (j k : ℕ) where
  pub amount_of-moved_to_locked :
      amount_of j k (moved_to_locked u c x w)
      ≡ (if u == j && c == k then amount_of u c w - x else amount_of j k w)
  amount_of-moved_to_locked = rw (
    amount_of-update_balance u c _ deal_lock (from_deal none) (lock_user_balance u c w).1 j k,
    amount_of-lock_user_balance u c u c w,
    amount_of-lock_user_balance u c j k w,
  )

  pub locked_of-moved_to_locked :
      locked_of j k (moved_to_locked u c x w)
      ≡ (if u == j && c == k then locked_of u c w + x else locked_of j k w)
  locked_of-moved_to_locked = rw (
    locked_of-update_balance u c _ deal_lock (from_deal none) (lock_user_balance u c w).1 j k,
    locked_of-lock_user_balance u c u c w,
    locked_of-lock_user_balance u c j k w,
  )

  pub amount_of-refund_principal :
      amount_of j k (refund_principal u c x w)
      ≡ (if u == j && c == k then amount_of u c w + x else amount_of j k w)
  unfolding refund_principal
  amount_of-refund_principal =
      amount_of-update_balance u c _ deal_refund_principal (from_deal none) w j k

  pub locked_of-refund_principal :
      locked_of j k (refund_principal u c x w)
      ≡ (if u == j && c == k then locked_of u c w - x else locked_of j k w)
  unfolding refund_principal
  locked_of-refund_principal =
      locked_of-update_balance u c _ deal_refund_principal (from_deal none) w j k

-- The states inside `release_to`.
module _ (payer payee c x y : ℕ) (w : Wallet) where
  unfoldable pub both_locked : Wallet
  both_locked =
      (lock_user_balance (if leb payer payee then payee else payer) c
        (lock_user_balance (if leb payer payee then payer else payee) c w).1).1

  unfoldable pub payer_written : Wallet
  payer_written =
      let row = row_of payer c both_locked in
      save_balance (record row { locked = row.locked - x }) both_locked

  unfoldable pub both_written : Wallet
  both_written =
      let row = row_of payee c payer_written in
      save_balance (record row { amount = row.amount + y }) payer_written

  pub release_to_lem :
      release_to payer payee c x y w
      ≡ record_balance_ledger
          (row_of payee c both_written)
          (amount_of payee c both_locked)
          (locked_of payee c both_locked)
          deal_release_credit
          (from_deal none)
          (record_balance_ledger
            (row_of payer c both_written)
            (amount_of payer c both_locked)
            (locked_of payer c both_locked)
            deal_release_debit
            (from_deal none)
            both_written)
  unfolding release_to both_locked payer_written both_written
  release_to_lem = refl

  pub amount_of-both_locked : (j k : ℕ) → amount_of j k both_locked ≡ amount_of j k w
  unfolding both_locked
  amount_of-both_locked j k = rw (amount_of-lock_user_balance, amount_of-lock_user_balance)

  pub locked_of-both_locked : (j k : ℕ) → locked_of j k both_locked ≡ locked_of j k w
  unfolding both_locked
  locked_of-both_locked j k = rw (locked_of-lock_user_balance, locked_of-lock_user_balance)

  amount_of-payer_written : (j k : ℕ) → amount_of j k payer_written ≡ amount_of j k w
  unfolding payer_written
  amount_of-payer_written j k =
      rw (amount_of-save_balance j k, amount_of-both_locked payer c, amount_of-both_locked j k)
        (ground arith)

  locked_of-payer_written :
      (j k : ℕ)
      → locked_of j k payer_written
        ≡ (if payer == j && c == k then locked_of payer c w - x else locked_of j k w)
  unfolding payer_written
  locked_of-payer_written j k =
      rw (locked_of-save_balance j k, locked_of-both_locked payer c, locked_of-both_locked j k)

  pub amount_of-both_written :
      (j k : ℕ)
      → amount_of j k both_written
        ≡ (if payee == j && c == k then amount_of payee c w + y else amount_of j k w)
  unfolding both_written
  amount_of-both_written j k =
      rw (amount_of-save_balance j k, amount_of-payer_written payee c, amount_of-payer_written j k)

  pub locked_of-both_written :
      (j k : ℕ)
      → locked_of j k both_written
        ≡ (if payer == j && c == k then locked_of payer c w - x else locked_of j k w)
  unfolding both_written
  locked_of-both_written j k =
      rw (locked_of-save_balance j k, locked_of-payer_written payee c, locked_of-payer_written j k)
        (ground arith)

  pub amount_of-release_to :
      (j k : ℕ)
      → amount_of j k (release_to payer payee c x y w)
        ≡ (if payee == j && c == k then amount_of payee c w + y else amount_of j k w)
  amount_of-release_to j k =
      rw (release_to_lem, amount_of-record, amount_of-record) (amount_of-both_written j k)

  pub locked_of-release_to :
      (j k : ℕ)
      → locked_of j k (release_to payer payee c x y w)
        ≡ (if payer == j && c == k then locked_of payer c w - x else locked_of j k w)
  locked_of-release_to j k =
      rw (release_to_lem, locked_of-record, locked_of-record) (locked_of-both_written j k)
