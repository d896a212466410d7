-- ===== src/Deals/Escrow/Books.antt =====
-- The escrow helpers against the ledger and the total of a currency.
use garant.Base.{ℕ, ◌+◌, ◌-◌, ◌≤◌, ◌≡◌, ◌≢◌, refl, sym, subst, none, arith, ◌==◌, if◌then◌else◌}
use garant.Wallet.{
  Wallet, from_deal, lock_user_balance, row_of, amount_of, locked_of, deal_lock,
  deal_refund_principal, deal_release_debit, deal_release_credit,
}
use garant.Wallet.Rows.{amount_of-lock_user_balance, locked_of-lock_user_balance}
use garant.Wallet.Ledger.{IsReconciled, update_balance-IsReconciled, lock_user_balance-IsReconciled}
use garant.Wallet.Total.{
  total, total-update_balance, lock_user_balance-total, save_balance-total,
  record_balance_ledger-total,
}
use garant.Wallet.Pair.{settle_pair, settle_pair-IsReconciled}
use garant.Deals.Escrow.{refund_principal, release_to}
use garant.Deals.Escrow.Effect.{
  moved_to_locked, both_locked, both_written, payer_written, release_to_lem, locked_of-both_locked,
}

pub moved_to_locked-IsReconciled :
    (u c x : ℕ) (w : Wallet) → IsReconciled w → IsReconciled (moved_to_locked u c x w)
moved_to_locked-IsReconciled u c x w r =
    update_balance-IsReconciled u c _ deal_lock (from_deal none) _ refl
      (lock_user_balance-IsReconciled u c w r)

pub refund_principal-IsReconciled :
    (u c x : ℕ) (w : Wallet) → IsReconciled w → IsReconciled (refund_principal u c x w)
unfolding refund_principal
refund_principal-IsReconciled u c x w r =
    update_balance-IsReconciled u c _ deal_refund_principal (from_deal none) w refl r

-- Moving funds between the two parts of a row leaves the total.
pub moved_to_locked-total :
    (k u c x : ℕ) (w : Wallet) → x ≤ amount_of u c w → total k (moved_to_locked u c x w) ≡ total k w
moved_to_locked-total k u c x w h = ground (
  arith,
  total-update_balance k u c (λ a l. (a - x, l + x)) deal_lock (from_deal none)
      (lock_user_balance u c w).1,
  lock_user_balance-total k u c w,
  amount_of-lock_user_balance u c u c w,
  locked_of-lock_user_balance u c u c w,
)

pub refund_principal-total :
    (k u c x : ℕ) (w : Wallet)
    → x ≤ locked_of u c w
    → total k (refund_principal u c x w) ≡ total k w
unfolding refund_principal
refund_principal-total k u c x w h = ground (
  arith,
  total-update_balance k u c (λ a l. (a + x, l - x)) deal_refund_principal (from_deal none) w,
)

module _ (payer payee c x y : ℕ) (w : Wallet) where
  pub pair_settled :
      release_to payer payee c x y w
      ≡ settle_pair payer payee c
          (λ a l. (a, l - x))
          (λ a l. (a + y, l))
          deal_release_debit
          deal_release_credit
          (from_deal none)
          w
  unfolding release_to settle_pair
  pair_settled = refl

  -- A release between two different users keeps the ledger reconciled with the balance rows.
  pub release_to-IsReconciled :
      payer ≢ payee → IsReconciled w → IsReconciled (release_to payer payee c x y w)
  release_to-IsReconciled distinct r = subst IsReconciled (sym pair_settled) (
      settle_pair-IsReconciled payer payee c (λ a l. (a, l - x)) (λ a l. (a + y, l))
        deal_release_debit deal_release_credit (from_deal none) w distinct refl refl r)

module _ (payer payee c x y : ℕ) (w : Wallet) (k : ℕ) where
  both_locked-total : total k (both_locked payer payee c x y w) ≡ total k w
  unfolding both_locked
  both_locked-total = rw (lock_user_balance-total, lock_user_balance-total)

  payer_written-total :
      x ≤ locked_of payer c w
      → total k (payer_written payer payee c x y w) + (if c == k then x else 0) ≡ total k w
  unfolding payer_written
  payer_written-total h = ground (
    arith,
    save_balance-total k
        (let row = row_of payer c (both_locked payer payee c x y w) in
          record row { locked = row.locked - x })
        (both_locked payer payee c x y w),
    both_locked-total,
    locked_of-both_locked payer payee c x y w payer c,
  )

  both_written-total :
      total k (both_written payer payee c x y w)
      ≡ total k (payer_written payer payee c x y w) + (if c == k then y else 0)
  unfolding both_written
  both_written-total = ground (
    arith,
    save_balance-total k
        (let row = row_of payee c (payer_written payer payee c x y w) in
          record row { amount = row.amount + y })
        (payer_written payer payee c x y w),
  )

  -- Where the payer's locked part covers what is unlocked, a release changes the total of its
  -- currency by what it credits less what it unlocks, and the total of no other: the
  -- difference does not stay in the payer's locked part.
  pub release_to-total :
      x ≤ locked_of payer c w
      → total k (release_to payer payee c x y w) + (if c == k then x else 0)
        ≡ total k w + (if c == k then y else 0)
  release_to-total h =
      rw
        (
          release_to_lem payer payee c x y w,
          record_balance_ledger-total,
          record_balance_ledger-total,
          both_written-total,
        )
        (ground (arith, payer_written-total h))
