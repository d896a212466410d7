-- ===== src/Solvency/StaleSteps.antt =====
-- What `sweep_stale_withdrawals` (backend/app/services_wallet.py) does to the invariant: what is
-- locked stays backed, and the ledger is left behind.
use garant.Base.{
  ℕ, ◌+◌, ◌-◌, ◌≤◌, ◌<◌, ◌≡◌, ap, Bool, true, false, ◌&&◌, some, arith, ◌==◌, if◌then◌else◌,
}
use garant.Wallet.{Wallet, lock_user_balance, locked_of}
use garant.Wallet.Rows.{lock_user_balance-row, locked_of-save_balance, locked_of-lock_user_balance}
use garant.Wallet.Ledger.{IsReconciled, replayed_locked}
use garant.Schema.{Db, Withdrawal, WithdrawStatus, get_withdrawal}
use garant.Withdrawals.Balance.{update_unrecorded}
use garant.Withdrawals.Transfer.{is_pending, decided}
use garant.Withdrawals.Stale.{reconcile}
use garant.Solvency.{IsBacked, is_open}
use garant.Solvency.Claims.{SameClaim, same_claim, share-put, withdrawal_covered}
use garant.Solvency.WithdrawSteps.{pending-open}

module _ (u c : ℕ) (change : ℕ → ℕ → ℕ × ℕ) (w : Wallet) where
  pub locked_of-update_unrecorded :
      (j k : ℕ)
      → locked_of j k (update_unrecorded u c change w) ≡ (
          if u == j && c == k
          then (change (lock_user_balance u c w).0.amount (locked_of u c w)).1
          else locked_of j k w)
  unfolding update_unrecorded
  locked_of-update_unrecorded j k =
      rw (locked_of-save_balance j k)
        (ground (arith, lock_user_balance-row u c w, locked_of-lock_user_balance u c j k w))

  pub entries-update_unrecorded : (update_unrecorded u c change w).entries ≡ w.entries
  unfolding update_unrecorded
  entries-update_unrecorded = (lock_user_balance-row u c w).4

-- The row of `candidate` is stored under the terms that the sweep has read.
module _ (now : ℕ) (b : Bool) (candidate w : Withdrawal) (db : Db)
    (found : get_withdrawal w.id db ≡ some w) (same : SameClaim candidate w) where
  reconcile-locked :
      (u c : ℕ)
      → locked_of u c (reconcile b now candidate w db).funds ≡ (
          if w.user_id == u && w.currency_id == c
          then locked_of w.user_id w.currency_id db.funds - w.amount
          else locked_of u c db.funds)
  unfolding reconcile
  reconcile-locked u c = ground (
    arith,
    same,
    locked_of-update_unrecorded candidate.user_id candidate.currency_id
        (if b
          then (λ a l. (a, l - candidate.amount))
          else (λ a l. (a + candidate.amount, l - candidate.amount)))
        db.funds u c,
  )

  reconcile-entries : (reconcile b now candidate w db).funds.entries ≡ db.funds.entries
  unfolding reconcile
  reconcile-entries = entries-update_unrecorded candidate.user_id candidate.currency_id _ db.funds

  -- A row that was settled meanwhile is settled again.
  pub reconcile-unbacked :
      IsBacked db
      → is_open w.status ≡ false
      → 0 < w.amount
      → w.amount ≤ locked_of w.user_id w.currency_id db.funds
      → ¬ IsBacked (reconcile b now candidate w db)
  unfolding reconcile
  reconcile-unbacked backed over positive others after = ground (
    arith,
    after w.user_id w.currency_id,
    reconcile-locked w.user_id w.currency_id,
    backed w.user_id w.currency_id,
    share-put db w found
        (decided now (if b then WithdrawStatus.sent else WithdrawStatus.rejected) w) (same_claim w)
        w.user_id w.currency_id,
    over,
  )

  module _ (waiting : is_pending w.status ≡ true) (backed : IsBacked db) where
    pub reconcile-IsBacked : IsBacked (reconcile b now candidate w db)
    unfolding reconcile
    reconcile-IsBacked u c = ground (
      arith,
      reconcile-locked u c,
      backed u c,
      withdrawal_covered db w found backed (pending-open w.status waiting),
      share-put db w found
          (decided now (if b then WithdrawStatus.sent else WithdrawStatus.rejected) w)
          (same_claim w) u c,
      pending-open w.status waiting,
    )

    pub reconcile-behind :
        IsReconciled db.funds → 0 < w.amount → ¬ IsReconciled (reconcile b now candidate w db).funds
    reconcile-behind r positive r' = ground (
      arith,
      (r w.user_id w.currency_id).1,
      (r' w.user_id w.currency_id).1,
      ap (replayed_locked w.user_id w.currency_id) reconcile-entries,
      reconcile-locked w.user_id w.currency_id,
      withdrawal_covered db w found backed (pending-open w.status waiting),
    )
