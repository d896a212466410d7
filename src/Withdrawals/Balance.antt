-- ===== src/Withdrawals/Balance.antt =====
-- How the withdrawal code touches a balance row: through `SELECT … FOR UPDATE` alone, which may
-- find none, or through `lock_user_balance` with no ledger entry.
use garant.Base.{ℕ, none, some}
use garant.Wallet.{
  Balance, Wallet, Event, Source, find_balance, save_balance, lock_user_balance, update_balance,
}

-- `bal = (select(UserBalance) …).scalar_one_or_none(); if bal is not None: …`
unfoldable pub update_existing : ℕ → ℕ → (ℕ → ℕ → ℕ × ℕ) → Event → Source → Wallet → Wallet
update_existing user_id currency_id change event source w =
    elim (find_balance user_id currency_id w.balances) [
      | none ↦ w
      | some _ ↦ update_balance user_id currency_id change event source w
    ]

-- The row is changed and no entry is written.
unfoldable pub update_unrecorded : ℕ → ℕ → (ℕ → ℕ → ℕ × ℕ) → Wallet → Wallet
update_unrecorded user_id currency_id change w =
    let (bal, w') = lock_user_balance user_id currency_id w in
    let after : Balance = record bal {
      amount = (change bal.amount bal.locked).0;
      locked = (change bal.amount bal.locked).1;
    } in
    save_balance after w'
