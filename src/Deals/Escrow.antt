-- ===== src/Deals/Escrow.antt =====
-- The balance helpers of backend/app/services_deals.py.
-- `max(Decimal(0), x - y)` is the truncated subtraction of ℕ.
pub mod Effect
pub mod Books
use garant.Base.{ℕ, ◌+◌, ◌-◌, none, ltb, leb, if◌then◌else◌, Result, ok, err}
use garant.Wallet.{
  Wallet, save_balance, lock_user_balance, record_balance_ledger, update_balance, row_of, deal_lock,
  deal_refund, deal_refund_principal, deal_release_debit, deal_release_credit, from_deal,
}
use garant.Schema.{Error, insufficient_funds}

-- `_debit`
unfoldable pub debit : ℕ → ℕ → ℕ → Wallet → Result Error Wallet
debit user_id currency_id amount w =
    let (bal, w') = lock_user_balance user_id currency_id w in
    if ltb bal.amount amount
    then err (insufficient_funds amount bal.amount)
    else ok (
        update_balance user_id currency_id (λ a l. (a - amount, l + amount)) deal_lock
          (from_deal none) w')

-- `_refund`
unfoldable pub refund : ℕ → ℕ → ℕ → Wallet → Wallet
refund user_id currency_id amount w =
    update_balance user_id currency_id (λ a l. (a + amount, l - amount)) deal_refund
      (from_deal none) w

-- `_refund_principal`
unfoldable pub refund_principal : ℕ → ℕ → ℕ → Wallet → Wallet
refund_principal user_id currency_id principal w =
    update_balance user_id currency_id (λ a l. (a + principal, l - principal)) deal_refund_principal
      (from_deal none) w

-- `_release_to`: both rows are locked in the order of the ids and read; then the payer's `locked`
-- is written, then the payee's `amount`; then both changes are recorded.
unfoldable pub release_to : ℕ → ℕ → ℕ → ℕ → ℕ → Wallet → Wallet
release_to payer_id payee_id currency_id locked_amount payout_amount w =
    let first_id = if leb payer_id payee_id then payer_id else payee_id in
    let second_id = if leb payer_id payee_id then payee_id else payer_id in
    let w1 = (lock_user_balance first_id currency_id w).1 in
    let w2 = (lock_user_balance second_id currency_id w1).1 in
    let payer_before = row_of payer_id currency_id w2 in
    let payee_before = row_of payee_id currency_id w2 in
    let w3 =
      save_balance (record payer_before { locked = payer_before.locked - locked_amount }) w2 in
    let payee = row_of payee_id currency_id w3 in
    let w4 = save_balance (record payee { amount = payee.amount + payout_amount }) w3 in
    let w5 =
      record_balance_ledger (row_of payer_id currency_id w4) payer_before.amount payer_before.locked
        deal_release_debit (from_deal none) w4 in
    record_balance_ledger (row_of payee_id currency_id w4) payee_before.amount payee_before.locked
      deal_release_credit (from_deal none) w5
