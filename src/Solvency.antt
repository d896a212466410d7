-- ===== src/Solvency.antt =====
-- The invariant that holds the wallet, the deals and the withdrawals together: what is locked in
-- a row is what the user's running deals and open withdrawals hold, the ledger reconciles with the
-- rows, a deal's amount is one that its currency can express, and keys are unique.
pub mod Steps
pub mod Funding
pub mod Closing
pub mod CreateSteps
pub mod TopupSteps
pub mod Expiry
pub mod SweepSteps
pub mod CreditSteps
pub mod WebhookSteps
pub mod Claims
pub mod WithdrawSteps
pub mod DecideSteps
pub mod WithdrawFunds
pub mod Races
pub mod Fractions
pub mod StaleSteps
pub mod AdminSteps
pub mod AdminPays
pub mod AdminRisks
pub mod Runs
pub mod Payouts
pub mod LifeSteps
pub mod DisputeSteps
use garant.Base.{
  ℕ, ◌+◌, ◌-◌, ◌≤◌, ◌<◌, ◌≡◌, ◌≢◌, Bool, true, false, ◌&&◌, none, some, List, ◌==◌, if◌then◌else◌,
}
use garant.Base.Table.{get, sum_by, All}
use garant.Base.Keyed.{Distinct}
use garant.Money.Quantize.{IsAligned}
use garant.Wallet.{Wallet, locked_of}
use garant.Wallet.Ledger.{IsReconciled}
use garant.Schema.{
  Db, Deal, Withdrawal, WithdrawStatus, Currency, get_currency, get_deal, put_deal, with_funds,
  deal_key, withdrawal_key,
}
use garant.Deals.Status.{holds_escrow}

abbrev pub escrow_share : ℕ → ℕ → Deal → ℕ
escrow_share u c d =
    if d.buyer_id == u && d.currency_id == c && holds_escrow d.status then d.amount else 0

-- A withdrawal whose funds still stand in `locked`.
abbrev pub is_open : WithdrawStatus → Bool
is_open WithdrawStatus.pending = true
is_open WithdrawStatus.approved = true
is_open _ = false

abbrev pub withdrawal_share : ℕ → ℕ → Withdrawal → ℕ
withdrawal_share u c w =
    if w.user_id == u && w.currency_id == c && is_open w.status then w.amount else 0

abbrev pub IsBacked : Db → Type 0
IsBacked db =
    (u c : ℕ)
    → locked_of u c db.funds
      ≡ sum_by (escrow_share u c) db.deals + sum_by (withdrawal_share u c) db.withdrawals

-- A deal has two parties, an id from the sequence, and an aligned amount.
abbrev pub DealIsSound : ℕ → List Currency → Deal → Type 0
DealIsSound next currencies d =
    (d.buyer_id ≢ d.seller_id)
    × (d.id < next)
    × ((cur : Currency)
        → get (λ (c : Currency). c.id) d.currency_id currencies ≡ some cur
        → IsAligned cur.decimals d.amount)

pub record IsSound (db : Db) : Type 0 where
  pub backed : IsBacked db
  pub reconciled : IsReconciled db.funds
  pub deals_sound : All (DealIsSound db.next_deal_id db.currencies) db.deals
  pub deals_keyed : Distinct deal_key db.deals
  pub currencies_keyed : All (λ (c : Currency). get_currency c.id db ≡ some c) db.currencies
  pub withdrawals_sound : All (λ (w : Withdrawal). w.id < db.next_withdrawal_id) db.withdrawals
  pub withdrawals_keyed : Distinct withdrawal_key db.withdrawals
