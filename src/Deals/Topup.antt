-- ===== src/Deals/Topup.antt =====
-- `_issue_remaining_topup_invoice`, `complete_deal_topup_payment` and `cancel_pending_topup` of
-- backend/app/services_deals.py. A reported amount is a number of units.
pub mod Covers
use garant.Base.{
  ℕ, ◌+◌, ◌-◌, Bool, true, false, ◌||◌, Option, none, some, ltb, leb, ◌==◌, if◌then◌else◌, not,
  Result, ok, err, ◌>>=◌, ◌>>◌, raise_if, or_raise,
}
use garant.Money.{quantize_money}
use garant.Wallet.{
  Wallet, lock_user_balance, update_balance, topup_late_credit, topup_partial_credit,
  topup_activate, from_deposit,
}
use garant.Schema.{
  Db, Deal, Deposit, DepositStatus, User, Currency, Provider, deal_topup, pending_confirmation,
  cancelled, Error, currency_vanished, buyer_vanished, not_buyer, wrong_status, get_user, get_deal,
  get_deposit, get_currency, put_deal, put_deposit, with_funds, notify, deals, deposits, about_deal,
  about_deposit,
}
use garant.Deals.Status.{is_pending_topup}
use garant.Deals.Create.{max}
use garant.Deposits.Invoice.{Config, InvoiceReply, create_deposit_invoice}

abbrev pub is_paid : DepositStatus → Bool
is_paid DepositStatus.paid = true
is_paid _ = false

abbrev pub is_pending : DepositStatus → Bool
is_pending DepositStatus.pending = true
is_pending _ = false

-- What of the commission is still to be paid.
unfoldable pub commission_due : Deal → Currency → ℕ
commission_due deal currency =
    if deal.commission_paid then 0 else quantize_money deal.commission_amount currency.decimals

unfoldable pub remaining_total : Deal → Currency → ℕ → ℕ
unfolding commission_due
remaining_total deal currency current_balance =
    let amt = quantize_money deal.amount currency.decimals in
    let principal_gap = max 0 (amt - current_balance) in
    quantize_money (principal_gap + commission_due deal currency) currency.decimals

-- `_issue_remaining_topup_invoice`: the new deposit, if one is needed, linked both ways.
unfoldable pub issue_remaining_topup_invoice :
    Config → InvoiceReply → ℕ → Deal → Currency → ℕ → Db → Result Error (Option Deposit × Db)
issue_remaining_topup_invoice config reply now deal currency current_balance db = do
  buyer ← or_raise (get_user deal.buyer_id db) buyer_vanished
  let invoice_total = remaining_total deal currency current_balance
  if invoice_total == 0 then ok (none, db) else (do
    (deposit, db1) ←
        create_deposit_invoice config reply now buyer.id currency.code invoice_total deal_topup
          deal.payment_provider false db
    let linked = record deposit { linked_deal_id = some deal.id }
    ok (
      some linked,
      put_deal (record deal { topup_deposit_id = some deposit.id }) (put_deposit linked db1),
    ))

abbrev pub mark_paid : ℕ → Option ℕ → Deposit → Deposit
mark_paid now paid_amount deposit = record deposit {
  status = DepositStatus.paid;
  paid_at = some now;
  paid_amount = paid_amount;
}

abbrev pub or_else : Option ℕ → Option ℕ → Option ℕ
or_else none y = y
or_else (some x) y = some x

-- A payment that reaches no deal: only the row is marked.
abbrev pub settle_unlinked : ℕ → Option ℕ → Deposit → Db → Db
settle_unlinked now paid_amount deposit db =
    put_deposit (mark_paid now (or_else paid_amount deposit.paid_amount) deposit) db

-- A payment for a deal that no longer waits for it goes to the buyer's balance.
unfoldable pub settle_late : ℕ → ℕ → Deposit → Deal → Currency → Db → Db
settle_late now paid deposit deal currency db =
    let funds =
      update_balance deal.buyer_id currency.id (λ a l. (a + paid, l)) topup_late_credit
        (from_deposit deposit.id) db.funds in
    notify deal.buyer_id deposits (about_deposit deposit.id)
      (put_deposit (mark_paid now (some paid) deposit) (with_funds funds db))

-- An underpayment: credit what is left for the buyer and ask for the rest.
unfoldable pub settle_partial :
    Config
    → InvoiceReply
    → ℕ
    → ℕ
    → ℕ
    → Deposit
    → Deal
    → Currency
    → Wallet
    → ℕ
    → Db
    → Result Error Db
settle_partial config reply now paid credit deposit deal currency w new_balance db = do
  let funds =
      update_balance deal.buyer_id currency.id (λ a l. (a + credit, l)) topup_partial_credit
        (from_deposit deposit.id) w
  let db1 = put_deal deal (put_deposit (mark_paid now (some paid) deposit) (with_funds funds db))
  (replacement, db2) ← issue_remaining_topup_invoice config reply now deal currency new_balance db1
  ok (notify deal.buyer_id deals (about_deal deal.id) db2)

-- Enough has been paid: lock the principal and let the seller decide.
unfoldable pub settle_activate : ℕ → ℕ → ℕ → ℕ → Deposit → Deal → Currency → Wallet → Db → Db
settle_activate now paid credit amt deposit deal currency w db =
    let funds =
      update_balance deal.buyer_id currency.id (λ a l. (a + credit - amt, l + amt)) topup_activate
        (from_deposit deposit.id) w in
    let db1 = put_deposit (mark_paid now (some paid) deposit) (with_funds funds db) in
    let db2 =
      put_deal (record deal { status = pending_confirmation; commission_paid = true }) db1 in
    notify deal.buyer_id deals (about_deal deal.id)
      (notify deal.seller_id deals (about_deal deal.id) db2)

unfoldable pub settle_waiting :
    Config → InvoiceReply → ℕ → ℕ → Deposit → Deal → Currency → Db → Result Error Db
settle_waiting config reply now paid deposit deal currency db =
    let amt = quantize_money deal.amount currency.decimals in
    let due = commission_due deal currency in
    let bal = (lock_user_balance deal.buyer_id currency.id db.funds).0 in
    let w = (lock_user_balance deal.buyer_id currency.id db.funds).1 in
    let credit = quantize_money (paid - due) currency.decimals in
    let charged = record deal { commission_paid = deal.commission_paid || ltb 0 due } in
    if ltb paid due
    then settle_partial config reply now paid paid deposit deal currency w (bal.amount + paid) db
    else if ltb (bal.amount + credit) amt
    then settle_partial config reply now paid credit deposit charged currency w
        (bal.amount + credit) db
    else ok (settle_activate now paid credit amt deposit charged currency w db)

abbrev pub paid_or_nominal : Option ℕ → ℕ → ℕ
paid_or_nominal none nominal = nominal
paid_or_nominal (some x) nominal = x

unfoldable pub settle_linked :
    Config → InvoiceReply → ℕ → Option ℕ → Deposit → Deal → Db → Result Error Db
settle_linked config reply now paid_amount deposit deal db = do
  currency ← or_raise (get_currency deal.currency_id db) currency_vanished
  let paid = quantize_money (paid_or_nominal paid_amount deposit.amount) currency.decimals
  if is_pending_topup deal.status
      then settle_waiting config reply now paid deposit deal currency db
      else ok (settle_late now paid deposit deal currency db)

abbrev pub linked_deal : Deposit → Db → Option Deal
linked_deal deposit db = elim deposit.linked_deal_id [
  | none ↦ none
  | some deal_id ↦ get_deal deal_id db
]

unfoldable pub complete_deal_topup_payment :
    Config → InvoiceReply → ℕ → Option ℕ → Deposit → Db → Result Error Db
complete_deal_topup_payment config reply now paid_amount deposit db =
    if is_paid deposit.status then ok db else (elim (linked_deal deposit db) [
      | none ↦ ok (settle_unlinked now paid_amount deposit db)
      | some deal ↦ settle_linked config reply now paid_amount deposit deal db
    ])

-- The linked invoice, if it is still pending, is closed.
unfoldable pub expire_linked : Option ℕ → Db → Db
expire_linked none db = db
expire_linked (some deposit_id) db = elim (get_deposit deposit_id db) [
  | none ↦ db
  | some deposit ↦
      if is_pending deposit.status
      then put_deposit (record deposit { status = DepositStatus.expired }) db
      else db
]

unfoldable pub cancel_pending_topup : ℕ → Deal → ℕ → Db → Result Error Db
cancel_pending_topup now deal user_id db = do
  raise_if (not (user_id == deal.buyer_id)) not_buyer
  raise_if (not (is_pending_topup deal.status)) wrong_status
  let db1 = expire_linked deal.topup_deposit_id db
  let db2 = put_deal (record deal { status = cancelled; completed_at = some now }) db1
  ok (notify deal.seller_id deals (about_deal deal.id) db2)
