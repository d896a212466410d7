-- ===== src/Deals/Create.antt =====
-- `create_deal` and `create_deal_with_topup` of backend/app/services_deals.py.
pub mod Outcomes
use garant.Base.{
  ℕ, ◌+◌, ◌-◌, Bool, true, false, ◌||◌, Option, none, some, ltb, leb, ◌==◌, if◌then◌else◌, not,
  Result, ok, err, ◌>>=◌, ◌>>◌, raise_if, or_raise,
}
use garant.Base.Text.{Text}
use garant.Money.{
  Decimal, is_unusable, quantize_decimal, quantize_money, commission_of, resolve_commission_rate,
}
use garant.Wallet.{
  Balance, Wallet, lock_user_balance, update_balance, deal_create_balance_funded, from_deal,
}
use garant.Schema.{
  Db, Deal, Deposit, User, Currency, Provider, Purpose, deal_topup, DealStatus,
  pending_confirmation, pending_topup, Error, self_deal, bad_amount, currency_unsupported,
  commission_below_precision, put_deal, put_deposit, with_funds, notify, deals, about_deal,
}
use garant.Deals.Escrow.{debit}
use garant.Deposits.Invoice.{Config, InvoiceReply, get_currency_by_code, create_deposit_invoice}

-- The rate and the commission of a deal between the two.
unfoldable pub deal_commission : Db → User → User → ℕ → Currency → ℕ
deal_commission db buyer seller amt currency =
    commission_of amt
      (resolve_commission_rate db.settings.deal_commission_percent
        db.settings.vip_commission_percent buyer.is_vip seller.is_vip)
      currency.decimals

-- The row that `Deal(…)` describes.
unfoldable pub new_deal :
    ℕ → User → User → Currency → ℕ → ℕ → DealStatus → Provider → Bool → Db → Deal
new_deal now buyer seller currency amt commission status provider commission_paid db = record {
  id = db.next_deal_id;
  buyer_id = buyer.id;
  seller_id = seller.id;
  currency_id = currency.id;
  amount = amt;
  commission_amount = commission;
  status = status;
  payment_provider = provider;
  commission_paid = commission_paid;
  topup_deposit_id = none;
  confirm_buyer = false;
  confirm_seller = false;
  created_at = now;
  in_progress_at = none;
  completed_at = none;
  cancellation_initiator_id = none;
  cancellation_requested_at = none;
  arbitration_initiator_id = none;
  arbitration_resolved_by = none;
  arbitration_resolution = none;
  arbitration_resolved_at = none;
}

abbrev pub insert_deal : Deal → Db → Db
insert_deal deal db = put_deal deal (record db { next_deal_id = db.next_deal_id + 1 })

unfoldable pub create_deal :
    ℕ → User → User → Text → Decimal → Provider → Db → Result Error (Deal × Db)
create_deal now buyer seller wanted raw provider db = do
  raise_if (buyer.id == seller.id) self_deal
  currency ← or_raise (get_currency_by_code wanted db) currency_unsupported
  raise_if (is_unusable raw) bad_amount
  let amt = quantize_decimal raw currency.decimals
  raise_if (amt == 0) bad_amount
  funds ← debit buyer.id currency.id amt db.funds
  let commission = deal_commission db buyer seller amt currency
  let deal = new_deal now buyer seller currency amt commission pending_confirmation provider true db
  ok (deal, notify seller.id deals (about_deal deal.id) (insert_deal deal (with_funds funds db)))

-- The branch in which the balance covers principal and commission.
unfoldable pub create_balance_funded :
    ℕ → User → User → Currency → ℕ → ℕ → ℕ → Provider → Wallet → Db → Deal × Db
create_balance_funded now buyer seller currency amt commission needed provider w db =
    let deal =
      new_deal now buyer seller currency amt commission pending_confirmation provider true db in
    let funds =
      update_balance buyer.id currency.id (λ a l. (a - needed, l + amt)) deal_create_balance_funded
        (from_deal (some deal.id)) w in
    (deal, notify seller.id deals (about_deal deal.id) (insert_deal deal (with_funds funds db)))

-- The branch in which the buyer owes an invoice of `invoice_total`.
unfoldable pub create_invoice_funded :
    Config
    → InvoiceReply
    → ℕ
    → User
    → User
    → Currency
    → ℕ
    → ℕ
    → ℕ
    → Provider
    → Wallet
    → Db
    → Result Error (Deal × Deposit × Db)
create_invoice_funded config reply now buyer seller currency amt commission invoice_total provider w
      db =
    do
      let deal = new_deal now buyer seller currency amt commission pending_topup provider false db
      let db1 = insert_deal deal (with_funds w db)
      raise_if (invoice_total == 0) commission_below_precision
      (deposit, db2) ←
          create_deposit_invoice config reply now buyer.id currency.code invoice_total deal_topup
            provider (not (ltb invoice_total currency.min_deposit)) db1
      let linked = record deposit { linked_deal_id = some deal.id }
      let attached = record deal { topup_deposit_id = some deposit.id }
      ok (
        attached,
        linked,
        notify seller.id deals (about_deal deal.id) (put_deal attached (put_deposit linked db2)),
      )

abbrev pub max : ℕ → ℕ → ℕ
max a b = if ltb a b then b else a

-- `quantize_money(amt + commission)`, and `quantize_money(topup_principal + commission)`
unfoldable pub amount_needed : ℕ → ℕ → Currency → ℕ
amount_needed amt commission currency = quantize_money (amt + commission) currency.decimals

unfoldable pub invoice_total_of : ℕ → ℕ → ℕ → Currency → ℕ
invoice_total_of amt commission balance currency =
    let topup_principal = quantize_money (max 0 (amt - balance)) currency.decimals in
    quantize_money (topup_principal + commission) currency.decimals

abbrev pub without_deposit : Deal × Db → Result Error (Deal × Option Deposit × Db)
without_deposit (deal, db) = ok (deal, none, db)

unfoldable pub create_deal_with_topup :
    Config
    → InvoiceReply
    → ℕ
    → User
    → User
    → Text
    → Decimal
    → Provider
    → Db
    → Result Error (Deal × Option Deposit × Db)
create_deal_with_topup config reply now buyer seller wanted raw provider db = do
  raise_if (buyer.id == seller.id) self_deal
  currency ← or_raise (get_currency_by_code wanted db) currency_unsupported
  raise_if (is_unusable raw) bad_amount
  let amt = quantize_decimal raw currency.decimals
  raise_if (amt == 0) bad_amount
  let commission = deal_commission db buyer seller amt currency
  let bal = (lock_user_balance buyer.id currency.id db.funds).0
  let w = (lock_user_balance buyer.id currency.id db.funds).1
  let needed = amount_needed amt commission currency
  let invoice_total = invoice_total_of amt commission bal.amount currency
  if leb needed bal.amount
      then without_deposit
          (create_balance_funded now buyer seller currency amt commission needed provider w db)
      else (do
        (deal, deposit, db') ←
            create_invoice_funded config reply now buyer seller currency amt commission
              invoice_total provider w db
        ok (deal, some deposit, db'))
