-- ===== src/Tests/AdminRisks.antt =====
-- What the actions of an admin leave unpaid or unrecorded, on the deals of `Tests.Deals`.
use garant.Base.{
  ℕ, ◌+◌, ◌-◌, ◌*◌, ◌^◌, ◌≤◌, ◌≡◌, ◌≢◌, refl, Bool, true, false, Option, none, some, [], ◌∷◌, ok,
  err, Result, arith,
}
use garant.Money.{quantize_money}
use garant.Wallet.{
  Wallet, row_of, update_balance, locked_of, deal_release_debit, deal_release_credit, from_deal,
}
use garant.Wallet.Ledger.{IsReconciled}
use garant.Wallet.Total.{total}
use garant.Schema.{Db, Deal, Error, pending_topup, seller, get_deal, get_currency}
use garant.Deals.Arbitration.{resolve_arbitration}
use garant.Admin.Actions.{force_release, force_refund, split_deal, force_arbitration, delete_deal}
use garant.Solvency.{IsBacked}
use garant.Solvency.AdminRisks.{unfunded-ruling, delete_deal-unrecorded}
use garant.Tests.World.{judge, currency}
use garant.Tests.Deals.{is_ok, value, ok-value, deal1, db1, created-IsSound}
use garant.Tests.Topups.{out}
use garant.Tests.Admin.{boss, found1}

deleted-ok : is_ok (delete_deal 1 db1) ≡ true
unfolding garant.Base.Table.get garant.Base.Table.put garant.Deals.Create.create_deal
    garant.Deals.Create.new_deal garant.Deposits.Invoice.get_currency_by_code
    garant.Money.is_unusable garant.Money.quantize_decimal garant.Deals.Escrow.debit
    garant.Wallet.lock_user_balance garant.Wallet.find_balance update_balance
    garant.Wallet.record_balance_ledger garant.Wallet.put_balance delete_deal
deleted-ok = refl

deal1-currency : get_currency deal1.currency_id db1 ≡ some currency
unfolding garant.Base.Table.get garant.Deals.Create.create_deal garant.Deals.Create.new_deal
    garant.Deposits.Invoice.get_currency_by_code garant.Money.is_unusable
    garant.Money.quantize_decimal garant.Deals.Escrow.debit garant.Wallet.lock_user_balance
    garant.Wallet.find_balance update_balance garant.Wallet.record_balance_ledger
    garant.Wallet.put_balance
deal1-currency = refl

deal1-active : garant.Admin.Actions.is_active_for_money_movement deal1.status ≡ true
unfolding garant.Deals.Create.create_deal garant.Deals.Create.new_deal
    garant.Deposits.Invoice.get_currency_by_code garant.Money.is_unusable
    garant.Money.quantize_decimal garant.Deals.Escrow.debit garant.Wallet.lock_user_balance
    garant.Wallet.find_balance update_balance garant.Wallet.record_balance_ledger
    garant.Wallet.put_balance
deal1-active = refl

delete_deal-unrecorded_example :
    IsBacked (value db1 (delete_deal 1 db1)) × ¬ IsReconciled (value db1 (delete_deal 1 db1)).funds
unfolding garant.Deals.Create.create_deal garant.Deposits.Invoice.get_currency_by_code
    garant.Money.is_unusable garant.Money.quantize_decimal garant.Deals.Escrow.debit
    garant.Wallet.lock_user_balance garant.Wallet.find_balance update_balance
    garant.Wallet.record_balance_ledger garant.Wallet.put_balance garant.Deals.Create.new_deal
delete_deal-unrecorded_example =
    delete_deal-unrecorded boss 1 deal1 db1 (value db1 (delete_deal 1 db1)) created-IsSound found1
      deal1-active (ok-value db1 (delete_deal 1 db1) deleted-ok) currency deal1-currency
      (omega arith)

-- A deal that waits for its top-up.
abbrev unfunded : Deal
unfunded = out.0

abbrev db3 : Db
db3 = out.2

abbrev opened : Result Error Db
opened = force_arbitration boss 1 db3

opened-ok : is_ok opened ≡ true
unfolding garant.Base.Table.get garant.Base.Table.put garant.Deals.Create.new_deal
    garant.Deals.Create.deal_commission garant.Deposits.Invoice.get_currency_by_code
    garant.Money.is_unusable garant.Money.quantize_decimal garant.Money.commission_of quantize_money
    garant.Money.resolve_commission_rate garant.Wallet.lock_user_balance garant.Wallet.find_balance
    update_balance garant.Wallet.record_balance_ledger garant.Wallet.put_balance
    garant.Deals.Create.create_deal_with_topup garant.Deals.Create.amount_needed
    garant.Deals.Create.create_invoice_funded garant.Deals.Create.invoice_total_of
    garant.Deposits.Invoice.create_deposit_invoice garant.Deposits.Invoice.create_cryptobot_deposit
    garant.Deposits.Invoice.is_cryptopay_configured force_arbitration
opened-ok = refl

abbrev db4 : Db
db4 = value db3 opened

abbrev forced : Deal
forced = elim (get_deal 1 db4) [ some d ↦ d | none ↦ unfunded ]

abbrev ruled : Result Error Db
ruled = resolve_arbitration 9000 forced judge seller db4

ruled-ok : is_ok ruled ≡ true
unfolding garant.Base.Table.get garant.Base.Table.put garant.Deals.Create.new_deal
    garant.Deals.Create.deal_commission garant.Deposits.Invoice.get_currency_by_code
    garant.Money.is_unusable garant.Money.quantize_decimal garant.Money.commission_of quantize_money
    garant.Money.resolve_commission_rate garant.Wallet.lock_user_balance garant.Wallet.find_balance
    update_balance garant.Wallet.record_balance_ledger garant.Wallet.put_balance
    garant.Deals.Create.create_deal_with_topup garant.Deals.Create.amount_needed
    garant.Deals.Create.create_invoice_funded garant.Deals.Create.invoice_total_of
    garant.Deposits.Invoice.create_deposit_invoice garant.Deposits.Invoice.create_cryptobot_deposit
    garant.Deposits.Invoice.is_cryptopay_configured force_arbitration resolve_arbitration
ruled-ok = refl

unfunded-stored : get_deal 1 db3 ≡ some unfunded
unfolding garant.Base.Table.get garant.Base.Table.put garant.Deals.Create.new_deal
    garant.Deals.Create.deal_commission garant.Deposits.Invoice.get_currency_by_code
    garant.Money.is_unusable garant.Money.quantize_decimal garant.Money.commission_of quantize_money
    garant.Money.resolve_commission_rate garant.Wallet.lock_user_balance garant.Wallet.find_balance
    update_balance garant.Wallet.record_balance_ledger garant.Wallet.put_balance
    garant.Deals.Create.create_deal_with_topup garant.Deals.Create.amount_needed
    garant.Deals.Create.create_invoice_funded garant.Deals.Create.invoice_total_of
    garant.Deposits.Invoice.create_deposit_invoice garant.Deposits.Invoice.create_cryptobot_deposit
    garant.Deposits.Invoice.is_cryptopay_configured
unfunded-stored = refl

forced-stored : get_deal 1 db4 ≡ some forced
unfolding garant.Base.Table.get garant.Base.Table.put garant.Deals.Create.new_deal
    garant.Deals.Create.deal_commission garant.Deposits.Invoice.get_currency_by_code
    garant.Money.is_unusable garant.Money.quantize_decimal garant.Money.commission_of quantize_money
    garant.Money.resolve_commission_rate garant.Wallet.lock_user_balance garant.Wallet.find_balance
    update_balance garant.Wallet.record_balance_ledger garant.Wallet.put_balance
    garant.Deals.Create.create_deal_with_topup garant.Deals.Create.amount_needed
    garant.Deals.Create.create_invoice_funded garant.Deals.Create.invoice_total_of
    garant.Deposits.Invoice.create_deposit_invoice garant.Deposits.Invoice.create_cryptobot_deposit
    garant.Deposits.Invoice.is_cryptopay_configured force_arbitration
forced-stored = refl

unfunded-waits : unfunded.status ≡ pending_topup
unfolding garant.Deals.Create.new_deal garant.Deals.Create.deal_commission
    garant.Deposits.Invoice.get_currency_by_code garant.Money.is_unusable
    garant.Money.quantize_decimal garant.Money.commission_of quantize_money
    garant.Money.resolve_commission_rate garant.Wallet.lock_user_balance garant.Wallet.find_balance
    update_balance garant.Wallet.record_balance_ledger garant.Wallet.put_balance
    garant.Deals.Create.create_deal_with_topup garant.Deals.Create.amount_needed
    garant.Deals.Create.create_invoice_funded garant.Deals.Create.invoice_total_of
    garant.Deposits.Invoice.create_deposit_invoice garant.Deposits.Invoice.create_cryptobot_deposit
    garant.Deposits.Invoice.is_cryptopay_configured
unfunded-waits = refl

nothing_locked : locked_of unfunded.buyer_id unfunded.currency_id db3.funds ≡ 0
unfolding garant.Deals.Create.new_deal garant.Deals.Create.deal_commission
    garant.Deposits.Invoice.get_currency_by_code garant.Money.is_unusable
    garant.Money.quantize_decimal garant.Money.commission_of quantize_money
    garant.Money.resolve_commission_rate garant.Wallet.lock_user_balance garant.Wallet.find_balance
    update_balance garant.Wallet.record_balance_ledger garant.Wallet.put_balance locked_of
    garant.Deals.Create.create_deal_with_topup garant.Deals.Create.amount_needed
    garant.Deals.Create.create_invoice_funded garant.Deals.Create.invoice_total_of
    garant.Deposits.Invoice.create_deposit_invoice garant.Deposits.Invoice.create_cryptobot_deposit
    garant.Deposits.Invoice.is_cryptopay_configured
nothing_locked = refl

unfunded-ruling_example :
    total unfunded.currency_id (value db4 ruled).funds
    ≡ total unfunded.currency_id db3.funds + unfunded.amount
unfunded-ruling_example =
    unfunded-ruling boss 1 unfunded db3 db4 garant.Tests.Topups.created-IsSound unfunded-stored
      unfunded-waits (ok-value db3 opened opened-ok) 9000 judge forced (value db4 ruled)
      nothing_locked forced-stored (ok-value db4 ruled ruled-ok)
