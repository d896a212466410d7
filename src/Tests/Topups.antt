-- ===== src/Tests/Topups.antt =====
-- A deal of `World` that the buyer's balance does not cover, and deposits.
use garant.Base.{
  ℕ, ◌+◌, ◌≡◌, ◌≤◌, refl, Bool, true, false, none, some, [], ◌∷◌, ok, err, Result, Option,
}
use garant.Money.{quantize_money}
use garant.Wallet.{locked_of, lock_user_balance}
use garant.Schema.{Db, Deal, Deposit, Error, cryptobot, get_deposit, wallet}
use garant.Deals.Create.{create_deal_with_topup, new_deal}
use garant.Deals.Topup.{complete_deal_topup_payment, settle_waiting, remaining_total}
use garant.Deposits.Invoice.{InvoiceReply, issued, add_deposit, create_deposit_invoice}
use garant.Deposits.Webhook.{
  CryptobotPayload, handle_invoice_paid, handle_invoice_expired, credited, already_paid,
  already_terminal, Reply, is_deal_topup, find_wallet_deposit,
}
use garant.Deposits.Webhook.Once.{credited_once}
use garant.Solvency.{IsSound}
use garant.Solvency.CreateSteps.{create_deal_with_topup-IsSound}
use garant.Solvency.TopupSteps.{complete_deal_topup_payment-IsSound}
use garant.Solvency.WebhookSteps.{handle_invoice_paid-IsSound}
use garant.Solvency.Runs.{Reaches-IsSound, stays, steps, asks_deposit}
use garant.Tests.World.{
  half_up, half_up-IsExact, start, start-IsSound, ann, bob, usdt, whole, dollars, config, currency,
}
use garant.Tests.Deals.{is_ok, value, ok-value, no_deal}

abbrev reply : InvoiceReply
reply = issued 77 true true

abbrev created : Result Error (Deal × Option Deposit × Db)
created = create_deal_with_topup config reply 1000 ann bob usdt (whole 200) cryptobot start

abbrev pub out : Deal × Option Deposit × Db
out = value (no_deal, none, start) created

created-ok : is_ok created ≡ true
unfolding create_deal_with_topup garant.Deposits.Invoice.get_currency_by_code
    garant.Money.is_unusable garant.Money.quantize_decimal garant.Deals.Create.amount_needed
    quantize_money garant.Deals.Create.deal_commission garant.Money.commission_of
    garant.Money.resolve_commission_rate lock_user_balance garant.Wallet.find_balance
    garant.Wallet.update_balance garant.Wallet.record_balance_ledger garant.Wallet.put_balance
    garant.Deals.Create.create_invoice_funded garant.Deals.Create.invoice_total_of
    create_deposit_invoice garant.Deposits.Invoice.create_cryptobot_deposit
    garant.Deposits.Invoice.is_cryptopay_configured
created-ok = refl

pub created-IsSound : IsSound out.2
created-IsSound =
    create_deal_with_topup-IsSound 1000 ann bob usdt (whole 200) cryptobot start start-IsSound
      config reply {deal = out.0} {deposit = out.1} {db' = out.2}
      (ok-value (no_deal, none, start) created created-ok)

create_deal_with_topup-IsSound_example : IsSound out.2
create_deal_with_topup-IsSound_example =
    create_deal_with_topup-IsSound 1000 ann bob usdt (whole 200) cryptobot start start-IsSound
      config reply {deal = out.0} {deposit = out.1} {db' = out.2}
      (ok-value (no_deal, none, start) created created-ok)

abbrev deposit_of : Db → Deposit → Deposit
deposit_of db d = elim (get_deposit 1 db) [ some x ↦ x | none ↦ d ]

abbrev no_deposit : Deposit
no_deposit = (add_deposit 0 1 currency 0 wallet cryptobot 0 start).0

abbrev invoice : Deposit
invoice = deposit_of out.2 no_deposit

abbrev paid : Result Error Db
paid = complete_deal_topup_payment config reply 2000 (some (dollars 110)) invoice out.2

paid-ok : is_ok paid ≡ true
unfolding create_deal_with_topup garant.Deposits.Invoice.get_currency_by_code
    garant.Money.is_unusable garant.Money.quantize_decimal garant.Deals.Create.amount_needed
    quantize_money garant.Deals.Create.deal_commission garant.Money.commission_of
    garant.Money.resolve_commission_rate lock_user_balance garant.Wallet.find_balance
    garant.Wallet.update_balance garant.Wallet.record_balance_ledger garant.Wallet.put_balance
    garant.Deals.Create.create_invoice_funded garant.Deals.Create.invoice_total_of
    create_deposit_invoice garant.Base.Table.put garant.Base.Table.get new_deal
    garant.Deposits.Invoice.create_cryptobot_deposit garant.Deposits.Invoice.is_cryptopay_configured
    complete_deal_topup_payment remaining_total garant.Deals.Topup.settle_linked settle_waiting
paid-ok = refl

complete_deal_topup_payment-IsSound_example : IsSound (value start paid)
complete_deal_topup_payment-IsSound_example =
    complete_deal_topup_payment-IsSound config reply 2000 (some (dollars 110)) invoice out.2
      {db' = value start paid} created-IsSound (ok-value start paid paid-ok)

abbrev asked : Result Error (Deposit × Db)
asked = create_deposit_invoice config reply 1000 1 usdt (dollars 50) wallet cryptobot true start

abbrev waiting : Deposit × Db
waiting = value (no_deposit, start) asked

abbrev payload : CryptobotPayload
payload = record { says_paid = true; invoice_id = some 77; amount = some (dollars 50) }

abbrev heard : Result Error (Reply × Db)
heard = handle_invoice_paid config reply 2000 payload waiting.1

heard-ok : heard ≡ ok (credited wallet, (value (credited wallet, start) heard).1)
unfolding create_deposit_invoice garant.Deposits.Invoice.get_currency_by_code garant.Base.Table.put
    garant.Deposits.Invoice.create_cryptobot_deposit garant.Deposits.Invoice.is_cryptopay_configured
    quantize_money handle_invoice_paid find_wallet_deposit garant.Deposits.Webhook.accept_payment
    garant.Deposits.Credit.credit_deposit garant.Deposits.Credit.credit_by_purpose
heard-ok = refl

found : find_wallet_deposit 77 cryptobot waiting.1 ≡ some waiting.0
unfolding create_deposit_invoice garant.Deposits.Invoice.get_currency_by_code garant.Base.Table.put
    garant.Deposits.Invoice.create_cryptobot_deposit garant.Deposits.Invoice.is_cryptopay_configured
    quantize_money find_wallet_deposit
found = refl

there : get_deposit waiting.0.id waiting.1 ≡ some waiting.0
unfolding create_deposit_invoice garant.Deposits.Invoice.get_currency_by_code garant.Base.Table.put
    garant.Base.Table.get garant.Deposits.Invoice.create_cryptobot_deposit
    garant.Deposits.Invoice.is_cryptopay_configured quantize_money
there = refl

plain : is_deal_topup waiting.0.purpose ≡ false
unfolding create_deposit_invoice garant.Deposits.Invoice.get_currency_by_code
    garant.Deposits.Invoice.create_cryptobot_deposit garant.Deposits.Invoice.is_cryptopay_configured
    quantize_money
plain = refl

waiting-ok : is_ok asked ≡ true
unfolding create_deposit_invoice garant.Deposits.Invoice.get_currency_by_code
    garant.Deposits.Invoice.create_cryptobot_deposit garant.Deposits.Invoice.is_cryptopay_configured
    quantize_money
waiting-ok = refl

waiting-IsSound : IsSound waiting.1
waiting-IsSound = Reaches-IsSound config half_up half_up-IsExact start waiting.1 start-IsSound (
    steps start waiting.1 stays (
      asks_deposit reply 1000 1 usdt (dollars 50) wallet cryptobot true waiting.0 waiting.1
        (ok-value (no_deposit, start) asked waiting-ok)))

credited_once_example :
    (handle_invoice_paid config reply 9000 payload (value (credited wallet, start) heard).1
      ≡ ok (already_paid, (value (credited wallet, start) heard).1))
    × (handle_invoice_expired payload (value (credited wallet, start) heard).1
        ≡ (already_terminal, (value (credited wallet, start) heard).1))
unfolding create_deposit_invoice garant.Deposits.Invoice.get_currency_by_code quantize_money
    garant.Deposits.Invoice.create_cryptobot_deposit garant.Deposits.Invoice.is_cryptopay_configured
credited_once_example =
    credited_once config reply 2000 77 payload waiting.0 waiting.1
      {db' = (value (credited wallet, start) heard).1} refl found there plain heard-ok reply 9000
      payload refl refl

handle_invoice_paid-IsSound_example : IsSound (value (credited wallet, start) heard).1
handle_invoice_paid-IsSound_example =
    handle_invoice_paid-IsSound config reply 2000 payload waiting.1 {r = credited wallet}
      {db' = (value (credited wallet, start) heard).1} waiting-IsSound heard-ok
