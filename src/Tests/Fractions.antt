-- ===== src/Tests/Fractions.antt =====
-- A withdrawal of 40 dollars and half a unit, asked for and rejected.
use garant.Base.{ℕ, ◌+◌, ◌*◌, ◌^◌, ◌/◌, ◌≡◌, refl, true, none, some, ok, Result, arith}
use garant.Wallet.{amount_of, locked_of}
use garant.Schema.{Db, Currency, Withdrawal, Error}
use garant.Withdrawals.Address.{matched}
use garant.Withdrawals.Request.{request_withdrawal, new_withdrawal}
use garant.Withdrawals.Transfer.{failed}
use garant.Withdrawals.Decide.{Outcome, done, state_of, reject, decide_withdrawal}
use garant.Solvency.Fractions.{and_half, RoundsUp, request-reject-gains}
use garant.Tests.World.{start, ann, bob, usdt, dollars, config, currency, half_up}
use garant.Tests.Deals.{value}
use garant.Tests.Withdrawals.{office}

half_up-RoundsUp : RoundsUp half_up
half_up-RoundsUp x = omega arith

abbrev asked : Result Error (Currency × Withdrawal × Db)
asked =
    request_withdrawal half_up config (matched true) 1000 ann usdt (and_half (dollars 40)) none
      office

abbrev no_row : Withdrawal
no_row = new_withdrawal 0 bob currency 0 none start

abbrev row : Withdrawal
row = (value (currency, no_row, start) asked).1

abbrev db1 : Db
db1 = (value (currency, no_row, start) asked).2

asked-eq : asked ≡ ok (currency, row, db1)
unfolding request_withdrawal garant.Deposits.Invoice.get_currency_by_code
    garant.Withdrawals.Address.clean_address garant.Withdrawals.Request.is_automatic
    garant.Deposits.Invoice.is_cryptopay_configured garant.Wallet.lock_user_balance
    garant.Wallet.find_balance garant.Withdrawals.Amount.update_decimal garant.Wallet.put_balance
    garant.Wallet.update_balance garant.Wallet.record_balance_ledger
asked-eq = refl

abbrev rejected : Outcome
rejected = decide_withdrawal reject config failed (λ x. x) 2000 row.id db1

rejected-done : rejected ≡ done (state_of rejected)
unfolding decide_withdrawal garant.Base.Table.get request_withdrawal
    garant.Deposits.Invoice.get_currency_by_code garant.Withdrawals.Address.clean_address
    garant.Withdrawals.Request.is_automatic garant.Deposits.Invoice.is_cryptopay_configured
    garant.Wallet.lock_user_balance garant.Wallet.find_balance
    garant.Withdrawals.Amount.update_decimal garant.Wallet.put_balance garant.Base.Table.put
    new_withdrawal garant.Withdrawals.Decide.decide garant.Withdrawals.Amount.equals
    garant.Wallet.update_balance garant.Wallet.record_balance_ledger
rejected-done = refl

request-reject-gains_example :
    (amount_of 1 1 (state_of rejected).funds ≡ amount_of 1 1 office.funds + 1)
    × (locked_of 1 1 (state_of rejected).funds ≡ locked_of 1 1 office.funds)
unfolding request_withdrawal garant.Deposits.Invoice.get_currency_by_code
    garant.Withdrawals.Address.clean_address garant.Withdrawals.Request.is_automatic
    garant.Deposits.Invoice.is_cryptopay_configured garant.Wallet.lock_user_balance
    garant.Wallet.find_balance garant.Withdrawals.Amount.update_decimal garant.Wallet.put_balance
request-reject-gains_example =
    request-reject-gains half_up half_up-RoundsUp config (matched true) 1000 2000 ann usdt
      (dollars 40) none failed (λ x. x) currency row office db1 (state_of rejected) asked-eq
      rejected-done
