-- ===== src/Tests/Withdrawals.antt =====
-- A withdrawal of the buyer of `World`, asked for where there is an admin.
use garant.Base.{
  ℕ, ◌+◌, ◌≤◌, ◌≡◌, ◌∙◌, refl, Bool, true, false, none, some, [], ◌∷◌, ok, err, Result, arith,
}
use garant.Base.Text.{length}
use garant.Wallet.{amount_of, locked_of}
use garant.Wallet.Ledger.{IsReconciled}
use garant.Wallet.Total.{total}
use garant.Schema.{
  Db, User, Currency, Withdrawal, WithdrawStatus, Error, get_withdrawal, get_currency, get_user,
}
use garant.Withdrawals.Address.{matched, sanitise_withdraw_address, withdraw_address_max_len}
use garant.Withdrawals.Address.Bounds.{IsClean, sanitise_withdraw_address-IsClean}
use garant.Withdrawals.Request.{request_units, new_withdrawal}
use garant.Withdrawals.Transfer.Whole.{
  request_withdrawal-whole, refund_failed-whole, create_withdrawal-whole,
}
use garant.Withdrawals.Transfer.{failed, transferred, create_units, refund_units}
use garant.Withdrawals.Decide.{
  Outcome, done, raised, state_of, approve, reject, mark_sent, decide_withdrawal,
}
use garant.Withdrawals.Stale.{completed, reconcile_row}
use garant.Solvency.{IsSound, IsBacked}
use garant.Solvency.Claims.{SameClaim}
use garant.Solvency.WithdrawSteps.{request_units-IsSound}
use garant.Solvency.DecideSteps.{decide_withdrawal-IsSound}
use garant.Solvency.WithdrawFunds.{
  Leaves, Returns, EndsAs, mark_sent-Leaves, reject-Returns, request-reject,
}
use garant.Solvency.Races.{SettledTwice, approve-reject-race, refund_failed-twice}
use garant.Solvency.Runs.{stays, steps, sweeps_inactivity}
use garant.Deals.Sweep.{sweep_inactivity}
use garant.Machine.ClaimHistories.{settled-forever, create_withdrawal-IsSound}
use garant.Machine.StaleMoves.{reconcile_row-again, reconcile_row-unrecorded}
use garant.Tests.World.{
  half_up, half_up-IsExact, start, start-IsSound, ann, bob, judge, user, usdt, dollars, config,
  currency, settings,
}
use garant.Tests.Deals.{is_ok, value}

abbrev boss : User
boss = record (user 4 false) { is_admin = true }

-- With an admin, and with automatic withdrawals on.
abbrev pub office : Db
office = record start {
  users = ann ∷ bob ∷ judge ∷ boss ∷ [];
  settings = record settings { auto_withdraw_enabled = true };
}

office-IsSound : IsSound office
office-IsSound = record {
  backed = start-IsSound.backed;
  reconciled = start-IsSound.reconciled;
  deals_sound = start-IsSound.deals_sound;
  deals_keyed = start-IsSound.deals_keyed;
  withdrawals_sound = start-IsSound.withdrawals_sound;
  withdrawals_keyed = start-IsSound.withdrawals_keyed;
  currencies_keyed = start-IsSound.currencies_keyed;
}

abbrev asked : Result Error (Currency × Withdrawal × Db)
asked = request_units config (matched true) 1000 ann usdt (dollars 40) none office

abbrev no_row : Withdrawal
no_row = new_withdrawal 0 bob currency 0 none start

abbrev row : Withdrawal
row = (value (currency, no_row, start) asked).1

abbrev db1 : Db
db1 = (value (currency, no_row, start) asked).2

asked-ok : is_ok asked ≡ true
unfolding request_units garant.Deposits.Invoice.get_currency_by_code
    garant.Withdrawals.Address.clean_address garant.Withdrawals.Request.is_automatic
    garant.Deposits.Invoice.is_cryptopay_configured garant.Wallet.lock_user_balance
    garant.Wallet.find_balance garant.Wallet.update_balance garant.Wallet.record_balance_ledger
    garant.Wallet.put_balance
asked-ok = refl

asked-eq : asked ≡ ok (currency, row, db1)
unfolding request_units garant.Deposits.Invoice.get_currency_by_code
    garant.Withdrawals.Address.clean_address garant.Withdrawals.Request.is_automatic
    garant.Deposits.Invoice.is_cryptopay_configured garant.Wallet.lock_user_balance
    garant.Wallet.find_balance garant.Wallet.update_balance garant.Wallet.record_balance_ledger
    garant.Wallet.put_balance
asked-eq = refl

db1-IsSound : IsSound db1
db1-IsSound =
    request_units-IsSound config (matched true) 1000 ann usdt (dollars 40) none office currency row
      db1 office-IsSound asked-eq

row-found : get_withdrawal 1 db1 ≡ some row
unfolding garant.Base.Table.get request_units garant.Deposits.Invoice.get_currency_by_code
    garant.Withdrawals.Address.clean_address garant.Withdrawals.Request.is_automatic
    garant.Deposits.Invoice.is_cryptopay_configured garant.Wallet.lock_user_balance
    garant.Wallet.find_balance garant.Wallet.update_balance garant.Wallet.record_balance_ledger
    garant.Wallet.put_balance garant.Base.Table.put new_withdrawal
row-found = refl

abbrev rejected : Outcome
rejected = decide_withdrawal reject config failed (λ x. x) 2000 1 db1

rejected-done : rejected ≡ done (state_of rejected)
unfolding decide_withdrawal garant.Base.Table.get request_units
    garant.Deposits.Invoice.get_currency_by_code garant.Withdrawals.Address.clean_address
    garant.Withdrawals.Request.is_automatic garant.Deposits.Invoice.is_cryptopay_configured
    garant.Wallet.lock_user_balance garant.Wallet.find_balance garant.Wallet.update_balance
    garant.Wallet.record_balance_ledger garant.Wallet.put_balance garant.Base.Table.put
    new_withdrawal garant.Withdrawals.Decide.decide
rejected-done = refl

abbrev db2 : Db
db2 = state_of rejected

db2-IsSound : IsSound db2
db2-IsSound =
    decide_withdrawal-IsSound 2000 config failed (λ x. x) (λ x s. s) (λ n x still. still) reject 1
      db1 db1-IsSound

reject-Returns_example :
    (garant.Solvency.is_open row.status ≡ true)
    × Returns row db1 db2
    × EndsAs WithdrawStatus.rejected row db2
reject-Returns_example =
    reject-Returns config failed (λ x. x) 2000 1 row db1 db2 db1-IsSound row-found rejected-done

request-reject_example :
    (amount_of 1 1 db2.funds ≡ amount_of 1 1 office.funds)
    × (locked_of 1 1 db2.funds ≡ locked_of 1 1 office.funds)
unfolding request_units garant.Deposits.Invoice.get_currency_by_code
    garant.Withdrawals.Address.clean_address garant.Withdrawals.Request.is_automatic
    garant.Deposits.Invoice.is_cryptopay_configured garant.Wallet.lock_user_balance
    garant.Wallet.find_balance garant.Wallet.update_balance garant.Wallet.record_balance_ledger
    garant.Wallet.put_balance new_withdrawal
request-reject_example =
    request-reject half_up half_up-IsExact config (matched true) 1000 2000 ann usdt (dollars 40)
      none failed (λ x. x) currency row office db1 db2 office-IsSound
      (request_withdrawal-whole half_up half_up-IsExact config (matched true) 1000 ann usdt
          (dollars 40) none office
        ∙ asked-eq)
      rejected-done

-- The transfer fails, and the row stays approved.
abbrev db3 : Db
db3 = state_of (decide_withdrawal approve config failed (λ x. x) 2000 1 db1)

abbrev approved_row : Withdrawal
approved_row = record row { status = WithdrawStatus.approved }

db3-IsSound : IsSound db3
db3-IsSound =
    decide_withdrawal-IsSound 2000 config failed (λ x. x) (λ x s. s) (λ n x still. still) approve 1
      db1 db1-IsSound

approved_row-found : get_withdrawal 1 db3 ≡ some approved_row
unfolding garant.Base.Table.get decide_withdrawal request_units
    garant.Deposits.Invoice.get_currency_by_code garant.Withdrawals.Address.clean_address
    garant.Withdrawals.Request.is_automatic garant.Deposits.Invoice.is_cryptopay_configured
    garant.Wallet.lock_user_balance garant.Wallet.find_balance garant.Wallet.update_balance
    garant.Wallet.record_balance_ledger garant.Wallet.put_balance garant.Base.Table.put
    new_withdrawal garant.Withdrawals.Decide.decide garant.Withdrawals.Decide.approve_withdrawal
approved_row-found = refl

abbrev sent : Outcome
sent = decide_withdrawal mark_sent config failed (λ x. x) 3000 1 db3

sent-done : sent ≡ done (state_of sent)
unfolding decide_withdrawal garant.Base.Table.get request_units
    garant.Deposits.Invoice.get_currency_by_code garant.Withdrawals.Address.clean_address
    garant.Withdrawals.Request.is_automatic garant.Deposits.Invoice.is_cryptopay_configured
    garant.Wallet.lock_user_balance garant.Wallet.find_balance garant.Wallet.update_balance
    garant.Wallet.record_balance_ledger garant.Wallet.put_balance garant.Base.Table.put
    new_withdrawal garant.Withdrawals.Decide.decide garant.Withdrawals.Decide.approve_withdrawal
sent-done = refl

mark_sent-Leaves_example :
    (approved_row.status ≡ WithdrawStatus.approved)
    × Leaves approved_row db3 (state_of sent)
    × EndsAs WithdrawStatus.sent approved_row (state_of sent)
mark_sent-Leaves_example =
    mark_sent-Leaves config failed (λ x. x) 3000 1 approved_row db3 (state_of sent) db3-IsSound
      approved_row-found sent-done

ann-found : get_user 1 db1 ≡ some ann
unfolding garant.Base.Table.get request_units garant.Deposits.Invoice.get_currency_by_code
    garant.Withdrawals.Address.clean_address garant.Withdrawals.Request.is_automatic
    garant.Deposits.Invoice.is_cryptopay_configured garant.Wallet.lock_user_balance
    garant.Wallet.find_balance garant.Wallet.update_balance garant.Wallet.record_balance_ledger
    garant.Wallet.put_balance
ann-found = refl

currency-found : get_currency 1 db1 ≡ some currency
unfolding garant.Base.Table.get request_units garant.Deposits.Invoice.get_currency_by_code
    garant.Withdrawals.Address.clean_address garant.Withdrawals.Request.is_automatic
    garant.Deposits.Invoice.is_cryptopay_configured garant.Wallet.lock_user_balance
    garant.Wallet.find_balance garant.Wallet.update_balance garant.Wallet.record_balance_ledger
    garant.Wallet.put_balance
currency-found = refl

configured : garant.Deposits.Invoice.is_cryptopay_configured config.cryptobot_token ≡ true
unfolding garant.Deposits.Invoice.is_cryptopay_configured
configured = refl

approve-reject-race_example :
    (db' : Db) × (decide_withdrawal approve config transferred
        (λ x. state_of (decide_withdrawal reject config failed (λ y. y) 2500 1 x))
        2000
        1
        db1
      ≡ done db')
    × SettledTwice row db1 db'
unfolding request_units garant.Deposits.Invoice.get_currency_by_code
    garant.Withdrawals.Address.clean_address garant.Withdrawals.Request.is_automatic
    garant.Deposits.Invoice.is_cryptopay_configured garant.Wallet.lock_user_balance
    garant.Wallet.find_balance garant.Wallet.update_balance garant.Wallet.record_balance_ledger
    garant.Wallet.put_balance new_withdrawal
approve-reject-race_example =
    approve-reject-race config failed 2000 2500 1 row currency ann db1 db1-IsSound row-found
      currency-found ann-found refl configured

abbrev refused_row : Withdrawal
refused_row = record row { status = WithdrawStatus.rejected; processed_at = some 2000 }

refused_row-found : get_withdrawal 1 db2 ≡ some refused_row
unfolding garant.Base.Table.get decide_withdrawal request_units
    garant.Deposits.Invoice.get_currency_by_code garant.Withdrawals.Address.clean_address
    garant.Withdrawals.Request.is_automatic garant.Deposits.Invoice.is_cryptopay_configured
    garant.Wallet.lock_user_balance garant.Wallet.find_balance garant.Wallet.update_balance
    garant.Wallet.record_balance_ledger garant.Wallet.put_balance garant.Base.Table.put
    new_withdrawal garant.Withdrawals.Decide.decide garant.Withdrawals.Decide.give_back
refused_row-found = refl

abbrev back : Db
back = elim (refund_units 3000 ann currency row db2) [ some x ↦ x | none ↦ db2 ]

back-eq : refund_units 3000 ann currency row db2 ≡ some back
unfolding decide_withdrawal garant.Base.Table.get garant.Base.Table.put
    garant.Deposits.Invoice.get_currency_by_code garant.Deposits.Invoice.is_cryptopay_configured
    garant.Wallet.find_balance garant.Wallet.lock_user_balance garant.Wallet.put_balance
    garant.Wallet.record_balance_ledger garant.Wallet.update_balance
    garant.Withdrawals.Address.clean_address garant.Withdrawals.Balance.update_existing
    garant.Withdrawals.Decide.decide garant.Withdrawals.Decide.give_back
    garant.Withdrawals.Request.is_automatic new_withdrawal refund_units request_units
back-eq = refl

refund_failed-twice_example : ¬ (IsBacked back × (total 1 back.funds ≡ total 1 db2.funds))
unfolding request_units garant.Deposits.Invoice.get_currency_by_code
    garant.Withdrawals.Address.clean_address garant.Withdrawals.Request.is_automatic
    garant.Deposits.Invoice.is_cryptopay_configured garant.Wallet.lock_user_balance
    garant.Wallet.find_balance garant.Wallet.update_balance garant.Wallet.record_balance_ledger
    garant.Wallet.put_balance new_withdrawal
refund_failed-twice_example =
    refund_failed-twice 3000 ann currency row refused_row db2 back db2-IsSound refused_row-found
      refl half_up half_up-IsExact refl refl (omega arith)
      (refund_failed-whole half_up half_up-IsExact 3000 ann currency row db2 ∙ back-eq)

settled-forever_example :
    (w' : Withdrawal) × (get_withdrawal 1 (sweep_inactivity 9000 db2).1 ≡ some w')
    × SameClaim refused_row w'
    × (w'.status ≡ WithdrawStatus.rejected)
settled-forever_example =
    settled-forever config half_up half_up-IsExact db2 (sweep_inactivity 9000 db2).1 1 refused_row
      db2-IsSound (steps db2 (sweep_inactivity 9000 db2).1 stays (sweeps_inactivity 9000))
      refused_row-found refl

reconcile_row-unrecorded_example :
    IsBacked (reconcile_row completed 9000 row db1).1
    × ¬ IsReconciled (reconcile_row completed 9000 row db1).1.funds
unfolding request_units garant.Deposits.Invoice.get_currency_by_code
    garant.Withdrawals.Address.clean_address garant.Withdrawals.Request.is_automatic
    garant.Deposits.Invoice.is_cryptopay_configured garant.Wallet.lock_user_balance
    garant.Wallet.find_balance garant.Wallet.update_balance garant.Wallet.record_balance_ledger
    garant.Wallet.put_balance new_withdrawal
reconcile_row-unrecorded_example =
    reconcile_row-unrecorded completed 9000 row db1 db1-IsSound row-found refl refl (omega arith)

abbrev made : Result Error (Withdrawal × Db)
made =
    create_units config (matched true) transferred (λ x. x) 1000 2000 ann usdt (dollars 40) none
      office

made-eq : made ≡ ok (row, (value (no_row, start) made).1)
unfolding create_units request_units garant.Deposits.Invoice.get_currency_by_code
    garant.Withdrawals.Address.clean_address garant.Withdrawals.Request.is_automatic
    garant.Deposits.Invoice.is_cryptopay_configured garant.Wallet.lock_user_balance
    garant.Wallet.find_balance garant.Wallet.update_balance garant.Wallet.record_balance_ledger
    garant.Wallet.put_balance
made-eq = refl

create_withdrawal-IsSound_example : IsSound (value (no_row, start) made).1
create_withdrawal-IsSound_example =
    create_withdrawal-IsSound config half_up half_up-IsExact (matched true) transferred (λ x. x)
      1000 2000 ann usdt (dollars 40) none office row (value (no_row, start) made).1 office-IsSound
      (λ x. stays) (λ nobody cur x w asked found. cc nobody)
      (create_withdrawal-whole half_up half_up-IsExact config (matched true) transferred (λ x. x)
          1000 2000 ann usdt (dollars 40) none office
        ∙ made-eq)

-- " a\b"
sanitise_withdraw_address-IsClean_example :
    IsClean (sanitise_withdraw_address (32 ∷ 97 ∷ 92 ∷ 98 ∷ []))
    × (length (sanitise_withdraw_address (32 ∷ 97 ∷ 92 ∷ 98 ∷ [])) ≤ withdraw_address_max_len)
sanitise_withdraw_address-IsClean_example =
    sanitise_withdraw_address-IsClean (32 ∷ 97 ∷ 92 ∷ 98 ∷ [])

-- The owner asks for more after the rejection, while the sweep waits with the first row.
abbrev db5 : Db
db5 =
    (value (currency, no_row, start)
      (request_units config (matched true) 2500 ann usdt (dollars 40) none db2)).2

again-eq :
    request_units config (matched true) 2500 ann usdt (dollars 40) none db2
    ≡ ok (
      currency,
      (value
          (currency, no_row, start)
          (request_units config (matched true) 2500 ann usdt (dollars 40) none db2)).1,
      db5,
    )
unfolding garant.Base.Table.get decide_withdrawal request_units
    garant.Deposits.Invoice.get_currency_by_code garant.Withdrawals.Address.clean_address
    garant.Withdrawals.Request.is_automatic garant.Deposits.Invoice.is_cryptopay_configured
    garant.Wallet.lock_user_balance garant.Wallet.find_balance garant.Wallet.update_balance
    garant.Wallet.record_balance_ledger garant.Wallet.put_balance garant.Base.Table.put
    new_withdrawal garant.Withdrawals.Decide.decide garant.Withdrawals.Decide.give_back
    garant.Withdrawals.Balance.update_existing
again-eq = refl

db5-IsSound : IsSound db5
db5-IsSound =
    request_units-IsSound config (matched true) 2500 ann usdt (dollars 40) none db2 currency
      (value (currency, no_row, start)
        (request_units config (matched true) 2500 ann usdt (dollars 40) none db2)).1
      db5 db2-IsSound again-eq

refused-kept : get_withdrawal 1 db5 ≡ some refused_row
unfolding garant.Base.Table.get decide_withdrawal request_units
    garant.Deposits.Invoice.get_currency_by_code garant.Withdrawals.Address.clean_address
    garant.Withdrawals.Request.is_automatic garant.Deposits.Invoice.is_cryptopay_configured
    garant.Wallet.lock_user_balance garant.Wallet.find_balance garant.Wallet.update_balance
    garant.Wallet.record_balance_ledger garant.Wallet.put_balance garant.Base.Table.put
    new_withdrawal garant.Withdrawals.Decide.decide garant.Withdrawals.Decide.give_back
    garant.Withdrawals.Balance.update_existing
refused-kept = refl

locked_again : locked_of 1 1 db5.funds ≡ dollars 40
unfolding garant.Base.Table.get decide_withdrawal request_units
    garant.Deposits.Invoice.get_currency_by_code garant.Withdrawals.Address.clean_address
    garant.Withdrawals.Request.is_automatic garant.Deposits.Invoice.is_cryptopay_configured
    garant.Wallet.lock_user_balance garant.Wallet.find_balance garant.Wallet.update_balance
    garant.Wallet.record_balance_ledger garant.Wallet.put_balance garant.Base.Table.put
    new_withdrawal garant.Withdrawals.Decide.decide garant.Withdrawals.Decide.give_back locked_of
    garant.Withdrawals.Balance.update_existing
locked_again = refl

reconcile_row-again_example : ¬ IsBacked (reconcile_row completed 9000 row db5).1
unfolding request_units garant.Deposits.Invoice.get_currency_by_code
    garant.Withdrawals.Address.clean_address garant.Withdrawals.Request.is_automatic
    garant.Deposits.Invoice.is_cryptopay_configured garant.Wallet.lock_user_balance
    garant.Wallet.find_balance garant.Wallet.update_balance garant.Wallet.record_balance_ledger
    garant.Wallet.put_balance new_withdrawal
reconcile_row-again_example =
    reconcile_row-again completed 9000 row refused_row db5 db5-IsSound refl refused-kept
      (refl, refl, refl, refl, refl) refl refl (omega arith) (ground (arith, locked_again))
