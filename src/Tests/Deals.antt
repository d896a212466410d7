-- ===== src/Tests/Deals.antt =====
-- Deals of `World`, run through the services.
use garant.Base.{ℕ, ◌+◌, ◌≡◌, refl, Bool, true, false, none, some, [], ◌∷◌, ok, err, Result, arith}
use garant.Base.Text.{Text}
use garant.Wallet.{amount_of, locked_of}
use garant.Schema.{Db, Deal, Error, cancelled, cryptobot, get_deal, is_terminal, seller}
use garant.Deals.Create.{create_deal, new_deal}
use garant.Deals.Lifecycle.{accept_deal, finish_deal, decline_deal, request_cancel, accept_cancel}
use garant.Deals.Arbitration.{start_arbitration, resolve_arbitration}
use garant.Solvency.{IsSound}
use garant.Solvency.CreateSteps.{create_deal-IsSound}
use garant.Solvency.LifeSteps.{accept_deal-IsSound, finish_deal-IsSound, request_cancel-IsSound}
use garant.Solvency.DisputeSteps.{start_arbitration-IsSound}
use garant.Solvency.Payouts.{
  Pays, decline_deal-Pays, finish_deal-Pays, accept_cancel-Pays, resolve_arbitration-Pays,
}
use garant.Solvency.Runs.{
  stays, steps, creates, sweeps_inactivity, accepts, finishes, Reaches-IsSound,
}
use garant.Deals.Sweep.{sweep_inactivity}
use garant.Solvency.SweepSteps.{sweep_inactivity-IsSound}
use garant.Solvency.Steps.{SameTerms}
use garant.Machine.{Evolves}
use garant.Machine.Histories.{Reaches-Evolves, terminal-forever}
use garant.Tests.World.{
  half_up, half_up-IsExact, currency, start, start-IsSound, ann, bob, judge, usdt, whole, config,
}

abbrev pub is_ok : {A : Type 0} → Result Error A → Bool
is_ok (ok _) = true
is_ok (err _) = false

abbrev pub value : {A : Type 0} → A → Result Error A → A
value a (ok b) = b
value a (err _) = a

pub ok-value : {A : Type 0} (a : A) (r : Result Error A) → is_ok r ≡ true → r ≡ ok (value a r)
ok-value a (ok b) h = refl
ok-value a (err e) h = cc

-- A row to fall back on, so that a run is a term of the right type.
abbrev pub no_deal : Deal
no_deal = new_deal 0 ann bob currency 0 0 cancelled cryptobot true start

abbrev stored : Db → Deal
stored db = elim (get_deal 1 db) [ some d ↦ d | none ↦ no_deal ]

abbrev created : Result Error (Deal × Db)
created = create_deal 1000 ann bob usdt (whole 40) cryptobot start

abbrev pub deal1 : Deal
deal1 = (value (no_deal, start) created).0

abbrev pub db1 : Db
db1 = (value (no_deal, start) created).1

created-ok : is_ok created ≡ true
unfolding create_deal garant.Deposits.Invoice.get_currency_by_code garant.Money.is_unusable
    garant.Money.quantize_decimal garant.Deals.Escrow.debit garant.Wallet.lock_user_balance
    garant.Wallet.find_balance garant.Wallet.update_balance garant.Wallet.record_balance_ledger
    garant.Wallet.put_balance
created-ok = refl

created-found : get_deal deal1.id db1 ≡ some deal1
unfolding garant.Base.Table.get create_deal garant.Deposits.Invoice.get_currency_by_code
    garant.Money.is_unusable garant.Money.quantize_decimal garant.Deals.Escrow.debit
    garant.Wallet.lock_user_balance garant.Wallet.find_balance garant.Wallet.update_balance
    garant.Wallet.record_balance_ledger garant.Wallet.put_balance garant.Base.Table.put new_deal
created-found = refl

pub created-IsSound : IsSound db1
created-IsSound =
    create_deal-IsSound 1000 ann bob usdt (whole 40) cryptobot start start-IsSound {deal = deal1}
      {db' = db1} (ok-value (no_deal, start) created created-ok)

abbrev declined : Result Error Db
declined = decline_deal 2000 deal1 2 db1

declined-ok : is_ok declined ≡ true
unfolding decline_deal create_deal garant.Deposits.Invoice.get_currency_by_code
    garant.Money.is_unusable garant.Money.quantize_decimal garant.Deals.Escrow.debit
    garant.Wallet.lock_user_balance garant.Wallet.find_balance garant.Wallet.update_balance
    garant.Wallet.record_balance_ledger garant.Wallet.put_balance new_deal garant.Base.Table.get
declined-ok = refl

decline_deal-Pays_example : Pays 1 deal1 db1 (value db1 declined)
unfolding create_deal garant.Deposits.Invoice.get_currency_by_code garant.Money.is_unusable
    garant.Money.quantize_decimal garant.Deals.Escrow.debit garant.Wallet.lock_user_balance
    garant.Wallet.find_balance garant.Wallet.update_balance garant.Wallet.record_balance_ledger
    garant.Wallet.put_balance new_deal
decline_deal-Pays_example =
    decline_deal-Pays 2000 deal1 2 db1 {db' = value db1 declined} created-IsSound created-found
      (ok-value db1 declined declined-ok)

abbrev accepted : Result Error Db
accepted = accept_deal 2000 deal1 2 db1

abbrev db2 : Db
db2 = value db1 accepted

accepted-ok : is_ok accepted ≡ true
unfolding accept_deal create_deal garant.Deposits.Invoice.get_currency_by_code
    garant.Money.is_unusable garant.Money.quantize_decimal garant.Deals.Escrow.debit
    garant.Wallet.lock_user_balance garant.Wallet.find_balance garant.Wallet.update_balance
    garant.Wallet.record_balance_ledger garant.Wallet.put_balance new_deal
accepted-ok = refl

accepted-found : get_deal (stored db2).id db2 ≡ some (stored db2)
unfolding garant.Base.Table.get accept_deal create_deal garant.Deposits.Invoice.get_currency_by_code
    garant.Money.is_unusable garant.Money.quantize_decimal garant.Deals.Escrow.debit
    garant.Wallet.lock_user_balance garant.Wallet.find_balance garant.Wallet.update_balance
    garant.Wallet.record_balance_ledger garant.Wallet.put_balance new_deal garant.Base.Table.put
accepted-found = refl

accepted-IsSound : IsSound db2
accepted-IsSound =
    accept_deal-IsSound 2000 deal1 2 db1 {db' = db2} created-IsSound created-found
      (ok-value db1 accepted accepted-ok)

abbrev finished : Result Error Db
finished = finish_deal 3000 (stored db2) 1 db2

finished-ok : is_ok finished ≡ true
unfolding finish_deal garant.Base.Table.get accept_deal create_deal
    garant.Deposits.Invoice.get_currency_by_code garant.Money.is_unusable
    garant.Money.quantize_decimal garant.Deals.Escrow.debit garant.Wallet.lock_user_balance
    garant.Wallet.find_balance garant.Wallet.update_balance garant.Wallet.record_balance_ledger
    garant.Wallet.put_balance new_deal garant.Base.Table.put
finished-ok = refl

finish_deal-Pays_example : Pays 2 (stored db2) db2 (value db2 finished)
unfolding garant.Base.Table.get accept_deal create_deal garant.Deposits.Invoice.get_currency_by_code
    garant.Money.is_unusable garant.Money.quantize_decimal garant.Deals.Escrow.debit
    garant.Wallet.lock_user_balance garant.Wallet.find_balance garant.Wallet.update_balance
    garant.Wallet.record_balance_ledger garant.Wallet.put_balance new_deal garant.Base.Table.put
finish_deal-Pays_example =
    finish_deal-Pays 3000 (stored db2) 1 db2 {db' = value db2 finished} accepted-IsSound
      accepted-found (ok-value db2 finished finished-ok)

Reaches-IsSound_example : IsSound (value db2 finished)
Reaches-IsSound_example =
    Reaches-IsSound config half_up half_up-IsExact start (value db2 finished) start-IsSound (
      steps db2 (value db2 finished)
        (steps db1 db2
          (steps start db1 stays (
            creates 1000 ann bob usdt (whole 40) cryptobot deal1 db1
              (ok-value (no_deal, start) created created-ok)))
          (accepts 2000 deal1 2 db2 created-found (ok-value db1 accepted accepted-ok)))
        (finishes 3000 (stored db2) 1 (value db2 finished) accepted-found
          (ok-value db2 finished finished-ok)))

abbrev requested : Result Error Db
requested = request_cancel 3000 (stored db2) 1 db2

abbrev db3 : Db
db3 = value db2 requested

requested-ok : is_ok requested ≡ true
unfolding request_cancel garant.Base.Table.get accept_deal create_deal
    garant.Deposits.Invoice.get_currency_by_code garant.Money.is_unusable
    garant.Money.quantize_decimal garant.Deals.Escrow.debit garant.Wallet.lock_user_balance
    garant.Wallet.find_balance garant.Wallet.update_balance garant.Wallet.record_balance_ledger
    garant.Wallet.put_balance new_deal garant.Base.Table.put
requested-ok = refl

requested-found : get_deal (stored db3).id db3 ≡ some (stored db3)
unfolding garant.Base.Table.get request_cancel accept_deal create_deal
    garant.Deposits.Invoice.get_currency_by_code garant.Money.is_unusable
    garant.Money.quantize_decimal garant.Deals.Escrow.debit garant.Wallet.lock_user_balance
    garant.Wallet.find_balance garant.Wallet.update_balance garant.Wallet.record_balance_ledger
    garant.Wallet.put_balance new_deal garant.Base.Table.put
requested-found = refl

requested-IsSound : IsSound db3
requested-IsSound =
    request_cancel-IsSound 3000 (stored db2) 1 db2 {db' = db3} accepted-IsSound accepted-found
      (ok-value db2 requested requested-ok)

abbrev both_agreed : Result Error Db
both_agreed = accept_cancel 4000 (stored db3) 2 db3

both_agreed-ok : is_ok both_agreed ≡ true
unfolding accept_cancel garant.Base.Table.get request_cancel accept_deal create_deal
    garant.Deposits.Invoice.get_currency_by_code garant.Money.is_unusable
    garant.Money.quantize_decimal garant.Deals.Escrow.debit garant.Wallet.lock_user_balance
    garant.Wallet.find_balance garant.Wallet.update_balance garant.Wallet.record_balance_ledger
    garant.Wallet.put_balance new_deal garant.Base.Table.put
both_agreed-ok = refl

accept_cancel-Pays_example : Pays 1 (stored db3) db3 (value db3 both_agreed)
unfolding garant.Base.Table.get request_cancel accept_deal create_deal
    garant.Deposits.Invoice.get_currency_by_code garant.Money.is_unusable
    garant.Money.quantize_decimal garant.Deals.Escrow.debit garant.Wallet.lock_user_balance
    garant.Wallet.find_balance garant.Wallet.update_balance garant.Wallet.record_balance_ledger
    garant.Wallet.put_balance new_deal garant.Base.Table.put
accept_cancel-Pays_example =
    accept_cancel-Pays 4000 (stored db3) 2 db3 {db' = value db3 both_agreed} requested-IsSound
      requested-found (ok-value db3 both_agreed both_agreed-ok)

abbrev disputed : Result Error Db
disputed = start_arbitration (stored db2) 1 usdt db2

abbrev db4 : Db
db4 = value db2 disputed

disputed-ok : is_ok disputed ≡ true
unfolding start_arbitration garant.Base.Table.get accept_deal create_deal
    garant.Deposits.Invoice.get_currency_by_code garant.Money.is_unusable
    garant.Money.quantize_decimal garant.Deals.Escrow.debit garant.Wallet.lock_user_balance
    garant.Wallet.find_balance garant.Wallet.update_balance garant.Wallet.record_balance_ledger
    garant.Wallet.put_balance new_deal garant.Base.Table.put garant.Base.Text.is_space
disputed-ok = refl

disputed-found : get_deal (stored db4).id db4 ≡ some (stored db4)
unfolding garant.Base.Table.get start_arbitration accept_deal create_deal
    garant.Deposits.Invoice.get_currency_by_code garant.Money.is_unusable
    garant.Money.quantize_decimal garant.Deals.Escrow.debit garant.Wallet.lock_user_balance
    garant.Wallet.find_balance garant.Wallet.update_balance garant.Wallet.record_balance_ledger
    garant.Wallet.put_balance new_deal garant.Base.Table.put garant.Base.Text.is_space
disputed-found = refl

disputed-IsSound : IsSound db4
disputed-IsSound =
    start_arbitration-IsSound (stored db2) 1 usdt db2 {db' = db4} accepted-IsSound accepted-found
      (ok-value db2 disputed disputed-ok)

abbrev resolved : Result Error Db
resolved = resolve_arbitration 5000 (stored db4) judge seller db4

resolved-ok : is_ok resolved ≡ true
unfolding resolve_arbitration garant.Base.Table.get start_arbitration accept_deal create_deal
    garant.Deposits.Invoice.get_currency_by_code garant.Money.is_unusable
    garant.Money.quantize_decimal garant.Deals.Escrow.debit garant.Wallet.lock_user_balance
    garant.Wallet.find_balance garant.Wallet.update_balance garant.Wallet.record_balance_ledger
    garant.Wallet.put_balance new_deal garant.Base.Table.put garant.Base.Text.is_space
resolved-ok = refl

resolve_arbitration-Pays_example : Pays 2 (stored db4) db4 (value db4 resolved)
unfolding garant.Base.Table.get start_arbitration accept_deal create_deal
    garant.Deposits.Invoice.get_currency_by_code garant.Money.is_unusable
    garant.Money.quantize_decimal garant.Deals.Escrow.debit garant.Wallet.lock_user_balance
    garant.Wallet.find_balance garant.Wallet.update_balance garant.Wallet.record_balance_ledger
    garant.Wallet.put_balance new_deal garant.Base.Table.put garant.Base.Text.is_space
resolve_arbitration-Pays_example =
    resolve_arbitration-Pays 5000 (stored db4) judge seller db4 {db' = value db4 resolved}
      disputed-IsSound disputed-found (ok-value db4 resolved resolved-ok)

sweep_inactivity-IsSound_example : IsSound (sweep_inactivity 260200 db1).1
sweep_inactivity-IsSound_example = sweep_inactivity-IsSound 260200 db1 created-IsSound

finished-IsSound : IsSound (value db2 finished)
finished-IsSound =
    finish_deal-IsSound 3000 (stored db2) 1 db2 {db' = value db2 finished} accepted-IsSound
      accepted-found (ok-value db2 finished finished-ok)

abbrev closed : Deal
closed = stored (value db2 finished)

closed-found : get_deal 1 (value db2 finished) ≡ some closed
unfolding finish_deal garant.Base.Table.get accept_deal create_deal
    garant.Deposits.Invoice.get_currency_by_code garant.Money.is_unusable
    garant.Money.quantize_decimal garant.Deals.Escrow.debit garant.Wallet.lock_user_balance
    garant.Wallet.find_balance garant.Wallet.update_balance garant.Wallet.record_balance_ledger
    garant.Wallet.put_balance new_deal garant.Base.Table.put
closed-found = refl

closed-over : is_terminal closed.status ≡ true
unfolding finish_deal garant.Base.Table.get accept_deal create_deal
    garant.Deposits.Invoice.get_currency_by_code garant.Money.is_unusable
    garant.Money.quantize_decimal garant.Deals.Escrow.debit garant.Wallet.lock_user_balance
    garant.Wallet.find_balance garant.Wallet.update_balance garant.Wallet.record_balance_ledger
    garant.Wallet.put_balance new_deal garant.Base.Table.put
closed-over = refl

Reaches-Evolves_example : Evolves db1.deals (value db2 finished).deals
Reaches-Evolves_example =
    Reaches-Evolves config half_up half_up-IsExact db1 (value db2 finished) created-IsSound (
      steps db2 (value db2 finished)
        (steps db1 db2 stays
          (accepts 2000 deal1 2 db2 created-found (ok-value db1 accepted accepted-ok)))
        (finishes 3000 (stored db2) 1 (value db2 finished) accepted-found
          (ok-value db2 finished finished-ok)))

terminal-forever_example :
    (d' : Deal) × (get_deal 1 (sweep_inactivity 900000 (value db2 finished)).1 ≡ some d')
    × SameTerms closed d'
    × (d'.status ≡ closed.status)
terminal-forever_example =
    terminal-forever config half_up half_up-IsExact (value db2 finished)
      (sweep_inactivity 900000 (value db2 finished)).1 1 closed finished-IsSound
      (steps (value db2 finished) (sweep_inactivity 900000 (value db2 finished)).1 stays
        (sweeps_inactivity 900000))
      closed-found closed-over
