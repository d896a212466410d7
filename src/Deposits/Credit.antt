-- ===== src/Deposits/Credit.antt =====
-- `credit_deposit`, `_build_expired_notification`, `sweep_expired_deposits`,
-- `_lock_and_credit_deposit` and `_lock_and_expire_deposit` of backend/app/services_wallet.py.
-- The reported amount is a number of units.
use garant.Base.{
  ℕ, ◌+◌, ◌&&◌, Option, none, some, List, [], ◌∷◌, leb, ◌==◌, if◌then◌else◌, Result, ok, ◌>>=◌,
  or_raise,
}
use garant.Base.Table.{select}
use garant.Money.{quantize_money}
use garant.Wallet.{
  update_balance, record_synthetic_ledger, deposit_wallet_credit, deposit_trust_credit,
  from_deposit,
}
use garant.Schema.{
  Db, Deposit, DepositStatus, Purpose, wallet, trust, deal_topup, Error, user_vanished, not_found,
  get_user, get_deposit, get_currency, put_user, put_deposit, with_funds, notify, deposits,
  about_deposit,
}
use garant.Deals.Create.{max}
use garant.Deals.Topup.{complete_deal_topup_payment, is_paid, is_pending, or_else}
use garant.Deposits.Invoice.{Config, InvoiceReply}

-- `currency.decimals if currency is not None else 8`
abbrev pub decimals_of : ℕ → Db → ℕ
decimals_of currency_id db = elim (get_currency currency_id db) [ some c ↦ c.decimals | none ↦ 8 ]

abbrev pub quantize_opt : Option ℕ → ℕ → Option ℕ
quantize_opt none d = none
quantize_opt (some x) d = some (quantize_money x d)

-- The nominal amount, or the reported one where it is larger.
unfoldable pub credit_amount_of : Deposit → Option ℕ → ℕ → ℕ
credit_amount_of deposit none d = quantize_money deposit.amount d
credit_amount_of deposit (some reported) d =
    max (quantize_money deposit.amount d) (quantize_money reported d)

abbrev pub credited_row : ℕ → ℕ → Option ℕ → Deposit → Deposit
credited_row now credit reported deposit = record deposit {
  amount = credit;
  paid_amount = or_else reported deposit.paid_amount;
  status = DepositStatus.paid;
  paid_at = some now;
}

-- The notification, which needs the currency.
unfoldable pub tell_if_priced : Deposit → Db → Db
tell_if_priced deposit db = elim (get_currency deposit.currency_id db) [
  | some _ ↦ notify deposit.user_id deposits (about_deposit deposit.id) db
  | none ↦ db
]

-- The branch of `purpose == "trust"`
unfoldable pub credit_trust : ℕ → ℕ → Option ℕ → Deposit → Db → Result Error Db
credit_trust now credit reported deposit db = do
  user ← or_raise (get_user deposit.user_id db) user_vanished
  let before = user.trust_deposit_balance
  let funds =
      record_synthetic_ledger user.id deposit.currency_id before (before + credit)
        deposit_trust_credit (from_deposit deposit.id) db.funds
  let db1 = put_user (record user { trust_deposit_balance = before + credit }) (with_funds funds db)
  ok (put_deposit (credited_row now credit reported deposit) db1)

-- The branch of a wallet deposit
unfoldable pub credit_wallet : ℕ → ℕ → Option ℕ → Deposit → Db → Db
credit_wallet now credit reported deposit db =
    let funds =
      update_balance deposit.user_id deposit.currency_id (λ a l. (a + credit, l))
        deposit_wallet_credit (from_deposit deposit.id) db.funds in
    put_deposit (credited_row now credit reported deposit) (with_funds funds db)

unfoldable pub credit_by_purpose :
    Purpose → Config → InvoiceReply → ℕ → Option ℕ → Deposit → Db → Result Error Db
credit_by_purpose deal_topup config reply now paid_amount deposit db =
    complete_deal_topup_payment config reply now paid_amount deposit db
credit_by_purpose trust config reply now paid_amount deposit db = do
  let d = decimals_of deposit.currency_id db
  db1 ←
      credit_trust now (credit_amount_of deposit paid_amount d) (quantize_opt paid_amount d) deposit
        db
  ok (tell_if_priced deposit db1)
credit_by_purpose wallet config reply now paid_amount deposit db =
    let d = decimals_of deposit.currency_id db in
    ok (
      tell_if_priced deposit (
        credit_wallet now (credit_amount_of deposit paid_amount d) (quantize_opt paid_amount d)
          deposit db))

unfoldable pub credit_deposit :
    Config → InvoiceReply → ℕ → Option ℕ → Deposit → Db → Result Error Db
credit_deposit config reply now paid_amount deposit db =
    if is_paid deposit.status
    then ok db
    else credit_by_purpose deposit.purpose config reply now paid_amount deposit db

-- A deposit is closed unpaid, and the user is told.
unfoldable pub expire_deposit : Deposit → Db → Db
expire_deposit deposit db =
    tell_if_priced deposit (put_deposit (record deposit { status = DepositStatus.expired }) db)

unfoldable pub expire_all : List Deposit → Db → ℕ × Db
expire_all [] db = (0, db)
expire_all (row ∷ rows) db =
    let (rest, db') = expire_all rows (expire_deposit row db) in (1 + rest, db')

unfoldable pub sweep_expired_deposits : Config → ℕ → Db → ℕ × Db
unfolding select
sweep_expired_deposits config now db =
    let expiry_seconds = config.wallet_deposit_expiry_seconds in
    if expiry_seconds == 0
    then (0, db)
    else expire_all
        (select
          (λ (row : Deposit). is_pending row.status && leb (row.created_at + expiry_seconds) now)
          db.deposits)
        db

-- Both re-read the row under its lock.
unfoldable pub lock_and_credit_deposit : Config → InvoiceReply → ℕ → ℕ → Db → Result Error Db
lock_and_credit_deposit config reply now deposit_id db = do
  locked ← or_raise (get_deposit deposit_id db) not_found
  if is_pending locked.status then credit_deposit config reply now none locked db else ok db

unfoldable pub lock_and_expire_deposit : ℕ → Db → Result Error Db
lock_and_expire_deposit deposit_id db = do
  locked ← or_raise (get_deposit deposit_id db) not_found
  if is_pending locked.status then ok (expire_deposit locked db) else ok db
