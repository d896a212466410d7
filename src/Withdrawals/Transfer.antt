-- ===== src/Withdrawals/Transfer.antt =====
-- What follows the call of CryptoBot in `create_withdrawal` (backend/app/services_wallet.py). The
-- call holds no lock, so other transactions may have committed since the first phase; the answer
-- of CryptoBot and what those transactions did are parameters.
pub mod Whole
use garant.Base.{
  ℕ, ◌+◌, ◌-◌, Bool, true, false, Option, none, some, List, [], ◌∷◌, if◌then◌else◌, Result, ok,
  ◌>>=◌,
}
use garant.Base.Table.{select}
use garant.Base.Text.{Text}
use garant.Wallet.{
  find_balance, update_balance, withdrawal_sent, withdrawal_auto_failed_refund, from_withdrawal,
}
use garant.Schema.{
  Db, User, Currency, Withdrawal, WithdrawStatus, Error, get_withdrawal, put_withdrawal, with_funds,
  notify, deposits, system, about_withdrawal,
}
use garant.Deposits.Invoice.{Config}
use garant.Withdrawals.Address.{MatchReply}
use garant.Withdrawals.Amount.{
  Amount, Column, whole, plus, minus, update_decimal, update_decimal_existing,
}
use garant.Withdrawals.Balance.{update_existing}
use garant.Withdrawals.Request.{admin_exists, is_automatic, request_withdrawal, request_units}

pub data TransferReply : Type 0 where
  failed transferred : TransferReply

abbrev pub is_pending : WithdrawStatus → Bool
is_pending WithdrawStatus.pending = true
is_pending _ = false

abbrev pub decided : ℕ → WithdrawStatus → Withdrawal → Withdrawal
decided now status w = record w { status = status; processed_at = some now }

-- The last phase after a transfer that went through.
unfoldable pub record_transfer : Column → ℕ → User → Amount → Withdrawal → Db → Db
record_transfer column now user amount withdrawal db = elim (get_withdrawal withdrawal.id db) [
  | none ↦ db
  | some locked ↦
      if is_pending locked.status
      then (let funds =
            update_decimal_existing column locked.user_id locked.currency_id
              (λ a l. (whole a, minus l amount)) withdrawal_sent (from_withdrawal locked.id)
              db.funds in
          notify user.id deposits (about_withdrawal locked.id)
            (put_withdrawal (decided now WithdrawStatus.sent locked) (with_funds funds db)))
      else db
]

-- The balance and the row where the transfer failed and no admin exists.
unfoldable pub auto_refunded : Column → ℕ → User → Currency → Amount → Withdrawal → Db → Db
auto_refunded column now user currency amount locked db =
    let funds =
      update_decimal column user.id currency.id (λ a l. (plus a amount, minus l amount))
        withdrawal_auto_failed_refund (from_withdrawal locked.id) db.funds in
    notify user.id deposits (about_withdrawal locked.id)
      (put_withdrawal (decided now WithdrawStatus.rejected locked) (with_funds funds db))

-- The refund is made where both rows are found; the status is not read again.
unfoldable pub refund_failed : Column → ℕ → User → Currency → Amount → Withdrawal → Db → Option Db
refund_failed column now user currency amount withdrawal db =
    elim (get_withdrawal withdrawal.id db) [
      | none ↦ none
      | some locked ↦ elim (find_balance user.id currency.id db.funds.balances) [
        | none ↦ none
        | some _ ↦ some (auto_refunded column now user currency amount locked db)
      ]
    ]

-- The loop over the admins.
unfoldable pub tell_all : ℕ → List User → Db → Db
tell_all withdrawal_id [] db = db
tell_all withdrawal_id (admin ∷ admins) db =
    tell_all withdrawal_id admins (notify admin.id system (about_withdrawal withdrawal_id) db)

unfoldable pub queue_for_admins : Withdrawal → Db → Db
unfolding select
queue_for_admins withdrawal db =
    tell_all withdrawal.id (select (λ (u : User). u.is_admin) db.users) db

-- What is done with the answer. `has_admin` was read in the first phase.
unfoldable pub after_transfer :
    Column → Bool → TransferReply → ℕ → User → Currency → Amount → Withdrawal → Db → Db
after_transfer column has_admin transferred now user currency amount withdrawal db =
    record_transfer column now user amount withdrawal db
after_transfer column true failed now user currency amount withdrawal db =
    queue_for_admins withdrawal db
after_transfer column false failed now user currency amount withdrawal db =
    elim (refund_failed column now user currency amount withdrawal db) [
      | some refunded ↦ refunded
      | none ↦ queue_for_admins withdrawal db
    ]

-- `meanwhile` is what other transactions commit during the call.
unfoldable pub create_withdrawal :
    Column
    → Config
    → MatchReply
    → TransferReply
    → (Db → Db)
    → ℕ
    → ℕ
    → User
    → Text
    → Amount
    → Option Text
    → Db
    → Result Error (Withdrawal × Db)
create_withdrawal column config match reply meanwhile now later user wanted amount raw_address db =
    do
      (currency, withdrawal, db1) ←
          request_withdrawal column config match now user wanted amount raw_address db
      if is_automatic config db
          then ok (
            withdrawal,
            after_transfer column (admin_exists db.users) reply later user currency amount
                withdrawal (meanwhile db1),
          )
          else ok (withdrawal, queue_for_admins withdrawal db1)

-- The same for a whole number of units, which is the amount of the process's copy.
unfoldable pub record_units : ℕ → User → Withdrawal → Db → Db
record_units now user withdrawal db = elim (get_withdrawal withdrawal.id db) [
  | none ↦ db
  | some locked ↦
      if is_pending locked.status
      then (let funds =
            update_existing locked.user_id locked.currency_id (λ a l. (a, l - withdrawal.amount))
              withdrawal_sent (from_withdrawal locked.id) db.funds in
          notify user.id deposits (about_withdrawal locked.id)
            (put_withdrawal (decided now WithdrawStatus.sent locked) (with_funds funds db)))
      else db
]

unfoldable pub units_refunded : ℕ → User → Currency → ℕ → Withdrawal → Db → Db
units_refunded now user currency amount locked db =
    let funds =
      update_balance user.id currency.id (λ a l. (a + amount, l - amount))
        withdrawal_auto_failed_refund (from_withdrawal locked.id) db.funds in
    notify user.id deposits (about_withdrawal locked.id)
      (put_withdrawal (decided now WithdrawStatus.rejected locked) (with_funds funds db))

unfoldable pub refund_units : ℕ → User → Currency → Withdrawal → Db → Option Db
refund_units now user currency withdrawal db = elim (get_withdrawal withdrawal.id db) [
  | none ↦ none
  | some locked ↦ elim (find_balance user.id currency.id db.funds.balances) [
    | none ↦ none
    | some _ ↦ some (units_refunded now user currency withdrawal.amount locked db)
  ]
]

unfoldable pub after_units : Bool → TransferReply → ℕ → User → Currency → Withdrawal → Db → Db
after_units has_admin transferred now user currency withdrawal db =
    record_units now user withdrawal db
after_units true failed now user currency withdrawal db = queue_for_admins withdrawal db
after_units false failed now user currency withdrawal db =
    elim (refund_units now user currency withdrawal db) [
      | some refunded ↦ refunded
      | none ↦ queue_for_admins withdrawal db
    ]

unfoldable pub create_units :
    Config
    → MatchReply
    → TransferReply
    → (Db → Db)
    → ℕ
    → ℕ
    → User
    → Text
    → ℕ
    → Option Text
    → Db
    → Result Error (Withdrawal × Db)
create_units config match reply meanwhile now later user wanted amount raw_address db = do
  (currency, withdrawal, db1) ← request_units config match now user wanted amount raw_address db
  if is_automatic config db
      then ok (
        withdrawal,
        after_units (admin_exists db.users) reply later user currency withdrawal (meanwhile db1),
      )
      else ok (withdrawal, queue_for_admins withdrawal db1)
