-- ===== src/Withdrawals/Request.antt =====
-- The first phase of `create_withdrawal` (backend/app/services_wallet.py): the checks, the lock of
-- the funds, and the pending row, committed before CryptoBot is called.
pub mod Outcomes
use garant.Base.{
  ℕ, ◌+◌, ◌-◌, Bool, true, false, not, ◌&&◌, ◌||◌, Option, none, some, List, [], ◌∷◌, ltb, ◌==◌,
  if◌then◌else◌, Result, ok, err, ◌>>=◌, ◌>>◌, raise_if, or_raise,
}
use garant.Base.Text.{Text}
use garant.Wallet.{lock_user_balance, update_balance, amount_of, withdrawal_lock, from_withdrawal}
use garant.Schema.{
  Db, User, Currency, Withdrawal, WithdrawStatus, Error, currency_unsupported, below_minimum,
  bad_address, no_delivery_path, balance_too_small, put_withdrawal, with_funds,
}
use garant.Deposits.Invoice.{Config, get_currency_by_code, is_cryptopay_configured}
use garant.Withdrawals.Amount.{Amount, Column, is_below, exceeds, plus, minus, update_decimal}
use garant.Withdrawals.Address.{MatchReply, clean_address, is_refused}

-- `select(User.id).where(User.is_admin.is_(True)).limit(1)`
abbrev pub admin_exists : List User → Bool
admin_exists [] = false
admin_exists (u ∷ us) = u.is_admin || admin_exists us

-- Automatic mode: CryptoBot is configured and the setting is on.
unfoldable pub is_automatic : Config → Db → Bool
is_automatic config db =
    is_cryptopay_configured config.cryptobot_token && db.settings.auto_withdraw_enabled

abbrev pub insert_withdrawal : Withdrawal → Db → Db
insert_withdrawal w db =
    put_withdrawal w (record db { next_withdrawal_id = db.next_withdrawal_id + 1 })

unfoldable pub new_withdrawal : ℕ → User → Currency → ℕ → Option Text → Db → Withdrawal
new_withdrawal now user currency amount address db = record {
  id = db.next_withdrawal_id;
  user_id = user.id;
  currency_id = currency.id;
  amount = amount;
  address = address;
  status = WithdrawStatus.pending;
  created_at = now;
  processed_at = none;
}

unfoldable pub request_withdrawal :
    Column
    → Config
    → MatchReply
    → ℕ
    → User
    → Text
    → Amount
    → Option Text
    → Db
    → Result Error (Currency × Withdrawal × Db)
request_withdrawal column config reply now user wanted amount raw_address db = do
  currency ← or_raise (get_currency_by_code wanted db) currency_unsupported
  raise_if (is_below amount currency.min_withdraw) below_minimum
  let address = clean_address raw_address
  raise_if (is_refused currency.has_address_regex reply address) bad_address
  raise_if (not (is_automatic config db) && not (admin_exists db.users)) no_delivery_path
  let bal = (lock_user_balance user.id currency.id db.funds).0
  raise_if (exceeds amount bal.amount) balance_too_small
  let withdrawal = new_withdrawal now user currency (column amount) address db
  let funds =
      update_decimal column user.id currency.id (λ a l. (minus a amount, plus l amount))
        withdrawal_lock (from_withdrawal withdrawal.id) db.funds
  ok (currency, withdrawal, insert_withdrawal withdrawal (with_funds funds db))

-- The same for a whole number of units.
unfoldable pub request_units :
    Config
    → MatchReply
    → ℕ
    → User
    → Text
    → ℕ
    → Option Text
    → Db
    → Result Error (Currency × Withdrawal × Db)
request_units config reply now user wanted amount raw_address db = do
  currency ← or_raise (get_currency_by_code wanted db) currency_unsupported
  raise_if (ltb amount currency.min_withdraw) below_minimum
  let address = clean_address raw_address
  raise_if (is_refused currency.has_address_regex reply address) bad_address
  raise_if (not (is_automatic config db) && not (admin_exists db.users)) no_delivery_path
  let bal = (lock_user_balance user.id currency.id db.funds).0
  raise_if (ltb bal.amount amount) balance_too_small
  let withdrawal = new_withdrawal now user currency amount address db
  let funds =
      update_balance user.id currency.id (λ a l. (a - amount, l + amount)) withdrawal_lock
        (from_withdrawal withdrawal.id) db.funds
  ok (currency, withdrawal, insert_withdrawal withdrawal (with_funds funds db))
