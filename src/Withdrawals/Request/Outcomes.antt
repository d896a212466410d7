-- ===== src/Withdrawals/Request/Outcomes.antt =====
-- What `create_withdrawal` has checked where its first phase succeeds
-- (backend/app/services_wallet.py).
use garant.Base.{
  ℕ, ◌+◌, ◌-◌, ◌≤◌, ◌≡◌, true, false, ◌||◌, Option, some, arith, ok, Option-cases, inl, inr,
}
use garant.Base.Text.{Text}
use garant.Wallet.{Wallet, update_balance, amount_of, withdrawal_lock, from_withdrawal}
use garant.Wallet.Rows.{lock_user_balance-row}
use garant.Schema.{Db, User, Currency, Withdrawal, with_funds}
use garant.Deposits.Invoice.{Config, get_currency_by_code}
use garant.Withdrawals.Address.{MatchReply, clean_address, is_refused}
use garant.Withdrawals.Request.{
  request_units, new_withdrawal, insert_withdrawal, is_automatic, admin_exists,
}

-- The wallet with the funds of the withdrawal locked.
abbrev pub locked_for : User → Currency → ℕ → Db → Wallet
locked_for user cur amount db =
    update_balance user.id cur.id (λ a l. (a - amount, l + amount)) withdrawal_lock
      (from_withdrawal db.next_withdrawal_id) db.funds

module _ (config : Config) (reply : MatchReply) (now : ℕ) (user : User) (wanted : Text) (amount : ℕ)
    (raw : Option Text) (db : Db) where
  pub request_units-ok :
      (cur : Currency) (w : Withdrawal) (db' : Db)
      → request_units config reply now user wanted amount raw db ≡ ok (cur, w, db')
      → (get_currency_by_code wanted db ≡ some cur)
        × (cur.min_withdraw ≤ amount)
        × (amount ≤ amount_of user.id cur.id db.funds)
        × (is_refused cur.has_address_regex reply (clean_address raw) ≡ false)
        × (is_automatic config db || admin_exists db.users ≡ true)
        × (w ≡ new_withdrawal now user cur amount (clean_address raw) db)
        × (db' ≡ insert_withdrawal w (with_funds (locked_for user cur amount db) db))
  unfolding request_units new_withdrawal
  request_units-ok cur w db' h = elim (Option-cases (get_currency_by_code wanted db)) [
    | inl missing ↦ absurd (ground arith)
    | inr (c, found) ↦ ground (arith, lock_user_balance-row user.id c.id db.funds)
  ]
