-- ===== src/Withdrawals/Transfer/Whole.antt =====
-- With a whole number of units, each phase of `create_withdrawal`
-- (backend/app/services_wallet.py) is the one by a number of units.
use garant.Base.{
  ℕ, ◌+◌, ◌-◌, ◌≡◌, refl, sym, ap, subst, ◌∙◌, Bool, true, false, Option, none, some, arith, ok,
  err, Result, ◌>>=◌, Option-cases, Bool-cases, Result-cases, inl, inr,
}
use garant.Base.Text.{Text}
use garant.Wallet.{
  lock_user_balance, withdrawal_lock, withdrawal_sent, withdrawal_auto_failed_refund,
  from_withdrawal, find_balance,
}
use garant.Schema.{Db, User, Currency, Withdrawal, get_withdrawal}
use garant.Deposits.Invoice.{Config, get_currency_by_code}
use garant.Withdrawals.Address.{MatchReply, clean_address}
use garant.Withdrawals.Amount.{Column, whole, IsExact, plus, minus}
use garant.Withdrawals.Amount.Whole.{
  plus-whole, minus-whole, is_below-whole, exceeds-whole, update_decimal-whole,
  update_decimal_existing-whole,
}
use garant.Withdrawals.Request.{
  request_withdrawal, request_units, new_withdrawal, is_automatic, admin_exists,
}
use garant.Withdrawals.Request.Outcomes.{request_units-ok}
use garant.Withdrawals.Transfer.{
  TransferReply, failed, transferred, record_transfer, record_units, auto_refunded, units_refunded,
  refund_failed, refund_units, after_transfer, after_units, create_withdrawal, create_units,
}

module _ (column : Column) (exact : IsExact column) where
  pub request_withdrawal-whole :
      (config : Config) (match : MatchReply) (now : ℕ) (user : User) (wanted : Text) (x : ℕ)
      (raw : Option Text) (db : Db)
      → request_withdrawal column config match now user wanted (whole x) raw db
        ≡ request_units config match now user wanted x raw db
  unfolding request_withdrawal request_units clean_address is_automatic
      garant.Deposits.Invoice.is_cryptopay_configured lock_user_balance find_balance new_withdrawal
      garant.Withdrawals.Amount.update_decimal garant.Base.Table.put garant.Wallet.update_balance
  request_withdrawal-whole config match now user wanted x raw db =
      elim (Option-cases (get_currency_by_code wanted db)) [
        | inl missing ↦ rw missing refl
        | inr (cur, found) ↦
            let bal = (lock_user_balance user.id cur.id db.funds).0 in
            rw
              (
                found,
                is_below-whole column exact x cur.min_withdraw,
                exceeds-whole column exact x bal.amount,
                exact x,
                update_decimal-whole column exact user.id cur.id
                    (λ a l. (minus a (whole x), plus l (whole x))) (λ a l. (a - x, l + x))
                    withdrawal_lock (from_withdrawal db.next_withdrawal_id) db.funds
                    (λ a l.
                      ap (λ n. (n, plus l (whole x))) (minus-whole column exact a x)
                      ∙ ap (λ n. (whole (a - x), n)) (plus-whole column exact l x)),
              )
              refl
      ]

  module _ (now : ℕ) (user : User) where
    pub record_transfer-whole :
        (copy : Withdrawal) (db : Db)
        → record_transfer column now user (whole copy.amount) copy db
          ≡ record_units now user copy db
    unfolding record_transfer record_units
    record_transfer-whole copy db = elim (Option-cases (get_withdrawal copy.id db)) [
      | inl missing ↦ rw (record_transfer, record_units, missing) refl
      | inr (w, found) ↦
          rw
            (
              record_transfer,
              record_units,
              found,
              update_decimal_existing-whole column exact w.user_id w.currency_id
                  (λ a l. (whole a, minus l (whole copy.amount))) (λ a l. (a, l - copy.amount))
                  withdrawal_sent (from_withdrawal w.id) db.funds
                  (λ a l. ap (λ n. (whole a, n)) (minus-whole column exact l copy.amount)),
            )
            refl
    ]

    pub auto_refunded-whole :
        (cur : Currency) (x : ℕ) (w : Withdrawal) (db : Db)
        → auto_refunded column now user cur (whole x) w db ≡ units_refunded now user cur x w db
    unfolding auto_refunded units_refunded
    auto_refunded-whole cur x w db =
        rw
          (update_decimal-whole column exact user.id cur.id
            (λ a l. (plus a (whole x), minus l (whole x))) (λ a l. (a + x, l - x))
            withdrawal_auto_failed_refund (from_withdrawal w.id) db.funds
            (λ a l.
              ap (λ n. (n, minus l (whole x))) (plus-whole column exact a x)
              ∙ ap (λ n. (whole (a + x), n)) (minus-whole column exact l x)))
          refl

    pub refund_failed-whole :
        (cur : Currency) (copy : Withdrawal) (db : Db)
        → refund_failed column now user cur (whole copy.amount) copy db
          ≡ refund_units now user cur copy db
    unfolding refund_failed refund_units
    refund_failed-whole cur copy db = elim (Option-cases (get_withdrawal copy.id db)) [
      | inl missing ↦ rw (refund_failed, refund_units, missing) refl
      | inr (w, found) ↦ elim (Option-cases (find_balance user.id cur.id db.funds.balances)) [
        | inl gone ↦ rw (refund_failed, refund_units, found, gone) refl
        | inr (bal, there) ↦
            rw (refund_failed, refund_units, found, there)
              (ap some (auto_refunded-whole cur copy.amount w db))
      ]
    ]

    pub after_transfer-whole :
        (has_admin : Bool) (reply : TransferReply) (cur : Currency) (copy : Withdrawal) (db : Db)
        → after_transfer column has_admin reply now user cur (whole copy.amount) copy db
          ≡ after_units has_admin reply now user cur copy db
    unfolding after_transfer after_units
    after_transfer-whole has_admin transferred cur copy db = record_transfer-whole copy db
    after_transfer-whole true failed cur copy db = refl
    after_transfer-whole false failed cur copy db =
        rw (after_transfer, after_units, refund_failed-whole cur copy db) refl

  pub create_withdrawal-whole :
      (config : Config) (match : MatchReply) (reply : TransferReply) (meanwhile : Db → Db)
      (now later : ℕ) (user : User) (wanted : Text) (x : ℕ) (raw : Option Text) (db : Db)
      → create_withdrawal column config match reply meanwhile now later user wanted (whole x) raw db
        ≡ create_units config match reply meanwhile now later user wanted x raw db
  unfolding create_withdrawal create_units new_withdrawal
  create_withdrawal-whole config match reply meanwhile now later user wanted x raw db =
      elim (Result-cases (request_units config match now user wanted x raw db)) [
        | inl (e, bad) ↦
            rw (request_withdrawal-whole config match now user wanted x raw db, bad) refl
        | inr ((cur, w, db1), good) ↦
            let (_, _, _, _, _, we, _) =
              request_units-ok config match now user wanted x raw db cur w db1 good in
            let worth : x ≡ w.amount = sym (ap (λ (v : Withdrawal). v.amount) we) in
            rw (request_withdrawal-whole config match now user wanted x raw db, good)
              (rw
                (
                  worth,
                  after_transfer-whole later user (admin_exists db.users) reply cur w
                      (meanwhile db1),
                )
                refl)
      ]
