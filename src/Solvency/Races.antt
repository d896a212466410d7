-- ===== src/Solvency/Races.antt =====
-- What two settlements of one withdrawal do (backend/app/services_wallet.py and
-- backend/app/routers/admin/withdrawals.py).
use garant.Base.{
  ℕ, ◌+◌, ◌-◌, ◌≤◌, ◌<◌, ◌≡◌, refl, sym, ◌∙◌, ap, subst, true, false, some, arith, Bool-cases, inl,
  inr, ltb, ◌==◌, ◌&&◌, if◌then◌else◌,
}
use garant.Base.Table.{get-put, get-key}
use garant.Wallet.{
  amount_of, locked_of, withdrawal_sent, withdrawal_auto_failed_refund, from_withdrawal,
}
use garant.Wallet.Rows.{locked_of-update_balance}
use garant.Wallet.Total.{total, total-update_balance}
use garant.Schema.{
  Db, User, Currency, Withdrawal, WithdrawStatus, get_withdrawal, get_currency, get_user,
  withdrawal_key,
}
use garant.Deposits.Invoice.{Config, is_cryptopay_configured}
use garant.Withdrawals.Effect.{locked_of-update_existing, amount_of-update_existing}
use garant.Withdrawals.Amount.{Column, whole, IsExact}
use garant.Withdrawals.Transfer.Whole.{refund_failed-whole}
use garant.Withdrawals.Transfer.{
  TransferReply, transferred, is_pending, decided, refund_failed, units_refunded,
}
use garant.Withdrawals.Decide.{
  reject, approve, done, state_of, taken, approved, send, give_back, finish_approval,
  approve_withdrawal, decide, decide_withdrawal,
}
use garant.Solvency.{IsSound, IsBacked, is_open}
use garant.Solvency.Claims.{share-put, same_claim}
use garant.Solvency.WithdrawSteps.{stored_row, give_back-IsSound, approved-IsSound, pending-open}
use garant.Solvency.DecideSteps.{refund_units-ok}
use garant.Solvency.WithdrawFunds.{Returns, EndsAs, give_back-Returns}

-- The owner has the amount back, has it taken from the locked part twice, and the row ends sent;
-- where as much is locked for something else, that is no longer backed.
abbrev pub SettledTwice : Withdrawal → Db → Db → Type 0
SettledTwice w db db' =
    (amount_of w.user_id w.currency_id db'.funds
      ≡ amount_of w.user_id w.currency_id db.funds + w.amount)
    × (locked_of w.user_id w.currency_id db'.funds
        ≡ locked_of w.user_id w.currency_id db.funds - w.amount - w.amount)
    × EndsAs WithdrawStatus.sent w db'
    × (0 < w.amount
        → w.amount + w.amount ≤ locked_of w.user_id w.currency_id db.funds
        → ¬ IsBacked db')

module _ (config : Config) (reply : TransferReply) (now later k : ℕ) (w : Withdrawal)
    (cur : Currency) (u : User) (db : Db) (s : IsSound db) (found : get_withdrawal k db ≡ some w)
    (priced : get_currency w.currency_id db ≡ some cur) (known : get_user w.user_id db ≡ some u)
    (waiting : is_pending w.status ≡ true) where
  key : w.id ≡ k
  key = get-key withdrawal_key k w db.withdrawals found

  taken-found : get_withdrawal k (approved w db) ≡ some (taken w)
  taken-found = ground (arith, key, get-put withdrawal_key k (taken w) db.withdrawals)

  -- The state that the rejection commits, and the row in it.
  abbrev refunded : Db
  refunded = give_back later (taken w) (approved w db)

  abbrev refused : Withdrawal
  refused = decided later WithdrawStatus.rejected (taken w)

  rejected_meanwhile :
      decide_withdrawal reject config reply (λ x. x) later k (approved w db) ≡ done refunded
  unfolding decide_withdrawal decide
  rejected_meanwhile = rw (decide_withdrawal, taken-found, priced, known)

  refused-found : get_withdrawal w.id refunded ≡ some refused
  unfolding give_back
  refused-found = ground (arith, get-put withdrawal_key w.id refused (approved w db).withdrawals)

  sent_again : finish_approval now (taken w) refunded ≡ done (send now refused refunded)
  unfolding finish_approval
  sent_again = rw (finish_approval, refused-found)

  approved-sound : IsSound (approved w db)
  approved-sound =
      approved-IsSound now w db (stored_row k w db found) (pending-open w.status waiting) s

  refunded-sound : IsSound refunded
  refunded-sound =
      give_back-IsSound later (taken w) (approved w db)
        (stored_row k (taken w) (approved w db) taken-found) refl approved-sound

  refunded-Returns : Returns w db refunded
  refunded-Returns =
      give_back-Returns later (taken w) (approved w db) approved-sound
        (stored_row k (taken w) (approved w db) taken-found) refl

  sent_again-locked :
      (u c : ℕ)
      → locked_of u c (send now refused refunded).funds ≡ (
          if w.user_id == u && w.currency_id == c
          then locked_of u c refunded.funds - w.amount
          else locked_of u c refunded.funds)
  unfolding send
  sent_again-locked u c = ground (
    arith,
    locked_of-update_existing w.user_id w.currency_id (λ a l. (a, l - w.amount)) withdrawal_sent
        (from_withdrawal w.id) refunded.funds u c (omega arith),
  )

  sent_again-amount :
      amount_of w.user_id w.currency_id (send now refused refunded).funds
      ≡ amount_of w.user_id w.currency_id refunded.funds
  unfolding send
  sent_again-amount = ground (
    arith,
    amount_of-update_existing w.user_id w.currency_id (λ a l. (a, l - w.amount)) withdrawal_sent
        (from_withdrawal w.id) refunded.funds w.user_id w.currency_id (λ _. refl),
  )

  sent_again-unbacked :
      0 < w.amount
      → w.amount + w.amount ≤ locked_of w.user_id w.currency_id db.funds
      → ¬ IsBacked (send now refused refunded)
  unfolding send
  sent_again-unbacked positive others b = ground (
    arith,
    b w.user_id w.currency_id,
    refunded-sound.backed w.user_id w.currency_id,
    sent_again-locked w.user_id w.currency_id,
    refunded-Returns.1,
    share-put refunded refused refused-found (decided now WithdrawStatus.sent refused)
        (same_claim refused) w.user_id w.currency_id,
  )

  sent_again-EndsAs : EndsAs WithdrawStatus.sent w (send now refused refunded)
  unfolding send
  sent_again-EndsAs = (
    decided now WithdrawStatus.sent refused,
    ground (
      arith,
      get-put withdrawal_key w.id (decided now WithdrawStatus.sent refused) refunded.withdrawals,
    ),
    refl,
  )

  -- In a sound database, where one admin approves a pending withdrawal with CryptoBot
  -- configured and another admin rejects it during the transfer, which goes through, the
  -- approval is done: the owner has the amount back, it is taken from the owner's locked part
  -- twice, as far as that part goes, and the row ends sent; where the amount is positive and
  -- as much is locked for something else, the locked funds are no longer backed.
  pub approve-reject-race :
      is_cryptopay_configured config.cryptobot_token ≡ true
      → (db' : Db) × (decide_withdrawal approve config transferred
            (λ x. state_of (decide_withdrawal reject config reply (λ y. y) later k x))
            now
            k
            db
          ≡ done db')
        × SettledTwice w db db'
  unfolding decide_withdrawal decide approve_withdrawal
  approve-reject-race on = (
    send now refused refunded,
    rw
        (
          decide_withdrawal, found, priced, known, decide, waiting, approve_withdrawal, on,
          rejected_meanwhile,
        )
        sent_again,
    (
      ground (arith, sent_again-amount, refunded-Returns.0),
      ground (arith, sent_again-locked w.user_id w.currency_id, refunded-Returns.1),
      sent_again-EndsAs,
      sent_again-unbacked,
    ),
  )

module _ (now : ℕ) (user : User) (cur : Currency) (copy w : Withdrawal) (db db' : Db)
    (s : IsSound db) (found : get_withdrawal copy.id db ≡ some w)
    (over : is_open w.status ≡ false) where
  refunded_twice-total :
      locked_of user.id cur.id db.funds < copy.amount
      → total cur.id db.funds < total cur.id (units_refunded now user cur copy.amount w db).funds
  unfolding units_refunded
  refunded_twice-total short = ground (
    arith,
    total-update_balance cur.id user.id cur.id (λ a l. (a + copy.amount, l - copy.amount))
        withdrawal_auto_failed_refund (from_withdrawal w.id) db.funds,
  )

  refunded_twice-locked :
      0 < copy.amount
      → copy.amount ≤ locked_of user.id cur.id db.funds
      → ¬ IsBacked (units_refunded now user cur copy.amount w db)
  unfolding units_refunded
  refunded_twice-locked positive enough b = ground (
    arith,
    b user.id cur.id,
    s.backed user.id cur.id,
    locked_of-update_balance user.id cur.id (λ a l. (a + copy.amount, l - copy.amount))
        withdrawal_auto_failed_refund (from_withdrawal w.id) db.funds user.id cur.id,
    share-put db w (stored_row copy.id w db found) (decided now WithdrawStatus.rejected w)
        (same_claim w) user.id cur.id,
    over,
  )

  -- In a sound database, the refund after a failed transfer of a whole number of units, which
  -- the columns store as it is, done on a withdrawal that is sent or rejected already and of a
  -- positive amount, leaves locked funds that are not backed or changes the total of the
  -- currency.
  pub refund_failed-twice :
      (column : Column) (exact : IsExact column)
      → user.id ≡ copy.user_id
      → cur.id ≡ copy.currency_id
      → 0 < copy.amount
      → refund_failed column now user cur (whole copy.amount) copy db ≡ some db'
      → ¬ (IsBacked db' × (total cur.id db'.funds ≡ total cur.id db.funds))
  refund_failed-twice column exact owner priced positive h (b, t) =
      let (x, there, e) =
        refund_units-ok now user cur copy db db' owner priced
          (sym (refund_failed-whole column exact now user cur copy db) ∙ h) in
      let same : x ≡ w = ground arith in
      let last : units_refunded now user cur copy.amount w db ≡ db' =
        subst (λ (y : Withdrawal). units_refunded now user cur copy.amount y db ≡ db') same e in
      elim (Bool-cases (ltb (locked_of user.id cur.id db.funds) copy.amount)) [
        | inl short ↦ absurd (
            ground (
              arith,
              refunded_twice-total (ground arith),
              ap (λ (y : Db). total cur.id y.funds) last,
              t,
            ))
        | inr enough ↦ refunded_twice-locked positive (ground arith) (subst IsBacked (sym last) b)
      ]
