-- ===== src/Withdrawals/Decide.antt =====
-- `decide_withdrawal` of backend/app/routers/admin/withdrawals.py: approve, reject and mark_sent.
-- Approval commits, calls CryptoBot with no lock held, and locks the row again. An outcome is a
-- state that is committed together with the exception, if one follows. Admin notes and the audit
-- log are left out.
use garant.Base.{ℕ, ◌+◌, ◌-◌, Bool, true, false, ◌||◌, none, some, if◌then◌else◌}
use garant.Wallet.{withdrawal_sent, withdrawal_reject, from_withdrawal}
use garant.Schema.{
  Db, Withdrawal, WithdrawStatus, Error, not_found, already_processed, not_approved,
  provider_failed, get_withdrawal, get_currency, get_user, put_withdrawal, with_funds, notify,
  deposits, about_withdrawal,
}
use garant.Deposits.Invoice.{Config, is_cryptopay_configured}
use garant.Withdrawals.Balance.{update_existing}
use garant.Withdrawals.Transfer.{TransferReply, failed, transferred, is_pending, decided}

pub data Action : Type 0 where
  approve reject mark_sent : Action

abbrev pub is_approved : WithdrawStatus → Bool
is_approved WithdrawStatus.approved = true
is_approved _ = false

abbrev pub is_sent : WithdrawStatus → Bool
is_sent WithdrawStatus.sent = true
is_sent _ = false

-- What is committed, and the exception that is raised after it.
pub data Outcome : Type 0 where
  done : Db → Outcome
  raised : Error → Db → Outcome

abbrev pub state_of : Outcome → Db
state_of (done db) = db
state_of (raised _ db) = db

-- The balance and the row of a withdrawal that left.
unfoldable pub send : ℕ → Withdrawal → Db → Db
send now w db =
    let funds =
      update_existing w.user_id w.currency_id (λ a l. (a, l - w.amount)) withdrawal_sent
        (from_withdrawal w.id) db.funds in
    notify w.user_id deposits (about_withdrawal w.id)
      (put_withdrawal (decided now WithdrawStatus.sent w) (with_funds funds db))

-- The balance and the row of a withdrawal that is refused.
unfoldable pub give_back : ℕ → Withdrawal → Db → Db
give_back now w db =
    let funds =
      update_existing w.user_id w.currency_id (λ a l. (a + w.amount, l - w.amount))
        withdrawal_reject (from_withdrawal w.id) db.funds in
    notify w.user_id deposits (about_withdrawal w.id)
      (put_withdrawal (decided now WithdrawStatus.rejected w) (with_funds funds db))

abbrev pub taken : Withdrawal → Withdrawal
taken w = record w { status = WithdrawStatus.approved }

abbrev pub approved : Withdrawal → Db → Db
approved w db = put_withdrawal (taken w) db

-- The third phase of an approval. `seen` is the row as the session holds it: the SELECT takes the
-- lock, but without `populate_existing`, and after a commit that expires nothing, it leaves the
-- loaded object as it is, so the status that is tested is the one of `seen`. The other columns that
-- are read never change after the insertion.
unfoldable pub finish_approval : ℕ → Withdrawal → Db → Outcome
finish_approval now seen db = elim (get_withdrawal seen.id db) [
  | none ↦ raised not_found db
  | some locked ↦
      if is_sent seen.status
      then done db
      else if is_approved seen.status
      then done (send now locked db)
      else raised already_processed db
]

unfoldable pub approve_withdrawal :
    Config → TransferReply → (Db → Db) → ℕ → Withdrawal → Db → Outcome
approve_withdrawal config failed meanwhile now w db =
    if is_cryptopay_configured config.cryptobot_token
    then raised provider_failed (meanwhile (approved w db))
    else done (approved w db)
approve_withdrawal config transferred meanwhile now w db =
    if is_cryptopay_configured config.cryptobot_token
    then finish_approval now (taken w) (meanwhile (approved w db))
    else done (approved w db)

unfoldable pub decide : Action → Config → TransferReply → (Db → Db) → ℕ → Withdrawal → Db → Outcome
decide approve config reply meanwhile now w db =
    if is_pending w.status
    then approve_withdrawal config reply meanwhile now w db
    else raised already_processed db
decide reject config reply meanwhile now w db =
    if is_pending w.status || is_approved w.status
    then done (give_back now w db)
    else raised already_processed db
decide mark_sent config reply meanwhile now w db =
    if is_approved w.status then done (send now w db) else raised not_approved db

unfoldable pub decide_withdrawal :
    Action → Config → TransferReply → (Db → Db) → ℕ → ℕ → Db → Outcome
decide_withdrawal action config reply meanwhile now withdrawal_id db =
    elim (get_withdrawal withdrawal_id db) [
      | none ↦ raised not_found db
      | some w ↦ elim (get_currency w.currency_id db) [
        | none ↦ raised not_found db
        | some _ ↦ elim (get_user w.user_id db) [
          | none ↦ raised not_found db
          | some _ ↦ decide action config reply meanwhile now w db
        ]
      ]
    ]
