-- ===== src/Withdrawals/Stale.antt =====
-- `sweep_stale_withdrawals` of backend/app/services_wallet.py. What CryptoBot answers about the
-- transfer of each row is a parameter.
use garant.Base.{
  ℕ, ◌+◌, ◌-◌, Bool, true, false, not, ◌&&◌, ◌||◌, none, some, List, [], ◌∷◌, leb, ◌==◌,
  if◌then◌else◌,
}
use garant.Base.Table.{select}
use garant.Schema.{
  Db, Withdrawal, WithdrawStatus, get_withdrawal, put_withdrawal, with_funds, notify, deposits,
  about_withdrawal,
}
use garant.Deposits.Invoice.{Config, is_cryptopay_configured}
use garant.Withdrawals.Balance.{update_unrecorded}
use garant.Withdrawals.Transfer.{is_pending, decided}

-- `get_transfers(spend_id=…)`: an error, or whether a completed transfer is among the rows.
pub data TransfersReply : Type 0 where
  api_error not_found completed : TransfersReply

-- The row and the balance, once the transfer is known.
unfoldable pub reconcile : Bool → ℕ → Withdrawal → Withdrawal → Db → Db
reconcile matched now candidate locked db =
    let amount = candidate.amount in
    let change = if matched then (λ a l. (a, l - amount)) else (λ a l. (a + amount, l - amount)) in
    let status = if matched then WithdrawStatus.sent else WithdrawStatus.rejected in
    let funds = update_unrecorded candidate.user_id candidate.currency_id change db.funds in
    notify candidate.user_id deposits (about_withdrawal candidate.id)
      (put_withdrawal (decided now status locked) (with_funds funds db))

abbrev pub is_completed : TransfersReply → Bool
is_completed completed = true
is_completed _ = false

-- One turn of the loop after CryptoBot has answered. The second SELECT takes the lock, but without
-- `populate_existing` it leaves the loaded object as it is: the status that is tested is the one of
-- the first SELECT. The other columns that are read never change after the insertion.
unfoldable pub reconcile_row : TransfersReply → ℕ → Withdrawal → Db → ℕ × Db
reconcile_row api_error now candidate db = (0, db)
reconcile_row answer now candidate db = elim (get_withdrawal candidate.id db) [
  | none ↦ (0, db)
  | some locked ↦
      if is_pending candidate.status
      then (1, reconcile (is_completed answer) now candidate locked db)
      else (0, db)
]

-- `meanwhile` is what other transactions commit during the call about a row.
unfoldable pub reconcile_all :
    (ℕ → TransfersReply) → (ℕ → Db → Db) → ℕ → List Withdrawal → Db → ℕ × Db
reconcile_all answers meanwhile now [] db = (0, db)
reconcile_all answers meanwhile now (candidate ∷ rows) db =
    let (count, db1) =
      reconcile_row (answers candidate.id) now candidate (meanwhile candidate.id db) in
    let (rest, db2) = reconcile_all answers meanwhile now rows db1 in (count + rest, db2)

abbrev pub is_stale : ℕ → ℕ → Withdrawal → Bool
is_stale now window w = is_pending w.status && leb (w.created_at + window) now

unfoldable pub sweep_stale_withdrawals :
    Config → (ℕ → TransfersReply) → (ℕ → Db → Db) → ℕ → Db → ℕ × Db
unfolding select
sweep_stale_withdrawals config answers meanwhile now db =
    let stale_seconds = config.wallet_withdrawal_stale_seconds in
    if stale_seconds == 0 || not (is_cryptopay_configured config.cryptobot_token)
    then (0, db)
    else reconcile_all answers meanwhile now (select (is_stale now stale_seconds) db.withdrawals) db
