-- ===== src/Machine/StaleMoves.antt =====
-- What a turn of `sweep_stale_withdrawals` (backend/app/services_wallet.py) does to a row that is
-- pending still, and to one that another transaction has settled meanwhile.
use garant.Base.{ℕ, ◌≡◌, ◌<◌, ◌≤◌, Bool, true, false, some}
use garant.Wallet.{locked_of}
use garant.Wallet.Ledger.{IsReconciled}
use garant.Schema.{Db, Withdrawal, get_withdrawal}
use garant.Withdrawals.Transfer.{is_pending}
use garant.Withdrawals.Stale.{TransfersReply, api_error, not_found, completed, reconcile_row}
use garant.Solvency.{IsSound, IsBacked, is_open}
use garant.Solvency.Claims.{SameClaim, same_claim}
use garant.Solvency.WithdrawSteps.{stored_row}
use garant.Solvency.StaleSteps.{reconcile-IsBacked, reconcile-behind, reconcile-unbacked}

-- CryptoBot has answered about the row.
abbrev pub is_answer : TransfersReply → Bool
is_answer api_error = false
is_answer _ = true

-- In a sound database, when the stale sweep has an answer about a stored pending withdrawal of
-- a positive amount, it keeps the locked funds backed and leaves a ledger that no longer
-- replays to the balance rows.
pub reconcile_row-unrecorded :
    (answer : TransfersReply) (now : ℕ) (w : Withdrawal) (db : Db)
    → IsSound db
    → get_withdrawal w.id db ≡ some w
    → is_pending w.status ≡ true
    → is_answer answer ≡ true
    → 0 < w.amount
    → IsBacked (reconcile_row answer now w db).1
      × ¬ IsReconciled (reconcile_row answer now w db).1.funds
unfolding reconcile_row
reconcile_row-unrecorded api_error now w db s found waiting answered positive = cc
reconcile_row-unrecorded not_found now w db s found waiting answered positive =
    rw (reconcile_row, found, waiting)
      (
        reconcile-IsBacked now false w w db found (same_claim w) waiting s.backed,
        reconcile-behind now false w w db found (same_claim w) waiting s.backed s.reconciled
            positive,
      )
reconcile_row-unrecorded completed now w db s found waiting answered positive =
    rw (reconcile_row, found, waiting)
      (
        reconcile-IsBacked now true w w db found (same_claim w) waiting s.backed,
        reconcile-behind now true w w db found (same_claim w) waiting s.backed s.reconciled
            positive,
      )

-- In a sound database, when the stale sweep has read a withdrawal as pending and another
-- transaction has sent or rejected it meanwhile, a turn with an answer about it settles it
-- again: where its amount is positive and as much is locked for something else, the locked
-- funds are no longer backed.
pub reconcile_row-again :
    (answer : TransfersReply) (now : ℕ) (candidate w : Withdrawal) (db : Db)
    → IsSound db
    → is_pending candidate.status ≡ true
    → get_withdrawal candidate.id db ≡ some w
    → SameClaim candidate w
    → is_open w.status ≡ false
    → is_answer answer ≡ true
    → 0 < w.amount
    → w.amount ≤ locked_of w.user_id w.currency_id db.funds
    → ¬ IsBacked (reconcile_row answer now candidate db).1
unfolding reconcile_row
reconcile_row-again api_error now c w db s read found same over answered positive others = cc
reconcile_row-again not_found now c w db s read found same over answered positive others =
    rw (reconcile_row, found, read)
      (reconcile-unbacked now false c w db (stored_row c.id w db found) same s.backed over positive
        others)
reconcile_row-again completed now c w db s read found same over answered positive others =
    rw (reconcile_row, found, read)
      (reconcile-unbacked now true c w db (stored_row c.id w db found) same s.backed over positive
        others)
