-- ===== src/Solvency/WithdrawSteps.antt =====
-- The steps of a withdrawal (backend/app/services_wallet.py and
-- backend/app/routers/admin/withdrawals.py) keep the invariant.
use garant.Base.{
  ℕ, ◌+◌, ◌-◌, ◌≡◌, refl, sym, subst, true, Option, some, arith, ok, Option-cases, Bool-cases, inl,
  inr,
}
use garant.Base.Table.{get-key}
use garant.Base.Text.{Text}
use garant.Wallet.{withdrawal_lock, withdrawal_sent, withdrawal_reject, from_withdrawal}
use garant.Wallet.Rows.{locked_of-update_balance}
use garant.Wallet.Ledger.{update_balance-IsReconciled}
use garant.Schema.{Db, User, Currency, Withdrawal, WithdrawStatus, get_withdrawal, withdrawal_key}
use garant.Deposits.Invoice.{Config}
use garant.Withdrawals.Address.{MatchReply, clean_address}
use garant.Withdrawals.Effect.{locked_of-update_existing, update_existing-IsReconciled}
use garant.Withdrawals.Request.{request_units, new_withdrawal}
use garant.Withdrawals.Request.Outcomes.{request_units-ok, locked_for}
use garant.Withdrawals.Transfer.{is_pending, decided, record_units}
use garant.Withdrawals.Decide.{send, give_back, approved}
use garant.Solvency.{IsSound, is_open}
use garant.Solvency.Closing.{notify-IsSound}
use garant.Solvency.Claims.{
  SameClaim, same_claim, claimed_new-IsSound, closed-IsSound, still_open-IsSound,
}

pub pending-open : (st : WithdrawStatus) → is_pending st ≡ true → is_open st ≡ true
pending-open st h = ground arith

pub request_units-IsSound :
    (config : Config) (reply : MatchReply) (now : ℕ) (user : User) (wanted : Text) (amount : ℕ)
    (raw : Option Text) (db : Db) (cur : Currency) (w : Withdrawal) (db' : Db)
    → IsSound db
    → request_units config reply now user wanted amount raw db ≡ ok (cur, w, db')
    → IsSound db'
unfolding new_withdrawal
request_units-IsSound config reply now user wanted amount raw db cur w db' s h =
    let (_, _, enough, _, _, we, e) =
      request_units-ok config reply now user wanted amount raw db cur w db' h in
    subst IsSound (sym e) (
      rw we (
        claimed_new-IsSound db (new_withdrawal now user cur amount (clean_address raw) db)
          (locked_for user cur amount db) refl
          (λ u c. ground (
            arith,
            locked_of-update_balance user.id cur.id (λ a l. (a - amount, l + amount))
                withdrawal_lock (from_withdrawal db.next_withdrawal_id) db.funds u c,
          ))
          (update_balance-IsReconciled user.id cur.id _ withdrawal_lock
            (from_withdrawal db.next_withdrawal_id) db.funds refl s.reconciled)
          s))

module _ (now : ℕ) (w : Withdrawal) (db : Db) (found : get_withdrawal w.id db ≡ some w)
    (running : is_open w.status ≡ true) (s : IsSound db) where
  pub send-IsSound : IsSound (send now w db)
  unfolding send
  send-IsSound = notify-IsSound _ _ _ _ (
      closed-IsSound db w found (decided now WithdrawStatus.sent w) (same_claim w) _ running refl
        (λ u c.
          locked_of-update_existing w.user_id w.currency_id (λ a l. (a, l - w.amount))
            withdrawal_sent (from_withdrawal w.id) db.funds u c (omega arith))
        (update_existing-IsReconciled w.user_id w.currency_id (λ a l. (a, l - w.amount))
          withdrawal_sent (from_withdrawal w.id) db.funds refl s.reconciled)
        s)

  pub give_back-IsSound : IsSound (give_back now w db)
  unfolding give_back
  give_back-IsSound = notify-IsSound _ _ _ _ (
      closed-IsSound db w found (decided now WithdrawStatus.rejected w) (same_claim w) _ running
        refl
        (λ u c.
          locked_of-update_existing w.user_id w.currency_id (λ a l. (a + w.amount, l - w.amount))
            withdrawal_reject (from_withdrawal w.id) db.funds u c (omega arith))
        (update_existing-IsReconciled w.user_id w.currency_id (λ a l. (a + w.amount, l - w.amount))
          withdrawal_reject (from_withdrawal w.id) db.funds refl s.reconciled)
        s)

  pub approved-IsSound : IsSound (approved w db)
  approved-IsSound =
      still_open-IsSound db w found (record w { status = WithdrawStatus.approved }) (same_claim w)
        running s

-- A row that is found under a key is found under its own.
pub stored_row :
    (k : ℕ) (w : Withdrawal) (db : Db)
    → get_withdrawal k db ≡ some w
    → get_withdrawal w.id db ≡ some w
stored_row k w db found =
    subst (λ (j : ℕ). get_withdrawal j db ≡ some w)
      (sym (get-key withdrawal_key k w db.withdrawals found)) found

-- `copy` is what the process remembers of the row.
pub record_units-IsSound :
    (now : ℕ) (user : User) (copy : Withdrawal) (db : Db)
    → ((w : Withdrawal) → get_withdrawal copy.id db ≡ some w → SameClaim copy w)
    → IsSound db
    → IsSound (record_units now user copy db)
unfolding record_units
record_units-IsSound now user copy db agrees s = elim (Option-cases (get_withdrawal copy.id db)) [
  | inl missing ↦ rw (record_units, missing) s
  | inr (w, found) ↦ elim (Bool-cases (is_pending w.status)) [
    | inl waiting ↦
        rw (record_units, found, waiting, ← (agrees w found).3)
          (notify-IsSound _ _ _ _ (
            closed-IsSound db w (stored_row copy.id w db found) (decided now WithdrawStatus.sent w)
              (same_claim w) _ (pending-open w.status waiting) refl
              (λ u c.
                locked_of-update_existing w.user_id w.currency_id (λ a l. (a, l - w.amount))
                  withdrawal_sent (from_withdrawal w.id) db.funds u c (omega arith))
              (update_existing-IsReconciled w.user_id w.currency_id (λ a l. (a, l - w.amount))
                withdrawal_sent (from_withdrawal w.id) db.funds refl s.reconciled)
              s))
    | inr decided_already ↦ rw (record_units, found, decided_already) s
  ]
]
