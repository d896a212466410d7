-- ===== src/Solvency/DecideSteps.antt =====
-- The decisions on a withdrawal, and the whole of `create_withdrawal`, keep the invariant
-- (backend/app/services_wallet.py and backend/app/routers/admin/withdrawals.py).
use garant.Base.{
  ℕ, ◌+◌, ◌-◌, ◌≡◌, refl, subst, true, ◌||◌, some, List, [], ◌∷◌, arith, Option-cases, Bool-cases,
  inl, inr,
}
use garant.Base.Table.{get-put}
use garant.Wallet.{withdrawal_auto_failed_refund, from_withdrawal}
use garant.Wallet.Rows.{locked_of-update_balance}
use garant.Wallet.Ledger.{update_balance-IsReconciled}
use garant.Schema.{
  Db, User, Currency, Withdrawal, WithdrawStatus, get_withdrawal, get_currency, get_user, system,
  withdrawal_key, about_withdrawal,
}
use garant.Deposits.Invoice.{Config, is_cryptopay_configured}
use garant.Withdrawals.Transfer.{
  TransferReply, failed, transferred, is_pending, decided, refund_units, units_refunded, tell_all,
  queue_for_admins,
}
use garant.Withdrawals.Decide.{
  Action, approve, reject, mark_sent, state_of, is_approved, is_sent, taken, approved,
  finish_approval, approve_withdrawal, decide, decide_withdrawal,
}
use garant.Solvency.{IsSound, is_open}
use garant.Solvency.Closing.{notify-IsSound}
use garant.Solvency.Claims.{SameClaim, same_claim, closed-IsSound}
use garant.Solvency.WithdrawSteps.{
  pending-open, stored_row, send-IsSound, give_back-IsSound, approved-IsSound,
}

approved-open : (st : WithdrawStatus) → is_approved st ≡ true → is_open st ≡ true
approved-open st h = ground arith

either-open : (st : WithdrawStatus) → (is_pending st || is_approved st) ≡ true → is_open st ≡ true
either-open st h = ground arith

-- Where the row of the key is stored, it is approved.
abbrev pub StillApproved : ℕ → Db → Type 0
StillApproved k db = (w : Withdrawal) → get_withdrawal k db ≡ some w → is_approved w.status ≡ true

pub approved-StillApproved : (w : Withdrawal) (db : Db) → StillApproved w.id (approved w db)
approved-StillApproved w db v found =
    ground (arith, found, get-put withdrawal_key w.id (taken w) db.withdrawals)

module _ (now : ℕ) where
  -- The phase presumes that the row is approved still.
  pub finish_approval-IsSound :
      (seen : Withdrawal) (db : Db)
      → StillApproved seen.id db
      → IsSound db
      → IsSound (state_of (finish_approval now seen db))
  unfolding finish_approval
  finish_approval-IsSound seen db still s = elim (Option-cases (get_withdrawal seen.id db)) [
    | inl missing ↦ rw (finish_approval, missing) s
    | inr (w, found) ↦ elim (Bool-cases (is_sent seen.status)) [
      | inl over ↦ rw (finish_approval, found, over) s
      | inr waits ↦ elim (Bool-cases (is_approved seen.status)) [
        | inl due ↦
            rw (finish_approval, found, waits, due)
              (send-IsSound now w db (stored_row seen.id w db found)
                (approved-open w.status (still w found)) s)
        | inr other ↦ rw (finish_approval, found, waits, other) s
      ]
    ]
  ]

  module _ (config : Config) (reply : TransferReply) (meanwhile : Db → Db)
      (others : (x : Db) → IsSound x → IsSound (meanwhile x))
      (leaves : (k : ℕ) (x : Db) → StillApproved k x → StillApproved k (meanwhile x)) where
    approve_withdrawal-IsSound :
        (r : TransferReply) (w : Withdrawal) (db : Db)
        → IsSound (approved w db)
        → IsSound (state_of (approve_withdrawal config r meanwhile now w db))
    unfolding approve_withdrawal
    approve_withdrawal-IsSound failed w db s =
        elim (Bool-cases (is_cryptopay_configured config.cryptobot_token)) [
          | inl on ↦ rw (approve_withdrawal, on) (others _ s)
          | inr off ↦ rw (approve_withdrawal, off) s
        ]
    approve_withdrawal-IsSound transferred w db s =
        elim (Bool-cases (is_cryptopay_configured config.cryptobot_token)) [
          | inl on ↦
              rw (approve_withdrawal, on)
                (finish_approval-IsSound (taken w) _ (leaves w.id _ (approved-StillApproved w db))
                  (others _ s))
          | inr off ↦ rw (approve_withdrawal, off) s
        ]

    decide-IsSound :
        (action : Action) (w : Withdrawal) (db : Db)
        → get_withdrawal w.id db ≡ some w
        → IsSound db
        → IsSound (state_of (decide action config reply meanwhile now w db))
    unfolding decide
    decide-IsSound approve w db found s = elim (Bool-cases (is_pending w.status)) [
      | inl waiting ↦
          rw (decide, waiting)
            (approve_withdrawal-IsSound reply w db
              (approved-IsSound now w db found (pending-open w.status waiting) s))
      | inr over ↦ rw (decide, over) s
    ]
    decide-IsSound reject w db found s =
        elim (Bool-cases (is_pending w.status || is_approved w.status)) [
          | inl running ↦
              rw (decide, running)
                (give_back-IsSound now w db found (either-open w.status running) s)
          | inr over ↦ rw (decide, over) s
        ]
    decide-IsSound mark_sent w db found s = elim (Bool-cases (is_approved w.status)) [
      | inl due ↦ rw (decide, due) (send-IsSound now w db found (approved-open w.status due) s)
      | inr other ↦ rw (decide, other) s
    ]

    pub decide_withdrawal-IsSound :
        (action : Action) (k : ℕ) (db : Db)
        → IsSound db
        → IsSound (state_of (decide_withdrawal action config reply meanwhile now k db))
    unfolding decide_withdrawal
    decide_withdrawal-IsSound action k db s = elim (Option-cases (get_withdrawal k db)) [
      | inl missing ↦ rw (decide_withdrawal, missing) s
      | inr (w, found) ↦ elim (Option-cases (get_currency w.currency_id db)) [
        | inl unknown ↦ rw (decide_withdrawal, found, unknown) s
        | inr (cur, priced) ↦ elim (Option-cases (get_user w.user_id db)) [
          | inl nobody ↦ rw (decide_withdrawal, found, priced, nobody) s
          | inr (u, known) ↦
              rw (decide_withdrawal, found, priced, known)
                (decide-IsSound action w db (stored_row k w db found) s)
        ]
      ]
    ]

pub tell_all-IsSound :
    (k : ℕ) (admins : List User) (db : Db) → IsSound db → IsSound (tell_all k admins db)
unfolding tell_all
tell_all-IsSound k [] db s = s
tell_all-IsSound k (u ∷ us) db s =
    tell_all-IsSound k us _ (notify-IsSound u.id system (about_withdrawal k) db s)

pub queue_for_admins-IsSound :
    (w : Withdrawal) (db : Db) → IsSound db → IsSound (queue_for_admins w db)
unfolding queue_for_admins
queue_for_admins-IsSound w db s = tell_all-IsSound w.id _ db s

module _ (now : ℕ) (user : User) (cur : Currency) (copy : Withdrawal) (db db' : Db)
    (owner : user.id ≡ copy.user_id) (priced : cur.id ≡ copy.currency_id) where
  -- The refund presumes that the row is open still.
  units_refunded-IsSound :
      (w : Withdrawal)
      → get_withdrawal w.id db ≡ some w
      → SameClaim copy w
      → is_open w.status ≡ true
      → IsSound db
      → IsSound (units_refunded now user cur copy.amount w db)
  unfolding units_refunded
  units_refunded-IsSound w found same running s = notify-IsSound _ _ _ _ (
      closed-IsSound db w found (decided now WithdrawStatus.rejected w) (same_claim w) _ running
        refl
        (λ u c. ground (
          arith,
          locked_of-update_balance user.id cur.id (λ a l. (a + copy.amount, l - copy.amount))
              withdrawal_auto_failed_refund (from_withdrawal w.id) db.funds u c,
          same,
          owner,
          priced,
        ))
        (update_balance-IsReconciled user.id cur.id (λ a l. (a + copy.amount, l - copy.amount))
          withdrawal_auto_failed_refund (from_withdrawal w.id) db.funds refl s.reconciled)
        s)

  pub refund_units-ok :
      refund_units now user cur copy db ≡ some db'
      → (w : Withdrawal) × (get_withdrawal copy.id db ≡ some w)
        × (units_refunded now user cur copy.amount w db ≡ db')
  unfolding refund_units
  refund_units-ok h = elim (Option-cases (get_withdrawal copy.id db)) [
    | inl missing ↦ absurd (ground arith)
    | inr (w, found) ↦ (w, found, ground arith)
  ]

  pub refund_units-IsSound :
      ((w : Withdrawal)
        → get_withdrawal copy.id db ≡ some w
        → SameClaim copy w × (is_open w.status ≡ true))
      → IsSound db
      → refund_units now user cur copy db ≡ some db'
      → IsSound db'
  refund_units-IsSound agrees s h =
      let (w, found, e) = refund_units-ok h in
      subst IsSound e (
        units_refunded-IsSound w (stored_row copy.id w db found) (agrees w found).0
          (agrees w found).1 s)
