-- ===== src/Machine/ClaimMoves.antt =====
-- Each operation on withdrawals along `Machine.Claims`.
use garant.Base.{ℕ, ◌≡◌, true, ◌||◌, Option, some, arith, ok, Bool-cases, Option-cases, inl, inr}
use garant.Base.Table.{get, get_fresh}
use garant.Base.Text.{Text}
use garant.Schema.{
  Db, User, Currency, Withdrawal, WithdrawStatus, get_withdrawal, get_currency, get_user,
  withdrawal_key,
}
use garant.Deposits.Invoice.{Config, is_cryptopay_configured}
use garant.Withdrawals.Address.{MatchReply}
use garant.Withdrawals.Request.{request_units, new_withdrawal}
use garant.Withdrawals.Request.Outcomes.{request_units-ok}
use garant.Withdrawals.Transfer.{
  TransferReply, failed, transferred, is_pending, decided, record_units, units_refunded,
}
use garant.Withdrawals.Decide.{
  Action, approve, reject, mark_sent, state_of, is_approved, is_sent, approved, send, give_back,
  taken, finish_approval, approve_withdrawal, decide, decide_withdrawal,
}
use garant.Solvency.{IsSound}
use garant.Solvency.Claims.{same_claim}
use garant.Solvency.DecideSteps.{StillApproved, approved-StillApproved}
use garant.Solvency.WithdrawSteps.{stored_row}
use garant.Machine.Claims.{Keeps, Keeps-refl, Keeps-trans, Keeps-put, Keeps-insert, leads}

pending-leads : (a b : WithdrawStatus) → is_pending a ≡ true → leads a b ≡ true
pending-leads a b h = ground arith

pub request-Keeps :
    (config : Config) (reply : MatchReply) (now : ℕ) (user : User) (wanted : Text) (amount : ℕ)
    (raw : Option Text) (db : Db) (cur : Currency) (w : Withdrawal) (db' : Db)
    → IsSound db
    → request_units config reply now user wanted amount raw db ≡ ok (cur, w, db')
    → Keeps db.withdrawals db'.withdrawals
unfolding new_withdrawal
request-Keeps config reply now user wanted amount raw db cur w db' s h =
    let (_, _, _, _, _, we, e) =
      request_units-ok config reply now user wanted amount raw db cur w db' h in
    rw e (
      Keeps-insert w db.withdrawals
        (rw we (get_fresh withdrawal_key db.next_withdrawal_id db.withdrawals s.withdrawals_sound)))

module _ (now : ℕ) where
  pub record_units-Keeps :
      (user : User) (copy : Withdrawal) (db : Db)
      → Keeps db.withdrawals (record_units now user copy db).withdrawals
  unfolding record_units get
  record_units-Keeps user copy db = elim (Option-cases (get_withdrawal copy.id db)) [
    | inl missing ↦ rw (record_units, missing) (Keeps-refl db.withdrawals)
    | inr (w, found) ↦ elim (Bool-cases (is_pending w.status)) [
      | inl waiting ↦
          rw (record_units, found, waiting)
            (Keeps-put w (decided now WithdrawStatus.sent w) db.withdrawals (same_claim w)
              (stored_row copy.id w db found) (pending-leads w.status _ waiting))
      | inr over ↦ rw (record_units, found, over) (Keeps-refl db.withdrawals)
    ]
  ]

  module _ (w : Withdrawal) (db : Db) (found : get_withdrawal w.id db ≡ some w) where
    send-Keeps : is_approved w.status ≡ true → Keeps db.withdrawals (send now w db).withdrawals
    unfolding send
    send-Keeps h =
        Keeps-put w (decided now WithdrawStatus.sent w) db.withdrawals (same_claim w) found
          (ground arith)

    give_back-Keeps :
        (is_pending w.status || is_approved w.status) ≡ true
        → Keeps db.withdrawals (give_back now w db).withdrawals
    unfolding give_back
    give_back-Keeps h =
        Keeps-put w (decided now WithdrawStatus.rejected w) db.withdrawals (same_claim w) found
          (ground arith)

    approved-Keeps : is_pending w.status ≡ true → Keeps db.withdrawals (approved w db).withdrawals
    approved-Keeps h =
        Keeps-put w (record w { status = WithdrawStatus.approved }) db.withdrawals (same_claim w)
          found (ground arith)

    pub units_refunded-Keeps :
        (user : User) (cur : Currency) (amount : ℕ)
        → is_pending w.status ≡ true
        → Keeps db.withdrawals (units_refunded now user cur amount w db).withdrawals
    unfolding units_refunded
    units_refunded-Keeps user cur amount h =
        Keeps-put w (decided now WithdrawStatus.rejected w) db.withdrawals (same_claim w) found
          (ground arith)

  pub finish_approval-Keeps :
      (seen : Withdrawal) (db : Db)
      → StillApproved seen.id db
      → Keeps db.withdrawals (state_of (finish_approval now seen db)).withdrawals
  unfolding finish_approval get
  finish_approval-Keeps seen db still = elim (Option-cases (get_withdrawal seen.id db)) [
    | inl missing ↦ rw (finish_approval, missing) (Keeps-refl db.withdrawals)
    | inr (w, found) ↦ elim (Bool-cases (is_sent seen.status)) [
      | inl over ↦ rw (finish_approval, found, over) (Keeps-refl db.withdrawals)
      | inr waits ↦ elim (Bool-cases (is_approved seen.status)) [
        | inl due ↦
            rw (finish_approval, found, waits, due)
              (send-Keeps w db (stored_row seen.id w db found) (still w found))
        | inr other ↦ rw (finish_approval, found, waits, other) (Keeps-refl db.withdrawals)
      ]
    ]
  ]

  module _ (config : Config) (reply : TransferReply) (meanwhile : Db → Db)
      (others : (x : Db) → Keeps x.withdrawals (meanwhile x).withdrawals)
      (leaves : (k : ℕ) (x : Db) → StillApproved k x → StillApproved k (meanwhile x)) where
    approve-Keeps :
        (r : TransferReply) (w : Withdrawal) (db : Db)
        → Keeps
            (approved w db).withdrawals
            (state_of (approve_withdrawal config r meanwhile now w db)).withdrawals
    unfolding approve_withdrawal get
    approve-Keeps failed w db = elim (Bool-cases (is_cryptopay_configured config.cryptobot_token)) [
      | inl on ↦ rw (approve_withdrawal, on) (others (approved w db))
      | inr off ↦ rw (approve_withdrawal, off) (Keeps-refl (approved w db).withdrawals)
    ]
    approve-Keeps transferred w db =
        elim (Bool-cases (is_cryptopay_configured config.cryptobot_token)) [
          | inl on ↦
              rw (approve_withdrawal, on)
                (Keeps-trans (approved w db).withdrawals (meanwhile (approved w db)).withdrawals _
                  (others (approved w db))
                  (finish_approval-Keeps (taken w) (meanwhile (approved w db))
                    (leaves w.id _ (approved-StillApproved w db))))
          | inr off ↦ rw (approve_withdrawal, off) (Keeps-refl (approved w db).withdrawals)
        ]

    decide-Keeps :
        (action : Action) (w : Withdrawal) (db : Db)
        → get_withdrawal w.id db ≡ some w
        → Keeps db.withdrawals
            (state_of (decide action config reply meanwhile now w db)).withdrawals
    unfolding decide get
    decide-Keeps approve w db found = elim (Bool-cases (is_pending w.status)) [
      | inl waiting ↦
          rw (decide, waiting)
            (Keeps-trans db.withdrawals (approved w db).withdrawals _
              (approved-Keeps w db found waiting) (approve-Keeps reply w db))
      | inr over ↦ rw (decide, over) (Keeps-refl db.withdrawals)
    ]
    decide-Keeps reject w db found =
        elim (Bool-cases (is_pending w.status || is_approved w.status)) [
          | inl running ↦ rw (decide, running) (give_back-Keeps w db found running)
          | inr over ↦ rw (decide, over) (Keeps-refl db.withdrawals)
        ]
    decide-Keeps mark_sent w db found = elim (Bool-cases (is_approved w.status)) [
      | inl due ↦ rw (decide, due) (send-Keeps w db found due)
      | inr other ↦ rw (decide, other) (Keeps-refl db.withdrawals)
    ]

    pub decide_withdrawal-Keeps :
        (action : Action) (k : ℕ) (db : Db)
        → Keeps db.withdrawals
            (state_of (decide_withdrawal action config reply meanwhile now k db)).withdrawals
    unfolding decide_withdrawal get
    decide_withdrawal-Keeps action k db = elim (Option-cases (get_withdrawal k db)) [
      | inl missing ↦ rw (decide_withdrawal, missing) (Keeps-refl db.withdrawals)
      | inr (w, found) ↦ elim (Option-cases (get_currency w.currency_id db)) [
        | inl unknown ↦ rw (decide_withdrawal, found, unknown) (Keeps-refl db.withdrawals)
        | inr (cur, priced) ↦ elim (Option-cases (get_user w.user_id db)) [
          | inl nobody ↦ rw (decide_withdrawal, found, priced, nobody) (Keeps-refl db.withdrawals)
          | inr (u, known) ↦
              rw (decide_withdrawal, found, priced, known)
                (decide-Keeps action w db (stored_row k w db found))
        ]
      ]
    ]
