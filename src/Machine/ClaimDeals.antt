-- ===== src/Machine/ClaimDeals.antt =====
-- The operations on withdrawals leave the deals alone (backend/app/services_wallet.py and
-- backend/app/routers/admin/withdrawals.py).
use garant.Base.{
  ℕ, ◌≡◌, refl, sym, ap, Option, some, List, [], ◌∷◌, arith, ok, Option-cases, inl, inr,
}
use garant.Base.Text.{Text}
use garant.Schema.{Db, User, Currency, Withdrawal, get_withdrawal, notify, system, about_withdrawal}
use garant.Deposits.Invoice.{Config}
use garant.Withdrawals.Address.{MatchReply}
use garant.Withdrawals.Request.{request_units}
use garant.Withdrawals.Request.Outcomes.{request_units-ok}
use garant.Withdrawals.Transfer.{
  TransferReply, failed, transferred, record_units, units_refunded, refund_units, tell_all,
  queue_for_admins,
}
use garant.Withdrawals.Decide.{
  Action, approve, reject, mark_sent, state_of, taken, approved, send, give_back, finish_approval,
  approve_withdrawal, decide, decide_withdrawal,
}
use garant.Solvency.DecideSteps.{refund_units-ok}

pub request-deals :
    (config : Config) (reply : MatchReply) (now : ℕ) (user : User) (wanted : Text) (amount : ℕ)
    (raw : Option Text) (db : Db) (cur : Currency) (w : Withdrawal) (db' : Db)
    → request_units config reply now user wanted amount raw db ≡ ok (cur, w, db')
    → db'.deals ≡ db.deals
request-deals config reply now user wanted amount raw db cur w db' h =
    let (_, _, _, _, _, _, e) =
      request_units-ok config reply now user wanted amount raw db cur w db' h in
    ap (λ (x : Db). x.deals) e

pub refund_units-deals :
    (now : ℕ) (user : User) (cur : Currency) (copy : Withdrawal) (db db' : Db)
    → user.id ≡ copy.user_id
    → cur.id ≡ copy.currency_id
    → refund_units now user cur copy db ≡ some db'
    → db'.deals ≡ db.deals
unfolding units_refunded
refund_units-deals now user cur copy db db' owner priced h =
    let (_, _, e) = refund_units-ok now user cur copy db db' owner priced h in
    sym (ap (λ (x : Db). x.deals) e)

tell_all-deals : (k : ℕ) (admins : List User) (db : Db) → (tell_all k admins db).deals ≡ db.deals
unfolding tell_all
tell_all-deals k [] db = refl
tell_all-deals k (u ∷ us) db = tell_all-deals k us (notify u.id system (about_withdrawal k) db)

pub queue-deals : (w : Withdrawal) (db : Db) → (queue_for_admins w db).deals ≡ db.deals
unfolding queue_for_admins
queue-deals w db = tell_all-deals w.id _ db

module _ (now : ℕ) where
  pub record_units-deals :
      (user : User) (copy : Withdrawal) (db : Db) → (record_units now user copy db).deals ≡ db.deals
  unfolding record_units
  record_units-deals user copy db = elim (Option-cases (get_withdrawal copy.id db)) [
    | inl missing ↦ ground arith
    | inr (w, found) ↦ ground arith
  ]

  send-deals : (w : Withdrawal) (db : Db) → (send now w db).deals ≡ db.deals
  unfolding send
  send-deals w db = refl

  give_back-deals : (w : Withdrawal) (db : Db) → (give_back now w db).deals ≡ db.deals
  unfolding give_back
  give_back-deals w db = refl

  pub finish_approval-deals :
      (seen : Withdrawal) (db : Db) → (state_of (finish_approval now seen db)).deals ≡ db.deals
  unfolding finish_approval
  finish_approval-deals seen db = elim (Option-cases (get_withdrawal seen.id db)) [
    | inl missing ↦ ground arith
    | inr (w, found) ↦ ground (arith, send-deals w db)
  ]

  module _ (config : Config) (reply : TransferReply) where
    approve-deals :
        (r : TransferReply) (w : Withdrawal) (db : Db)
        → (state_of (approve_withdrawal config r (λ x. x) now w db)).deals ≡ db.deals
    unfolding approve_withdrawal
    approve-deals failed w db = ground arith
    approve-deals transferred w db = ground (arith, finish_approval-deals (taken w) (approved w db))

    decide-deals :
        (action : Action) (w : Withdrawal) (db : Db)
        → (state_of (decide action config reply (λ x. x) now w db)).deals ≡ db.deals
    unfolding decide
    decide-deals approve w db = ground (arith, approve-deals reply w db)
    decide-deals reject w db = ground (arith, give_back-deals w db)
    decide-deals mark_sent w db = ground (arith, send-deals w db)

    pub decide_withdrawal-deals :
        (action : Action) (k : ℕ) (db : Db)
        → (state_of (decide_withdrawal action config reply (λ x. x) now k db)).deals ≡ db.deals
    unfolding decide_withdrawal
    decide_withdrawal-deals action k db = elim (Option-cases (get_withdrawal k db)) [
      | inl missing ↦ ground arith
      | inr (w, found) ↦ ground (arith, decide-deals action w db)
    ]
