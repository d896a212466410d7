-- ===== src/Machine/ClaimHistories.antt =====
-- The withdrawals through any sequence of the steps of `Solvency.Runs`, and the whole of
-- `create_withdrawal` (backend/app/services_wallet.py) with such a sequence during its call of
-- CryptoBot.
use garant.Base.{
  ◌∙◌, ℕ, ◌≡◌, refl, sym, ap, subst, Bool, true, false, Option, some, arith, ok, if◌then◌else◌,
  Bool-cases, Option-cases, inl, inr, >>=-eq-ok,
}
use garant.Base.Table.{get-put}
use garant.Base.Text.{Text}
use garant.Schema.{Db, User, Currency, Withdrawal, get_withdrawal, withdrawal_key}
use garant.Deals.Lifecycle.Outcomes.{
  accept_deal-ok, decline_deal-ok, finish_deal-ok, request_cancel-ok, revoke_cancel-ok,
  accept_cancel-ok,
}
use garant.Deposits.Invoice.{Config}
use garant.Withdrawals.Address.{MatchReply}
use garant.Withdrawals.Request.{
  request_withdrawal, request_units, is_automatic, admin_exists, new_withdrawal,
}
use garant.Withdrawals.Request.Outcomes.{request_units-ok}
use garant.Withdrawals.Amount.{Column, whole, IsExact}
use garant.Withdrawals.Transfer.Whole.{
  request_withdrawal-whole, record_transfer-whole, refund_failed-whole, create_withdrawal-whole,
}
use garant.Withdrawals.Transfer.{
  TransferReply, failed, transferred, is_pending, refund_units, after_units, create_withdrawal,
  create_units, queue_for_admins,
}
use garant.Solvency.{IsSound}
use garant.Solvency.Claims.{SameClaim}
use garant.Solvency.WithdrawSteps.{
  pending-open, stored_row, request_units-IsSound, record_units-IsSound,
}
use garant.Solvency.DecideSteps.{refund_units-ok, refund_units-IsSound, queue_for_admins-IsSound}
use garant.Solvency.Runs.{
  Step, Reaches, creates, creates_with_topup, accepts, declines, finishes, requests_cancel,
  revokes_cancel, accepts_cancel, disputes, resolves, gives_up_topup, sweeps_inactivity,
  sweeps_topups, sweeps_deposits, asks_deposit, hears_paid, hears_expired, hears_crystalpay, polls,
  requests_withdrawal, records_transfer, refunds_withdrawal, queues_withdrawal, decides_withdrawal,
  finishes_approval, stays, steps, Reaches-IsSound,
}
use garant.Machine.Claims.{
  Keeps, Keeps-refl, Keeps-trans, Keeps-eq, queue-withdrawals, is_settled, settled-leads,
}
use garant.Machine.ClaimMoves.{
  request-Keeps, record_units-Keeps, units_refunded-Keeps, decide_withdrawal-Keeps,
  finish_approval-Keeps,
}
use garant.Machine.Untouched.{
  Spares, rows, start_arbitration-Spares, resolve_arbitration-Spares, cancel_pending_topup-Spares,
  sweep_inactivity-Spares, sweep_pending_topup-Spares, create_deposit_invoice-Spares,
  create_deal-Spares, create_with_topup-Spares, sweep_expired-Spares,
}
use garant.Machine.CreditSpares.{
  handle_paid-Spares, handle_expired-Spares, crystalpay-Spares, poll_status-Spares,
}

either_db : (b : Bool) (x y : Db) → rows x ≡ rows y → rows (if b then x else y) ≡ rows x
either_db true x y p = refl
either_db false x y p = sym p

spared : (db db' : Db) → Spares db db' → Keeps db.withdrawals db'.withdrawals
spared db db' e = Keeps-eq db.withdrawals db'.withdrawals e

module _ (config : Config) (column : Column) (exact : IsExact column) where
  Step-Keeps :
      (db db' : Db) → IsSound db → Step config column db db' → Keeps db.withdrawals db'.withdrawals
  Step-Keeps db _ s (creates now b l code raw p d db' h) =
      spared db db' (create_deal-Spares now b l code raw p db h)
  Step-Keeps db _ s (creates_with_topup reply now b l code raw p d deposit db' h) =
      spared db db' (create_with_topup-Spares now b l code raw p db config reply h)
  Step-Keeps db _ s (accepts now d u db' f h) =
      spared db db' (ap rows (accept_deal-ok now d u db h).2)
  Step-Keeps db _ s (declines now d u db' f h) =
      spared db db' (ap rows (decline_deal-ok now d u db h).2.2)
  Step-Keeps db _ s (finishes now d u db' f h) =
      spared db db' (ap rows (finish_deal-ok now d u db h).2.2)
  Step-Keeps db _ s (requests_cancel now d u db' f h) =
      spared db db' (ap rows (request_cancel-ok now d u db h).2)
  Step-Keeps db _ s (revokes_cancel d u db' f h) =
      spared db db' (ap rows (revoke_cancel-ok d u db h).2)
  Step-Keeps db _ s (accepts_cancel now d u db' f h) =
      let (_, _, _, (_, _, e)) = accept_cancel-ok now d u db h in
      spared db db' (subst (λ (x : Db). rows x ≡ rows db) (sym e) (either_db _ _ _ refl))
  Step-Keeps db _ s (disputes d u reason db' f h) =
      spared db db' (start_arbitration-Spares d u reason db h)
  Step-Keeps db _ s (resolves now d admin winner db' f h) =
      spared db db' (resolve_arbitration-Spares now d admin winner db h)
  Step-Keeps db _ s (gives_up_topup now d u db' f h) =
      spared db db' (cancel_pending_topup-Spares now d u db h)
  Step-Keeps db db' s (sweeps_inactivity now) = spared db db' (sweep_inactivity-Spares now db)
  Step-Keeps db db' s (sweeps_topups now) = spared db db' (sweep_pending_topup-Spares now db)
  Step-Keeps db db' s (sweeps_deposits now) = spared db db' (sweep_expired-Spares config now db)
  Step-Keeps db _ s (asks_deposit reply now u code amount purpose p m d db' h) =
      spared db db'
        (create_deposit_invoice-Spares config reply now u code amount purpose p m db d h)
  Step-Keeps db _ s (hears_paid reply now payload r db' h) =
      spared db db' (handle_paid-Spares config reply now payload db h)
  Step-Keeps db db' s (hears_expired payload) = spared db db' (handle_expired-Spares payload db)
  Step-Keeps db _ s (hears_crystalpay reply now payload r db' h) =
      spared db db' (crystalpay-Spares config reply now payload db h)
  Step-Keeps db _ s (polls reply now answer d db' h) =
      spared db db' (poll_status-Spares config reply now answer d db h)
  Step-Keeps db _ s (requests_withdrawal reply now u code amount raw cur w db' h) =
      request-Keeps config reply now u code amount raw db cur w db' s
        (sym (request_withdrawal-whole column exact config reply now u code amount raw db) ∙ h)
  Step-Keeps db _ s (records_transfer now u copy agrees) =
      subst (λ (x : Db). Keeps db.withdrawals x.withdrawals)
        (sym (record_transfer-whole column exact now u copy db)) (record_units-Keeps now u copy db)
  Step-Keeps db _ s (refunds_withdrawal now u cur copy db' owner priced agrees h) =
      let (w, found, e) =
        refund_units-ok now u cur copy db db' owner priced
          (sym (refund_failed-whole column exact now u cur copy db) ∙ h) in
      subst (λ (x : Db). Keeps db.withdrawals x.withdrawals) e
        (units_refunded-Keeps now w db (stored_row copy.id w db found) u cur copy.amount
          (agrees w found).1)
  Step-Keeps db db' s (queues_withdrawal copy) = spared db db' (queue-withdrawals copy db)
  Step-Keeps db _ s (decides_withdrawal action reply now k) =
      decide_withdrawal-Keeps now config reply (λ x. x) (λ x. Keeps-refl x.withdrawals)
        (λ n x still. still) action k db
  Step-Keeps db _ s (finishes_approval now seen still) = finish_approval-Keeps now seen db still

  pub Reaches-Keeps :
      (db db' : Db)
      → IsSound db
      → Reaches config column db db'
      → Keeps db.withdrawals db'.withdrawals
  Reaches-Keeps db _ s stays = Keeps-refl db.withdrawals
  Reaches-Keeps db _ s (steps db1 db' run last) =
      Keeps-trans db.withdrawals db1.withdrawals db'.withdrawals (Reaches-Keeps db db1 s run)
        (Step-Keeps db1 db' (Reaches-IsSound config column exact db db1 s run) last)

  -- From a sound database, through any sequence of the steps of Step, a withdrawal that is
  -- sent or rejected stays stored, under the same terms and in that status. The steps are the
  -- successful operations of the deal, deposit, webhook, poll and withdrawal services and the
  -- decisions on withdrawals. The stale sweep and the admin's settlements are no steps. A
  -- requested amount is a whole number of units, which the columns store as it is; a process
  -- settles a withdrawal from a copy that agrees with the stored row; the refund of a failed
  -- transfer finds the row pending, and the third phase of an approval finds it approved.
  pub settled-forever :
      (db db' : Db) (k : ℕ) (w : Withdrawal)
      → IsSound db
      → Reaches config column db db'
      → get_withdrawal k db ≡ some w
      → is_settled w.status ≡ true
      → (w' : Withdrawal) × (get_withdrawal k db' ≡ some w')
        × SameClaim w w'
        × (w'.status ≡ w.status)
  settled-forever db db' k w s run found over =
      let (w', there, terms, f) = Reaches-Keeps db db' s run k w found in
      (w', there, terms, settled-leads w.status w'.status over f)

  module _ (match : MatchReply) (now later : ℕ) (user : User) (wanted : Text) (amount : ℕ)
      (raw : Option Text) (db : Db) (cur : Currency) (w : Withdrawal) (db1 : Db) (s : IsSound db)
      (asked : request_units config match now user wanted amount raw db ≡ ok (cur, w, db1)) where
    stored : get_withdrawal w.id db1 ≡ some w
    stored =
        let (_, _, _, _, _, _, e) =
          request_units-ok config match now user wanted amount raw db cur w db1 asked in
        subst (λ (x : Db). get_withdrawal w.id x ≡ some w) (sym e)
          (ground (arith, get-put withdrawal_key w.id w db.withdrawals))

    -- The row that the process finds after the call is the one that it created.
    agrees :
        (db2 : Db)
        → Reaches config column db1 db2
        → (x : Withdrawal) → get_withdrawal w.id db2 ≡ some x
        → SameClaim w x
    agrees db2 run x found =
        let s1 : IsSound db1 =
          request_units-IsSound config match now user wanted amount raw db cur w db1 s asked in
        let (y, there, terms, _) = Reaches-Keeps db1 db2 s1 run w.id w stored in
        let it : y ≡ x = ground arith in subst (SameClaim w) it terms

    sound : (db2 : Db) → Reaches config column db1 db2 → IsSound db2
    sound db2 run =
        Reaches-IsSound config column exact db1 db2
          (request_units-IsSound config match now user wanted amount raw db cur w db1 s asked) run

    pub after_units-IsSound :
        (has_admin : Bool) (reply : TransferReply) (db2 : Db)
        → Reaches config column db1 db2
        → (has_admin ≡ false
            → (x : Withdrawal) → get_withdrawal w.id db2 ≡ some x
            → is_pending x.status ≡ true)
        → IsSound (after_units has_admin reply later user cur w db2)
    unfolding after_units new_withdrawal
    after_units-IsSound has_admin transferred db2 run waits =
        record_units-IsSound later user w db2 (agrees db2 run) (sound db2 run)
    after_units-IsSound true failed db2 run waits = queue_for_admins-IsSound w db2 (sound db2 run)
    after_units-IsSound false failed db2 run waits =
        let (_, _, _, _, _, we, _) =
          request_units-ok config match now user wanted amount raw db cur w db1 asked in
        elim (Option-cases (refund_units later user cur w db2)) [
          | inl nothing ↦ rw (after_units, nothing) (queue_for_admins-IsSound w db2 (sound db2 run))
          | inr (db3, back) ↦
              rw (after_units, back)
                (refund_units-IsSound later user cur w db2 db3
                  (sym (ap (λ (x : Withdrawal). x.user_id) we))
                  (sym (ap (λ (x : Withdrawal). x.currency_id) we))
                  (λ x found. (agrees db2 run x found, pending-open x.status (waits refl x found)))
                  (sound db2 run) back)
        ]

  create_units-IsSound :
      (match : MatchReply) (reply : TransferReply) (meanwhile : Db → Db) (now later : ℕ)
      (user : User) (wanted : Text) (amount : ℕ) (raw : Option Text) (db : Db) (w : Withdrawal)
      (db' : Db)
      → IsSound db
      → ((x : Db) → Reaches config column x (meanwhile x))
      → (admin_exists db.users ≡ false
          → (cur : Currency) (db1 : Db) (x : Withdrawal)
          → request_units config match now user wanted amount raw db ≡ ok (cur, w, db1)
          → get_withdrawal w.id (meanwhile db1) ≡ some x
          → is_pending x.status ≡ true)
      → create_units config match reply meanwhile now later user wanted amount raw db ≡ ok (w, db')
      → IsSound db'
  unfolding create_units
  create_units-IsSound match reply meanwhile now later user wanted amount raw db w db' s others
        waits h =
      let ((cur, w1, db1), asked, rest) =
        >>=-eq-ok (request_units config match now user wanted amount raw db) _ h in
      elim (Bool-cases (is_automatic config db)) [
        | inl auto ↦
            let same : w1 ≡ w = ground arith in
            let last : after_units (admin_exists db.users) reply later user cur w (meanwhile db1)
                ≡ db' =
              ground arith in
            let asked' : request_units config match now user wanted amount raw db
                ≡ ok (cur, w, db1) =
              ground arith in
            subst IsSound last (
              after_units-IsSound match now later user wanted amount raw db cur w db1 s asked'
                (admin_exists db.users) reply (meanwhile db1) (others db1)
                (λ nobody x found. waits nobody cur db1 x asked' found))
        | inr by_hand ↦
            let last : queue_for_admins w1 db1 ≡ db' = ground arith in
            subst IsSound last (
              queue_for_admins-IsSound w1 db1 (
                request_units-IsSound config match now user wanted amount raw db cur w1 db1 s
                  asked))
      ]

  -- Where create_withdrawal succeeds on a sound database with a whole number of units, which
  -- the columns store as it is, the database is sound afterwards, whatever sequence of the
  -- steps of Step goes on during the call of CryptoBot and whatever CryptoBot answers. Where
  -- no admin exists, that sequence has to leave the row pending. The steps are the successful
  -- operations of the deal, deposit, webhook, poll and withdrawal services and the decisions
  -- on withdrawals. The stale sweep and the admin's settlements are no steps. A requested
  -- amount is a whole number of units, which the columns store as it is; a process settles a
  -- withdrawal from a copy that agrees with the stored row; the refund of a failed transfer
  -- finds the row pending, and the third phase of an approval finds it approved.
  pub create_withdrawal-IsSound :
      (match : MatchReply) (reply : TransferReply) (meanwhile : Db → Db) (now later : ℕ)
      (user : User) (wanted : Text) (amount : ℕ) (raw : Option Text) (db : Db) (w : Withdrawal)
      (db' : Db)
      → IsSound db
      → ((x : Db) → Reaches config column x (meanwhile x))
      → (admin_exists db.users ≡ false
          → (cur : Currency) (db1 : Db) (x : Withdrawal)
          → request_withdrawal column config match now user wanted (whole amount) raw db
            ≡ ok (cur, w, db1)
          → get_withdrawal w.id (meanwhile db1) ≡ some x
          → is_pending x.status ≡ true)
      → create_withdrawal column config match reply meanwhile now later user wanted
          (whole amount)
          raw
          db
        ≡ ok (w, db')
      → IsSound db'
  create_withdrawal-IsSound match reply meanwhile now later user wanted amount raw db w db' s others
        waits h =
      create_units-IsSound match reply meanwhile now later user wanted amount raw db w db' s others
        (λ nobody cur db1 x asked. waits nobody cur db1 x (
          request_withdrawal-whole column exact config match now user wanted amount raw db ∙ asked))
        (sym (
            create_withdrawal-whole column exact config match reply meanwhile now later user wanted
              amount raw db)
          ∙ h)
