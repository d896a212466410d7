-- ===== src/Solvency/Runs.antt =====
-- All that the services do to the database as one step relation, and the states that it reaches.
-- A step on a deal takes the row as it is stored, which is what `SELECT … FOR UPDATE` gives. A
-- withdrawal that a process has created is settled from the copy that the process holds, which
-- agrees with the stored row. Two conditions are the relation's and not the code's: the refund of a
-- failed transfer finds its row pending, and the third phase of an approval finds its row approved
-- (Solvency/Races is about what follows otherwise). The requested amount is a whole number of units.
-- The stale sweep is no step: it writes no ledger entry.
use garant.Base.{ℕ, ◌≡◌, ◌∙◌, subst, sym, Option, some, true, ok, Bool}
use garant.Base.Text.{Text}
use garant.Money.{Decimal}
use garant.Schema.{Db, Deal, Deposit, User, Winner, Provider, get_deal}
use garant.Deals.Create.{create_deal, create_deal_with_topup}
use garant.Deals.Topup.{cancel_pending_topup}
use garant.Deals.Lifecycle.{
  accept_deal, decline_deal, finish_deal, request_cancel, revoke_cancel, accept_cancel,
}
use garant.Deals.Arbitration.{start_arbitration, resolve_arbitration}
use garant.Deals.Sweep.{sweep_inactivity, sweep_pending_topup}
use garant.Deposits.Invoice.{Config, InvoiceReply, create_deposit_invoice}
use garant.Deposits.Credit.{sweep_expired_deposits}
use garant.Deposits.Webhook.{
  CryptobotPayload, CrystalpayPayload, PollReply, Reply, handle_invoice_paid,
  handle_invoice_expired, handle_crystalpay_invoice, poll_deposit_status,
}
use garant.Deposits.Invoice.Outcomes.{create_deposit_invoice-ok}
use garant.Schema.{Purpose}
use garant.Schema.{Currency, Withdrawal, get_withdrawal}
use garant.Withdrawals.Address.{MatchReply}
use garant.Withdrawals.Amount.{Column, whole, IsExact}
use garant.Withdrawals.Request.{request_withdrawal}
use garant.Withdrawals.Transfer.Whole.{
  request_withdrawal-whole, record_transfer-whole, refund_failed-whole,
}
use garant.Withdrawals.Transfer.{
  TransferReply, is_pending, record_transfer, refund_failed, queue_for_admins,
}
use garant.Withdrawals.Decide.{Action, state_of, decide_withdrawal, finish_approval}
use garant.Solvency.Claims.{SameClaim}
use garant.Solvency.WithdrawSteps.{pending-open, request_units-IsSound, record_units-IsSound}
use garant.Solvency.DecideSteps.{
  StillApproved, refund_units-IsSound, queue_for_admins-IsSound, decide_withdrawal-IsSound,
  finish_approval-IsSound,
}
use garant.Solvency.{IsSound}
use garant.Solvency.Funding.{put_deposit-IsSound, next_deposit-IsSound}
use garant.Solvency.CreateSteps.{create_deal-IsSound, create_deal_with_topup-IsSound}
use garant.Solvency.LifeSteps.{
  accept_deal-IsSound, decline_deal-IsSound, finish_deal-IsSound, request_cancel-IsSound,
  revoke_cancel-IsSound, accept_cancel-IsSound,
}
use garant.Solvency.DisputeSteps.{start_arbitration-IsSound, resolve_arbitration-IsSound}
use garant.Solvency.Expiry.{cancel_pending_topup-IsSound}
use garant.Solvency.SweepSteps.{sweep_inactivity-IsSound, sweep_pending_topup-IsSound}
use garant.Solvency.CreditSteps.{sweep_expired_deposits-IsSound}
use garant.Solvency.WebhookSteps.{
  handle_invoice_paid-IsSound, handle_invoice_expired-IsSound, handle_crystalpay_invoice-IsSound,
  poll_deposit_status-IsSound,
}

module _ (config : Config) (column : Column) where
  pub data Step (db : Db) : Db → Type 0 where
    creates :
        (now : ℕ) (buyer seller : User) (code : Text) (raw : Decimal) (provider : Provider)
        (d : Deal) (db' : Db)
        → create_deal now buyer seller code raw provider db ≡ ok (d, db')
        → Step db db'
    creates_with_topup :
        (reply : InvoiceReply) (now : ℕ) (buyer seller : User) (code : Text) (raw : Decimal)
        (provider : Provider) (d : Deal) (deposit : Option Deposit) (db' : Db)
        → create_deal_with_topup config reply now buyer seller code raw provider db
          ≡ ok (d, deposit, db')
        → Step db db'
    accepts :
        (now : ℕ) (d : Deal) (user_id : ℕ) (db' : Db)
        → get_deal d.id db ≡ some d
        → accept_deal now d user_id db ≡ ok db'
        → Step db db'
    declines :
        (now : ℕ) (d : Deal) (user_id : ℕ) (db' : Db)
        → get_deal d.id db ≡ some d
        → decline_deal now d user_id db ≡ ok db'
        → Step db db'
    finishes :
        (now : ℕ) (d : Deal) (user_id : ℕ) (db' : Db)
        → get_deal d.id db ≡ some d
        → finish_deal now d user_id db ≡ ok db'
        → Step db db'
    requests_cancel :
        (now : ℕ) (d : Deal) (user_id : ℕ) (db' : Db)
        → get_deal d.id db ≡ some d
        → request_cancel now d user_id db ≡ ok db'
        → Step db db'
    revokes_cancel :
        (d : Deal) (user_id : ℕ) (db' : Db)
        → get_deal d.id db ≡ some d
        → revoke_cancel d user_id db ≡ ok db'
        → Step db db'
    accepts_cancel :
        (now : ℕ) (d : Deal) (user_id : ℕ) (db' : Db)
        → get_deal d.id db ≡ some d
        → accept_cancel now d user_id db ≡ ok db'
        → Step db db'
    disputes :
        (d : Deal) (user_id : ℕ) (reason : Text) (db' : Db)
        → get_deal d.id db ≡ some d
        → start_arbitration d user_id reason db ≡ ok db'
        → Step db db'
    resolves :
        (now : ℕ) (d : Deal) (admin : User) (winner : Winner) (db' : Db)
        → get_deal d.id db ≡ some d
        → resolve_arbitration now d admin winner db ≡ ok db'
        → Step db db'
    gives_up_topup :
        (now : ℕ) (d : Deal) (user_id : ℕ) (db' : Db)
        → get_deal d.id db ≡ some d
        → cancel_pending_topup now d user_id db ≡ ok db'
        → Step db db'
    sweeps_inactivity : (now : ℕ) → Step db (sweep_inactivity now db).1
    sweeps_topups : (now : ℕ) → Step db (sweep_pending_topup now db).1
    sweeps_deposits : (now : ℕ) → Step db (sweep_expired_deposits config now db).1
    asks_deposit :
        (reply : InvoiceReply) (now user_id : ℕ) (code : Text) (amount : ℕ) (purpose : Purpose)
        (provider : Provider) (min_check : Bool) (d : Deposit) (db' : Db)
        → create_deposit_invoice config reply now user_id code amount purpose provider min_check db
          ≡ ok (d, db')
        → Step db db'
    hears_paid :
        (reply : InvoiceReply) (now : ℕ) (payload : CryptobotPayload) (r : Reply) (db' : Db)
        → handle_invoice_paid config reply now payload db ≡ ok (r, db')
        → Step db db'
    hears_expired : (payload : CryptobotPayload) → Step db (handle_invoice_expired payload db).1
    hears_crystalpay :
        (reply : InvoiceReply) (now : ℕ) (payload : CrystalpayPayload) (r : Reply) (db' : Db)
        → handle_crystalpay_invoice config reply now payload db ≡ ok (r, db')
        → Step db db'
    polls :
        (reply : InvoiceReply) (now : ℕ) (answer : PollReply) (d : Deposit) (db' : Db)
        → poll_deposit_status config reply now answer d db ≡ ok db'
        → Step db db'
    requests_withdrawal :
        (reply : MatchReply) (now : ℕ) (user : User) (code : Text) (amount : ℕ) (raw : Option Text)
        (cur : Currency) (w : Withdrawal) (db' : Db)
        → request_withdrawal column config reply now user code (whole amount) raw db
          ≡ ok (cur, w, db')
        → Step db db'
    records_transfer :
        (now : ℕ) (user : User) (copy : Withdrawal)
        → ((w : Withdrawal) → get_withdrawal copy.id db ≡ some w → SameClaim copy w)
        → Step db (record_transfer column now user (whole copy.amount) copy db)
    refunds_withdrawal :
        (now : ℕ) (user : User) (cur : Currency) (copy : Withdrawal) (db' : Db)
        → user.id ≡ copy.user_id
        → cur.id ≡ copy.currency_id
        → ((w : Withdrawal)
            → get_withdrawal copy.id db ≡ some w
            → SameClaim copy w × (is_pending w.status ≡ true))
        → refund_failed column now user cur (whole copy.amount) copy db ≡ some db'
        → Step db db'
    queues_withdrawal : (copy : Withdrawal) → Step db (queue_for_admins copy db)
    decides_withdrawal :
        (action : Action) (reply : TransferReply) (now withdrawal_id : ℕ)
        → Step db (state_of (decide_withdrawal action config reply (λ x. x) now withdrawal_id db))
    finishes_approval :
        (now : ℕ) (seen : Withdrawal)
        → StillApproved seen.id db
        → Step db (state_of (finish_approval now seen db))

  pub data Reaches (db : Db) : Db → Type 0 where
    stays : Reaches db db
    steps : (db1 db2 : Db) → Reaches db db1 → Step db1 db2 → Reaches db db2

module _ (config : Config) (column : Column) (exact : IsExact column) where
  Step-IsSound : (db db' : Db) → IsSound db → Step config column db db' → IsSound db'
  Step-IsSound db _ s (creates now b l code raw p d db' h) =
      create_deal-IsSound now b l code raw p db s h
  Step-IsSound db _ s (creates_with_topup reply now b l code raw p d deposit db' h) =
      create_deal_with_topup-IsSound now b l code raw p db s config reply h
  Step-IsSound db _ s (accepts now d u db' f h) = accept_deal-IsSound now d u db s f h
  Step-IsSound db _ s (declines now d u db' f h) = decline_deal-IsSound now d u db s f h
  Step-IsSound db _ s (finishes now d u db' f h) = finish_deal-IsSound now d u db s f h
  Step-IsSound db _ s (requests_cancel now d u db' f h) = request_cancel-IsSound now d u db s f h
  Step-IsSound db _ s (revokes_cancel d u db' f h) = revoke_cancel-IsSound 0 d u db s f h
  Step-IsSound db _ s (accepts_cancel now d u db' f h) = accept_cancel-IsSound now d u db s f h
  Step-IsSound db _ s (disputes d u reason db' f h) = start_arbitration-IsSound d u reason db s f h
  Step-IsSound db _ s (resolves now d admin winner db' f h) =
      resolve_arbitration-IsSound now d admin winner db s f h
  Step-IsSound db _ s (gives_up_topup now d u db' f h) =
      cancel_pending_topup-IsSound now d u db f s h
  Step-IsSound db _ s (sweeps_inactivity now) = sweep_inactivity-IsSound now db s
  Step-IsSound db _ s (sweeps_topups now) = sweep_pending_topup-IsSound now db s
  Step-IsSound db _ s (sweeps_deposits now) = sweep_expired_deposits-IsSound config now db s
  Step-IsSound db _ s (asks_deposit reply now u code amount purpose p m d db' h) =
      let (_, _, _, (_, _, e)) =
        create_deposit_invoice-ok config reply now u code amount purpose p m db h in
      subst IsSound (sym e) (put_deposit-IsSound d _ (next_deposit-IsSound _ db s))
  Step-IsSound db _ s (hears_paid reply now payload r db' h) =
      handle_invoice_paid-IsSound config reply now payload db s h
  Step-IsSound db _ s (hears_expired payload) = handle_invoice_expired-IsSound payload db s
  Step-IsSound db _ s (hears_crystalpay reply now payload r db' h) =
      handle_crystalpay_invoice-IsSound config reply now payload db s h
  Step-IsSound db _ s (polls reply now answer d db' h) =
      poll_deposit_status-IsSound config reply now answer d db s h
  Step-IsSound db _ s (requests_withdrawal reply now u code amount raw cur w db' h) =
      request_units-IsSound config reply now u code amount raw db cur w db' s
        (sym (request_withdrawal-whole column exact config reply now u code amount raw db) ∙ h)
  Step-IsSound db _ s (records_transfer now u copy agrees) =
      subst IsSound (sym (record_transfer-whole column exact now u copy db))
        (record_units-IsSound now u copy db agrees s)
  Step-IsSound db _ s (refunds_withdrawal now u cur copy db' owner priced agrees h) =
      refund_units-IsSound now u cur copy db db' owner priced
        (λ w found. ((agrees w found).0, pending-open w.status (agrees w found).1)) s
        (sym (refund_failed-whole column exact now u cur copy db) ∙ h)
  Step-IsSound db _ s (queues_withdrawal copy) = queue_for_admins-IsSound copy db s
  Step-IsSound db _ s (decides_withdrawal action reply now k) =
      decide_withdrawal-IsSound now config reply (λ x. x) (λ x t. t) (λ n x still. still) action k
        db s
  Step-IsSound db _ s (finishes_approval now seen still) =
      finish_approval-IsSound now seen db still s

  -- From a sound database, every database that a sequence of the steps of Step reaches is
  -- sound: for each user and currency what is locked is exactly what the running deals and
  -- open withdrawals hold, the ledger replays to the balance rows, deals have two parties,
  -- aligned amounts and distinct ids, withdrawals have distinct ids, and currencies are found
  -- by their id. The steps are the successful operations of the deal, deposit, webhook, poll
  -- and withdrawal services and the decisions on withdrawals. The stale sweep and the admin's
  -- settlements are no steps. A requested amount is a whole number of units, which the columns
  -- store as it is; a process settles a withdrawal from a copy that agrees with the stored
  -- row; the refund of a failed transfer finds the row pending, and the third phase of an
  -- approval finds it approved.
  pub Reaches-IsSound : (db db' : Db) → IsSound db → Reaches config column db db' → IsSound db'
  Reaches-IsSound db _ s stays = s
  Reaches-IsSound db _ s (steps db1 db' run last) =
      Step-IsSound db1 db' (Reaches-IsSound db db1 s run) last
