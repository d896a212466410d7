-- ===== src/Machine/Histories.antt =====
-- The deals through any sequence of the steps of `Solvency.Runs`.
use garant.Base.{
  subst, ℕ, ◌≡◌, sym, ap, ◌∙◌, true, ◌&&◌, Option, none, some, ok, arith, Bool-cases, Option-cases,
  ok_inj, inl, inr,
}
use garant.Schema.{Db, Deal, Deposit, get_deal, get_deposit, is_terminal, cryptobot, crystalpay}
use garant.Deals.Topup.{is_pending, or_else}
use garant.Deposits.Invoice.{Config, InvoiceReply}
use garant.Deposits.Invoice.Outcomes.{create_deposit_invoice-ok}
use garant.Deposits.Credit.{
  sweep_expired_deposits, lock_and_credit_deposit, lock_and_expire_deposit,
}
use garant.Deposits.Webhook.{
  CryptobotPayload, CrystalpayPayload, Reply, InvoiceState, payed, unavailable, failed, other_state,
  PollReply, no_answer, still_open, says_paid, says_expired, handle_invoice_paid,
  handle_invoice_expired, handle_crystalpay_invoice, apply_state, find_wallet_deposit, apply_poll,
  poll_deposit_status, has_credentials,
}
use garant.Solvency.{IsSound}
use garant.Solvency.Runs.{
  Step, Reaches, creates, creates_with_topup, accepts, declines, finishes, requests_cancel,
  revokes_cancel, accepts_cancel, disputes, resolves, gives_up_topup, sweeps_inactivity,
  sweeps_topups, sweeps_deposits, asks_deposit, hears_paid, hears_expired, hears_crystalpay, polls,
  requests_withdrawal, records_transfer, refunds_withdrawal, queues_withdrawal, decides_withdrawal,
  finishes_approval, stays, steps, Reaches-IsSound,
}
use garant.Solvency.WebhookSteps.{handle_invoice_paid-ok}
use garant.Machine.CreditMoves.{
  kept, credit_deposit-Evolves, accept_payment-Evolves, expire_deposit-deals, sweep_expired-deals,
  close_unless-deals,
}
use garant.Machine.LifeMoves.{
  accept_deal-Evolves, decline_deal-Evolves, finish_deal-Evolves, request_cancel-Evolves,
  revoke_cancel-Evolves, accept_cancel-Evolves, start_arbitration-Evolves,
  resolve_arbitration-Evolves,
}
use garant.Machine.NewMoves.{create_deal-Evolves, create_with_topup-Evolves}
use garant.Withdrawals.Amount.{Column, IsExact}
use garant.Withdrawals.Transfer.Whole.{
  request_withdrawal-whole, record_transfer-whole, refund_failed-whole,
}
use garant.Withdrawals.Transfer.{record_units, queue_for_admins}
use garant.Withdrawals.Decide.{state_of, decide_withdrawal, finish_approval}
use garant.Machine.ClaimDeals.{
  request-deals, record_units-deals, refund_units-deals, queue-deals, decide_withdrawal-deals,
  finish_approval-deals,
}
use garant.Machine.SweepMoves.{sweep_inactivity-Evolves, sweep_pending_topup-Evolves}
use garant.Solvency.Steps.{SameTerms}
use garant.Machine.{Follows-terminal, Evolves, Evolves-refl, Evolves-trans}
use garant.Machine.TopupMoves.{cancel_pending_topup-Evolves}

module _ (config : Config) (column : Column) (exact : IsExact column) where
  module _ (reply : InvoiceReply) (now : ℕ) where
    paid-Evolves :
        (payload : CryptobotPayload) (db : Db) {r : Reply} {db' : Db}
        → handle_invoice_paid config reply now payload db ≡ ok (r, db')
        → Evolves db.deals db'.deals
    unfolding handle_invoice_paid
    paid-Evolves payload db {r = r} {db' = db'} h = elim (Option-cases payload.invoice_id) [
      | inl missing ↦ kept db db' (ground arith)
      | inr (k, known) ↦
          elim (handle_invoice_paid-ok config reply now payload k db {r = r} {db' = db'} known h) [
            | inl e ↦ kept db db' (ap (λ (x : Db). x.deals) e)
            | inr (d, found, done) ↦
                accept_payment-Evolves config reply now payload.amount d db {r = r} {db' = db'} done
          ]
    ]

    state-Evolves :
        (state : InvoiceState) (reported : Option ℕ) (d : Deposit) (db : Db) {r : Reply} {db' : Db}
        → apply_state config reply now state reported d db ≡ ok (r, db')
        → Evolves db.deals db'.deals
    unfolding apply_state
    state-Evolves payed reported d db {r = r} {db' = db'} h =
        elim (Bool-cases (is_pending d.status)) [
          | inl waiting ↦
              accept_payment-Evolves config reply now reported d db {r = r} {db' = db'}
                (ground arith)
          | inr over ↦ kept db db' (ground arith)
        ]
    state-Evolves unavailable reported d db {db' = db'} h =
        kept db db' (sym (ap (λ (p : Reply × Db). p.1.deals) (ok_inj h)) ∙ close_unless-deals d db)
    state-Evolves failed reported d db {db' = db'} h =
        kept db db' (sym (ap (λ (p : Reply × Db). p.1.deals) (ok_inj h)) ∙ close_unless-deals d db)
    state-Evolves other_state reported d db {db' = db'} h =
        kept db db' (sym (ap (λ (p : Reply × Db). p.1.deals) (ok_inj h)))

    crystalpay-Evolves :
        (payload : CrystalpayPayload) (db : Db) {r : Reply} {db' : Db}
        → handle_crystalpay_invoice config reply now payload db ≡ ok (r, db')
        → Evolves db.deals db'.deals
    unfolding handle_crystalpay_invoice
    crystalpay-Evolves payload db {r = r} {db' = db'} h =
        elim (Option-cases (or_else payload.id payload.invoice_id)) [
          | inl missing ↦ kept db db' (ground arith)
          | inr (k, known) ↦ elim (Option-cases (find_wallet_deposit k crystalpay db)) [
            | inl unknown ↦ kept db db' (ground arith)
            | inr (d, found) ↦
                state-Evolves payload.state payload.amount d db {r = r} {db' = db'} (ground arith)
          ]
        ]

    poll-Evolves :
        (answer : PollReply) (k : ℕ) (db : Db) {db' : Db}
        → apply_poll config reply now answer k db ≡ ok db'
        → Evolves db.deals db'.deals
    unfolding apply_poll lock_and_credit_deposit lock_and_expire_deposit
    poll-Evolves says_paid k db {db' = db'} h = elim (Option-cases (get_deposit k db)) [
      | inl missing ↦ absurd (ground arith)
      | inr (d, found) ↦ elim (Bool-cases (is_pending d.status)) [
        | inl waiting ↦ credit_deposit-Evolves config reply now none d db {db' = db'} (ground arith)
        | inr over ↦ kept db db' (ground arith)
      ]
    ]
    poll-Evolves says_expired k db {db' = db'} h = elim (Option-cases (get_deposit k db)) [
      | inl missing ↦ absurd (ground arith)
      | inr (d, found) ↦ kept db db' (ground (arith, expire_deposit-deals d db))
    ]
    poll-Evolves no_answer k db {db' = db'} h = kept db db' (ground arith)
    poll-Evolves still_open k db {db' = db'} h = kept db db' (ground arith)

    poll_status-Evolves :
        (answer : PollReply) (d : Deposit) (db : Db) {db' : Db}
        → poll_deposit_status config reply now answer d db ≡ ok db'
        → Evolves db.deals db'.deals
    unfolding poll_deposit_status
    poll_status-Evolves answer d db {db' = db'} h =
        elim (Bool-cases (is_pending d.status && has_credentials config d.provider)) [
          | inl asked ↦ poll-Evolves answer d.id db {db' = db'} (ground arith)
          | inr skipped ↦ kept db db' (ground arith)
        ]

  expired-deals :
      (payload : CryptobotPayload) (db : Db)
      → (handle_invoice_expired payload db).1.deals ≡ db.deals
  unfolding handle_invoice_expired
  expired-deals payload db = elim (Option-cases payload.invoice_id) [
    | inl missing ↦ ground arith
    | inr (k, known) ↦ elim (Option-cases (find_wallet_deposit k cryptobot db)) [
      | inl unknown ↦ ground arith
      | inr (d, found) ↦ ground (arith, close_unless-deals d db)
    ]
  ]

  Step-Evolves : (db db' : Db) → IsSound db → Step config column db db' → Evolves db.deals db'.deals
  Step-Evolves db _ s (creates now b l code raw p d db' h) =
      create_deal-Evolves now b l code raw p db s h
  Step-Evolves db _ s (creates_with_topup reply now b l code raw p d deposit db' h) =
      create_with_topup-Evolves now b l code raw p db s config reply h
  Step-Evolves db _ s (accepts now d u db' f h) = accept_deal-Evolves now d u db f h
  Step-Evolves db _ s (declines now d u db' f h) = decline_deal-Evolves now d u db f h
  Step-Evolves db _ s (finishes now d u db' f h) = finish_deal-Evolves now d u db f h
  Step-Evolves db _ s (requests_cancel now d u db' f h) = request_cancel-Evolves now d u db f h
  Step-Evolves db _ s (revokes_cancel d u db' f h) = revoke_cancel-Evolves 0 d u db f h
  Step-Evolves db _ s (accepts_cancel now d u db' f h) = accept_cancel-Evolves now d u db f h
  Step-Evolves db _ s (disputes d u reason db' f h) = start_arbitration-Evolves d u reason db f h
  Step-Evolves db _ s (resolves now d admin winner db' f h) =
      resolve_arbitration-Evolves now d admin winner db f h
  Step-Evolves db _ s (gives_up_topup now d u db' f h) = cancel_pending_topup-Evolves now d u db f h
  Step-Evolves db _ s (sweeps_inactivity now) = sweep_inactivity-Evolves now db s
  Step-Evolves db _ s (sweeps_topups now) = sweep_pending_topup-Evolves now db s
  Step-Evolves db _ s (sweeps_deposits now) =
      kept db (sweep_expired_deposits config now db).1 (sweep_expired-deals config now db)
  Step-Evolves db _ s (asks_deposit reply now u code amount purpose p m d db' h) =
      let (_, _, _, (_, _, e)) =
        create_deposit_invoice-ok config reply now u code amount purpose p m db h in
      kept db db' (ap (λ (x : Db). x.deals) e)
  Step-Evolves db _ s (hears_paid reply now payload r db' h) = paid-Evolves reply now payload db h
  Step-Evolves db _ s (hears_expired payload) =
      kept db (handle_invoice_expired payload db).1 (expired-deals payload db)
  Step-Evolves db _ s (hears_crystalpay reply now payload r db' h) =
      crystalpay-Evolves reply now payload db h
  Step-Evolves db _ s (polls reply now answer d db' h) = poll_status-Evolves reply now answer d db h
  Step-Evolves db _ s (requests_withdrawal reply now u code amount raw cur w db' h) = kept db db' (
      request-deals config reply now u code amount raw db cur w db'
        (sym (request_withdrawal-whole column exact config reply now u code amount raw db) ∙ h))
  Step-Evolves db _ s (records_transfer now u copy agrees) =
      subst (λ (x : Db). Evolves db.deals x.deals)
        (sym (record_transfer-whole column exact now u copy db))
        (kept db (record_units now u copy db) (record_units-deals now u copy db))
  Step-Evolves db _ s (refunds_withdrawal now u cur copy db' owner priced agrees h) = kept db db' (
      refund_units-deals now u cur copy db db' owner priced
        (sym (refund_failed-whole column exact now u cur copy db) ∙ h))
  Step-Evolves db _ s (queues_withdrawal copy) =
      kept db (queue_for_admins copy db) (queue-deals copy db)
  Step-Evolves db _ s (decides_withdrawal action reply now k) =
      kept db (state_of (decide_withdrawal action config reply (λ x. x) now k db))
        (decide_withdrawal-deals now config reply action k db)
  Step-Evolves db _ s (finishes_approval now seen still) =
      kept db (state_of (finish_approval now seen db)) (finish_approval-deals now seen db)

  -- From a sound database, through any sequence of the steps of Step, every stored deal stays
  -- stored, with the same parties, currency and amount, and at a status that the edges between
  -- statuses lead to. The steps are the successful operations of the deal, deposit, webhook,
  -- poll and withdrawal services and the decisions on withdrawals. The stale sweep and the
  -- admin's settlements are no steps. A requested amount is a whole number of units, which the
  -- columns store as it is; a process settles a withdrawal from a copy that agrees with the
  -- stored row; the refund of a failed transfer finds the row pending, and the third phase of
  -- an approval finds it approved.
  pub Reaches-Evolves :
      (db db' : Db) → IsSound db → Reaches config column db db' → Evolves db.deals db'.deals
  Reaches-Evolves db _ s stays = Evolves-refl db.deals
  Reaches-Evolves db _ s (steps db1 db' run last) =
      Evolves-trans db.deals db1.deals db'.deals (Reaches-Evolves db db1 s run)
        (Step-Evolves db1 db' (Reaches-IsSound config column exact db db1 s run) last)

  -- From a sound database, through any sequence of the steps of Step, a stored deal in a
  -- terminal status stays stored, under the same terms and in that status. The steps are the
  -- successful operations of the deal, deposit, webhook, poll and withdrawal services and the
  -- decisions on withdrawals. The stale sweep and the admin's settlements are no steps. A
  -- requested amount is a whole number of units, which the columns store as it is; a process
  -- settles a withdrawal from a copy that agrees with the stored row; the refund of a failed
  -- transfer finds the row pending, and the third phase of an approval finds it approved.
  pub terminal-forever :
      (db db' : Db) (k : ℕ) (d : Deal)
      → IsSound db
      → Reaches config column db db'
      → get_deal k db ≡ some d
      → is_terminal d.status ≡ true
      → (d' : Deal) × (get_deal k db' ≡ some d') × SameTerms d d' × (d'.status ≡ d.status)
  terminal-forever db db' k d s run found over =
      let (d', there, terms, f) = Reaches-Evolves db db' s run k d found in
      (d', there, terms, Follows-terminal d.status d'.status over f)
