-- ===== src/Machine/CreditSpares.antt =====
-- Settled top-ups, credited deposits, webhooks and polling leave the withdrawals alone
-- (backend/app/services_deals.py, backend/app/services_wallet.py, backend/app/services_payments.py).
use garant.Base.{
  ℕ, ◌+◌, ◌-◌, ◌≡◌, sym, ap, ◌∙◌, Bool, false, not, ◌||◌, ◌&&◌, Option, none, arith, ok, ltb, ◌==◌,
  Bool-cases, Option-cases, Result-cases, >>=-eq-ok, ok_inj, inl, inr,
}
use garant.Money.{quantize_money}
use garant.Wallet.{Wallet, lock_user_balance}
use garant.Schema.{
  Db, Deal, Deposit, Currency, Purpose, wallet, trust, deal_topup, cryptobot, crystalpay,
  get_currency, get_deposit, get_user, notify, deals, about_deal,
}
use garant.Deals.Status.{is_pending_topup}
use garant.Deals.Topup.{
  issue_remaining_topup_invoice, remaining_total, settle_partial, settle_activate, settle_late,
  settle_waiting, settle_linked, complete_deal_topup_payment, commission_due, is_paid, linked_deal,
  is_pending, or_else, paid_or_nominal,
}
use garant.Deposits.Invoice.{Config, InvoiceReply, create_deposit_invoice}
use garant.Deposits.Credit.{
  credit_trust, credit_wallet, credit_by_purpose, credit_deposit, tell_if_priced, credit_amount_of,
  decimals_of, quantize_opt, lock_and_credit_deposit, lock_and_expire_deposit,
}
use garant.Deposits.Webhook.{
  CryptobotPayload, CrystalpayPayload, Reply, InvoiceState, payed, unavailable, failed, other_state,
  PollReply, no_answer, still_open, says_paid, says_expired, handle_invoice_paid,
  handle_invoice_expired, handle_crystalpay_invoice, apply_state, find_wallet_deposit, apply_poll,
  poll_deposit_status, has_credentials, accept_payment, amounts_match, is_deal_topup,
}
use garant.Solvency.WebhookSteps.{handle_invoice_paid-ok}
use garant.Machine.Untouched.{
  Spares, rows, create_deposit_invoice-Spares, tell_if_priced-Spares, expire_deposit-Spares,
  close_unless-Spares,
}

module _ (config : Config) (reply : InvoiceReply) (now : ℕ) where
  issue-Spares :
      (d : Deal) (cur : Currency) (balance : ℕ) (db : Db) {deposit : Option Deposit} {db' : Db}
      → issue_remaining_topup_invoice config reply now d cur balance db ≡ ok (deposit, db')
      → Spares db db'
  unfolding issue_remaining_topup_invoice
  issue-Spares d cur balance db {db' = db'} h = elim (Option-cases (get_user d.buyer_id db)) [
    | inl missing ↦ absurd (ground arith)
    | inr (u, known) ↦ elim (Bool-cases (remaining_total d cur balance == 0)) [
      | inl nothing ↦ ground arith
      | inr something ↦
          elim (Result-cases (
            create_deposit_invoice config reply now u.id cur.code (remaining_total d cur balance)
              deal_topup d.payment_provider false db)) [
                | inl (e, raised) ↦ absurd (ground arith)
                | inr ((p, db1), issued) ↦ ground (
                  arith,
                  create_deposit_invoice-Spares config reply now u.id cur.code
                      (remaining_total d cur balance) deal_topup d.payment_provider false db p
                      issued,
                )
              ]
    ]
  ]

  module _ (paid : ℕ) (deposit : Deposit) (cur : Currency) where
    partial-Spares :
        (credit : ℕ) (d : Deal) (w : Wallet) (balance : ℕ) (db : Db) {db' : Db}
        → settle_partial config reply now paid credit deposit d cur w balance db ≡ ok db'
        → Spares db db'
    unfolding settle_partial
    partial-Spares credit d w balance db h =
        let (made, issued, e) =
          >>=-eq-ok (issue_remaining_topup_invoice config reply now d cur balance _)
            (λ r. ok (notify d.buyer_id deals (about_deal d.id) r.1)) h in
        sym (ap rows (ok_inj e)) ∙ issue-Spares d cur balance _ issued

    waiting-Spares :
        (d : Deal) (db : Db) {db' : Db}
        → settle_waiting config reply now paid deposit d cur db ≡ ok db'
        → Spares db db'
    unfolding settle_waiting settle_activate
    waiting-Spares d db {db' = db'} h = elim (Bool-cases (ltb paid (commission_due d cur))) [
      | inl short ↦
          partial-Spares paid (record d { commission_paid = d.commission_paid }) row
            (balance + paid) db {db' = db'} (ground arith)
      | inr enough ↦ elim (Bool-cases (ltb (balance + credit) amt)) [
        | inl low ↦
            partial-Spares credit (record d { commission_paid = charge }) row (balance + credit) db
              {db' = db'} (ground arith)
        | inr full ↦ ground arith
      ]
    ]
      where
        row : Wallet
        row = (lock_user_balance d.buyer_id cur.id db.funds).1

        amt : ℕ
        amt = quantize_money d.amount cur.decimals

        balance : ℕ
        balance = (lock_user_balance d.buyer_id cur.id db.funds).0.amount

        credit : ℕ
        credit = quantize_money (paid - commission_due d cur) cur.decimals

        charge : Bool
        charge = d.commission_paid || ltb 0 (commission_due d cur)

  linked-Spares :
      (paid_amount : Option ℕ) (deposit : Deposit) (d : Deal) (db : Db) {db' : Db}
      → settle_linked config reply now paid_amount deposit d db ≡ ok db'
      → Spares db db'
  unfolding settle_linked settle_late
  linked-Spares paid_amount deposit d db {db' = db'} h =
      elim (Option-cases (get_currency d.currency_id db)) [
        | inl missing ↦ absurd (ground arith)
        | inr (cur, paid_in) ↦ elim (Bool-cases (is_pending_topup d.status)) [
          | inl waiting ↦
              waiting-Spares
                (quantize_money (paid_or_nominal paid_amount deposit.amount) cur.decimals) deposit
                cur d db {db' = db'} (ground arith)
          | inr late ↦ ground arith
        ]
      ]

  complete-Spares :
      (paid_amount : Option ℕ) (deposit : Deposit) (db : Db) {db' : Db}
      → complete_deal_topup_payment config reply now paid_amount deposit db ≡ ok db'
      → Spares db db'
  unfolding complete_deal_topup_payment
  complete-Spares paid_amount deposit db {db' = db'} h =
      elim (Bool-cases (is_paid deposit.status)) [
        | inl old ↦ ground arith
        | inr new ↦ elim (Option-cases (linked_deal deposit db)) [
          | inl unlinked ↦ ground arith
          | inr (d, linked) ↦ linked-Spares paid_amount deposit d db {db' = db'} (ground arith)
        ]
      ]

  by_purpose-Spares :
      (p : Purpose) (paid_amount : Option ℕ) (d : Deposit) (db : Db) {db' : Db}
      → credit_by_purpose p config reply now paid_amount d db ≡ ok db'
      → Spares db db'
  unfolding credit_by_purpose credit_trust credit_wallet
  by_purpose-Spares deal_topup paid_amount d db h = complete-Spares paid_amount d db h
  by_purpose-Spares wallet paid_amount d db h = sym (ap rows (ok_inj h)) ∙ tell_if_priced-Spares d _
  by_purpose-Spares trust paid_amount d db {db' = db'} h =
      elim (Option-cases (get_user d.user_id db)) [
        | inl missing ↦ absurd (ground arith)
        | inr (u, known) ↦
            let (db1, done, e) =
              >>=-eq-ok
                (credit_trust now (credit_amount_of d paid_amount (decimals_of d.currency_id db))
                  (quantize_opt paid_amount (decimals_of d.currency_id db)) d db)
                (λ x. ok (tell_if_priced d x)) h in
            let written : db1.withdrawals ≡ db.withdrawals = ground arith in
            sym (ap rows (ok_inj e)) ∙ tell_if_priced-Spares d db1 ∙ written
      ]

  credit_deposit-Spares :
      (paid_amount : Option ℕ) (d : Deposit) (db : Db) {db' : Db}
      → credit_deposit config reply now paid_amount d db ≡ ok db'
      → Spares db db'
  unfolding credit_deposit
  credit_deposit-Spares paid_amount d db {db' = db'} h = elim (Bool-cases (is_paid d.status)) [
    | inl old ↦ ground arith
    | inr new ↦ by_purpose-Spares d.purpose paid_amount d db {db' = db'} (ground arith)
  ]

  accept_payment-Spares :
      (reported : Option ℕ) (d : Deposit) (db : Db) {r : Reply} {db' : Db}
      → accept_payment config reply now reported d db ≡ ok (r, db')
      → Spares db db'
  unfolding accept_payment
  accept_payment-Spares reported d db {db' = db'} h =
      elim (Bool-cases (not (is_deal_topup d.purpose) && not (amounts_match reported d.amount))) [
        | inl differs ↦ ground arith
        | inr fits ↦ elim (Result-cases (credit_deposit config reply now reported d db)) [
          | inl (e, raised) ↦ absurd (ground arith)
          | inr (db1, done) ↦ credit_deposit-Spares reported d db {db' = db'} (ground arith)
        ]
      ]

  pub handle_paid-Spares :
      (payload : CryptobotPayload) (db : Db) {r : Reply} {db' : Db}
      → handle_invoice_paid config reply now payload db ≡ ok (r, db')
      → Spares db db'
  unfolding handle_invoice_paid
  handle_paid-Spares payload db {r = r} {db' = db'} h = elim (Option-cases payload.invoice_id) [
    | inl missing ↦ ground arith
    | inr (k, known) ↦
        elim (handle_invoice_paid-ok config reply now payload k db {r = r} {db' = db'} known h) [
          | inl e ↦ ap rows e
          | inr (d, found, done) ↦ accept_payment-Spares payload.amount d db {r = r} done
        ]
  ]

  state-Spares :
      (state : InvoiceState) (reported : Option ℕ) (d : Deposit) (db : Db) {r : Reply} {db' : Db}
      → apply_state config reply now state reported d db ≡ ok (r, db')
      → Spares db db'
  unfolding apply_state
  state-Spares payed reported d db {r = r} {db' = db'} h = elim (Bool-cases (is_pending d.status)) [
    | inl waiting ↦ accept_payment-Spares reported d db {r = r} {db' = db'} (ground arith)
    | inr over ↦ ground arith
  ]
  state-Spares unavailable reported d db h =
      sym (ap (λ (p : Reply × Db). rows p.1) (ok_inj h)) ∙ close_unless-Spares d db
  state-Spares failed reported d db h =
      sym (ap (λ (p : Reply × Db). rows p.1) (ok_inj h)) ∙ close_unless-Spares d db
  state-Spares other_state reported d db h = sym (ap (λ (p : Reply × Db). rows p.1) (ok_inj h))

  pub crystalpay-Spares :
      (payload : CrystalpayPayload) (db : Db) {r : Reply} {db' : Db}
      → handle_crystalpay_invoice config reply now payload db ≡ ok (r, db')
      → Spares db db'
  unfolding handle_crystalpay_invoice
  crystalpay-Spares payload db {r = r} {db' = db'} h =
      elim (Option-cases (or_else payload.id payload.invoice_id)) [
        | inl missing ↦ ground arith
        | inr (k, known) ↦ elim (Option-cases (find_wallet_deposit k crystalpay db)) [
          | inl unknown ↦ ground arith
          | inr (d, found) ↦
              state-Spares payload.state payload.amount d db {r = r} {db' = db'} (ground arith)
        ]
      ]

  poll-Spares :
      (answer : PollReply) (k : ℕ) (db : Db) {db' : Db}
      → apply_poll config reply now answer k db ≡ ok db'
      → Spares db db'
  unfolding apply_poll lock_and_credit_deposit lock_and_expire_deposit
  poll-Spares says_paid k db {db' = db'} h = elim (Option-cases (get_deposit k db)) [
    | inl missing ↦ absurd (ground arith)
    | inr (d, found) ↦ elim (Bool-cases (is_pending d.status)) [
      | inl waiting ↦ credit_deposit-Spares none d db {db' = db'} (ground arith)
      | inr over ↦ ground arith
    ]
  ]
  poll-Spares says_expired k db h = elim (Option-cases (get_deposit k db)) [
    | inl missing ↦ absurd (ground arith)
    | inr (d, found) ↦ ground (arith, expire_deposit-Spares d db)
  ]
  poll-Spares no_answer k db h = ground arith
  poll-Spares still_open k db h = ground arith

  pub poll_status-Spares :
      (answer : PollReply) (d : Deposit) (db : Db) {db' : Db}
      → poll_deposit_status config reply now answer d db ≡ ok db'
      → Spares db db'
  unfolding poll_deposit_status
  poll_status-Spares answer d db {db' = db'} h =
      elim (Bool-cases (is_pending d.status && has_credentials config d.provider)) [
        | inl asked ↦ poll-Spares answer d.id db {db' = db'} (ground arith)
        | inr skipped ↦ ground arith
      ]

pub handle_expired-Spares :
    (payload : CryptobotPayload) (db : Db) → Spares db (handle_invoice_expired payload db).1
unfolding handle_invoice_expired
handle_expired-Spares payload db = elim (Option-cases payload.invoice_id) [
  | inl missing ↦ ground arith
  | inr (k, known) ↦ elim (Option-cases (find_wallet_deposit k cryptobot db)) [
    | inl unknown ↦ ground arith
    | inr (d, found) ↦ ground (arith, close_unless-Spares d db)
  ]
]
