-- ===== src/Solvency/WebhookSteps.antt =====
-- The webhooks and the polling of the payment providers (backend/app/services_payments.py,
-- backend/app/services_wallet.py) keep the invariant.
use garant.Base.{
  ℕ, ◌≡◌, ◌⊎◌, ap, subst, sym, not, ◌&&◌, Option, none, some, arith, ok, Option-cases, Bool-cases,
  Result-cases, inl, inr, ok_inj,
}
use garant.Schema.{Db, Deposit, cryptobot, crystalpay, get_deposit}
use garant.Deals.Topup.{is_pending, is_paid, or_else}
use garant.Deposits.Invoice.{Config, InvoiceReply}
use garant.Deposits.Credit.{
  credit_deposit, expire_deposit, lock_and_credit_deposit, lock_and_expire_deposit,
}
use garant.Deposits.Webhook.{
  accept_payment, handle_invoice_paid, handle_invoice_expired, apply_state,
  handle_crystalpay_invoice, close_unless_terminal, poll_deposit_status, apply_poll, PollReply,
  no_answer, still_open, says_paid, says_expired, CryptobotPayload, CrystalpayPayload, Reply,
  find_wallet_deposit, InvoiceState, payed, unavailable, failed, other_state, has_credentials,
  amounts_match, is_deal_topup,
}
use garant.Solvency.{IsSound}
use garant.Solvency.CreditSteps.{credit_deposit-IsSound, expire_deposit-IsSound}

close_unless_terminal-IsSound :
    (d : Deposit) (db : Db) → IsSound db → IsSound (close_unless_terminal d db).1
unfolding close_unless_terminal
close_unless_terminal-IsSound d db s = elim (Bool-cases (is_pending d.status)) [
  | inl waiting ↦ rw (close_unless_terminal, waiting) (expire_deposit-IsSound d db s)
  | inr over ↦ rw (close_unless_terminal, over) s
]

module _ (config : Config) (reply : InvoiceReply) (now : ℕ) where
  accept_payment-IsSound :
      (reported : Option ℕ) (d : Deposit) (db : Db) {r : Reply} {db' : Db}
      → IsSound db
      → accept_payment config reply now reported d db ≡ ok (r, db')
      → IsSound db'
  unfolding accept_payment
  accept_payment-IsSound reported d db {db' = db'} s h =
      elim (Bool-cases (not (is_deal_topup d.purpose) && not (amounts_match reported d.amount))) [
        | inl differs ↦ let same : db ≡ db' = ground arith in subst IsSound same s
        | inr fits ↦ elim (Result-cases (credit_deposit config reply now reported d db)) [
          | inl (e, raised) ↦ absurd (ground arith)
          | inr (db1, done) ↦
              let same : db1 ≡ db' = ground arith in
              subst IsSound same (credit_deposit-IsSound config reply now reported d db s done)
        ]
      ]

  -- A handler's answer is a refusal that leaves the state, or the outcome of `accept_payment`.
  settled-IsSound :
      (reported : Option ℕ) (o : Option Deposit) (db : Db) {r : Reply} {db' : Db}
      → IsSound db
      → (db' ≡ db)
        ⊎ ((d : Deposit) × (o ≡ some d)
            × (accept_payment config reply now reported d db ≡ ok (r, db')))
      → IsSound db'
  settled-IsSound reported o db s (inl same) = subst IsSound (sym same) s
  settled-IsSound reported o db s (inr (d, _, done)) = accept_payment-IsSound reported d db s done

  pub handle_invoice_paid-ok :
      (payload : CryptobotPayload) (invoice_id : ℕ) (db : Db) {r : Reply} {db' : Db}
      → payload.invoice_id ≡ some invoice_id
      → handle_invoice_paid config reply now payload db ≡ ok (r, db')
      → (db' ≡ db)
        ⊎ ((d : Deposit) × (find_wallet_deposit invoice_id cryptobot db ≡ some d)
            × (accept_payment config reply now payload.amount d db ≡ ok (r, db')))
  unfolding handle_invoice_paid
  handle_invoice_paid-ok payload invoice_id db known h =
      elim (Option-cases (find_wallet_deposit invoice_id cryptobot db)) [
        | inl missing ↦ inl (ground arith)
        | inr (d, found) ↦ elim (Bool-cases (payload.says_paid && not (is_paid d.status))) [
          | inl due ↦ inr (d, found, ground arith)
          | inr done ↦ inl (ground arith)
        ]
      ]

  -- Where handle_invoice_paid returns an answer, whatever the payload, a sound database stays
  -- sound.
  pub handle_invoice_paid-IsSound :
      (payload : CryptobotPayload) (db : Db) {r : Reply} {db' : Db}
      → IsSound db
      → handle_invoice_paid config reply now payload db ≡ ok (r, db')
      → IsSound db'
  unfolding handle_invoice_paid
  handle_invoice_paid-IsSound payload db {db' = db'} s h = elim (Option-cases payload.invoice_id) [
    | inl missing ↦ let same : db ≡ db' = ground arith in subst IsSound same s
    | inr (k, known) ↦
        settled-IsSound payload.amount _ db s (handle_invoice_paid-ok payload k db known h)
  ]

  apply_state-IsSound :
      (state : InvoiceState) (reported : Option ℕ) (d : Deposit) (db : Db) {r : Reply} {db' : Db}
      → IsSound db
      → apply_state config reply now state reported d db ≡ ok (r, db')
      → IsSound db'
  unfolding apply_state
  apply_state-IsSound payed reported d db {r = r} {db' = db'} s h =
      elim (Bool-cases (is_pending d.status)) [
        | inl waiting ↦ accept_payment-IsSound reported d db {r = r} s (ground arith)
        | inr over ↦ let same : db ≡ db' = ground arith in subst IsSound same s
      ]
  apply_state-IsSound unavailable reported d db s h =
      subst IsSound (ap (λ (p : Reply × Db). p.1) (ok_inj h)) (close_unless_terminal-IsSound d db s)
  apply_state-IsSound failed reported d db s h =
      subst IsSound (ap (λ (p : Reply × Db). p.1) (ok_inj h)) (close_unless_terminal-IsSound d db s)
  apply_state-IsSound other_state reported d db s h =
      subst IsSound (ap (λ (p : Reply × Db). p.1) (ok_inj h)) s

  pub handle_crystalpay_invoice-IsSound :
      (payload : CrystalpayPayload) (db : Db) {r : Reply} {db' : Db}
      → IsSound db
      → handle_crystalpay_invoice config reply now payload db ≡ ok (r, db')
      → IsSound db'
  unfolding handle_crystalpay_invoice
  handle_crystalpay_invoice-IsSound payload db {r = r} {db' = db'} s h =
      elim (Option-cases (or_else payload.id payload.invoice_id)) [
        | inl missing ↦ let same : db ≡ db' = ground arith in subst IsSound same s
        | inr (k, known) ↦ elim (Option-cases (find_wallet_deposit k crystalpay db)) [
          | inl unknown ↦ let same : db ≡ db' = ground arith in subst IsSound same s
          | inr (d, found) ↦
              apply_state-IsSound payload.state payload.amount d db {r = r} s (ground arith)
        ]
      ]

  lock_and_credit-IsSound :
      (k : ℕ) (db : Db) {db' : Db}
      → IsSound db
      → lock_and_credit_deposit config reply now k db ≡ ok db'
      → IsSound db'
  unfolding lock_and_credit_deposit
  lock_and_credit-IsSound k db {db' = db'} s h = elim (Option-cases (get_deposit k db)) [
    | inl missing ↦ absurd (ground arith)
    | inr (d, found) ↦ elim (Bool-cases (is_pending d.status)) [
      | inl waiting ↦ credit_deposit-IsSound config reply now none d db s (ground arith)
      | inr over ↦ let same : db ≡ db' = ground arith in subst IsSound same s
    ]
  ]

  lock_and_expire-IsSound :
      (k : ℕ) (db : Db) {db' : Db}
      → IsSound db
      → lock_and_expire_deposit k db ≡ ok db'
      → IsSound db'
  unfolding lock_and_expire_deposit
  lock_and_expire-IsSound k db {db' = db'} s h = elim (Option-cases (get_deposit k db)) [
    | inl missing ↦ absurd (ground arith)
    | inr (d, found) ↦ elim (Bool-cases (is_pending d.status)) [
      | inl waiting ↦
          let last : expire_deposit d db ≡ db' = ground arith in
          subst IsSound last (expire_deposit-IsSound d db s)
      | inr over ↦ let same : db ≡ db' = ground arith in subst IsSound same s
    ]
  ]

  apply_poll-IsSound :
      (answer : PollReply) (k : ℕ) (db : Db) {db' : Db}
      → IsSound db
      → apply_poll config reply now answer k db ≡ ok db'
      → IsSound db'
  unfolding apply_poll
  apply_poll-IsSound says_paid k db s h = lock_and_credit-IsSound k db s h
  apply_poll-IsSound says_expired k db s h = lock_and_expire-IsSound k db s h
  apply_poll-IsSound no_answer k db s h = subst IsSound (ok_inj h) s
  apply_poll-IsSound still_open k db s h = subst IsSound (ok_inj h) s

  pub poll_deposit_status-IsSound :
      (answer : PollReply) (d : Deposit) (db : Db) {db' : Db}
      → IsSound db
      → poll_deposit_status config reply now answer d db ≡ ok db'
      → IsSound db'
  unfolding poll_deposit_status
  poll_deposit_status-IsSound answer d db {db' = db'} s h =
      elim (Bool-cases (is_pending d.status && has_credentials config d.provider)) [
        | inl asked ↦ apply_poll-IsSound answer d.id db s (ground arith)
        | inr skipped ↦ let same : db ≡ db' = ground arith in subst IsSound same s
      ]

pub handle_invoice_expired-IsSound :
    (payload : CryptobotPayload) (db : Db)
    → IsSound db
    → IsSound (handle_invoice_expired payload db).1
unfolding handle_invoice_expired
handle_invoice_expired-IsSound payload db s = elim (Option-cases payload.invoice_id) [
  | inl missing ↦ rw (handle_invoice_expired, missing) s
  | inr (k, known) ↦ elim (Option-cases (find_wallet_deposit k cryptobot db)) [
    | inl unknown ↦ rw (handle_invoice_expired, known, unknown) s
    | inr (d, found) ↦
        rw (handle_invoice_expired, known, found) (close_unless_terminal-IsSound d db s)
  ]
]
