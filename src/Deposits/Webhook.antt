-- ===== src/Deposits/Webhook.antt =====
-- The webhooks of the payment providers (backend/app/services_payments.py) and the polling of
-- backend/app/services_wallet.py. A payload is what the handlers read of the JSON: an absent,
-- empty or unparsable field is `none`, an amount is a number of units.
pub mod Once
use garant.Base.{
  ℕ, ◌-◌, Bool, true, false, not, ◌&&◌, Option, none, some, leb, ◌==◌, if◌then◌else◌, Result, ok,
  err, ◌>>=◌,
}
use garant.Base.Table.{select, first_row}
use garant.Schema.{
  Db, Deposit, DepositStatus, Provider, cryptobot, crystalpay, Purpose, wallet, trust, deal_topup,
  Error,
}
use garant.Deals.Topup.{is_paid, is_pending, or_else}
use garant.Deposits.Invoice.{Config, InvoiceReply, is_empty}
use garant.Deposits.Credit.{
  credit_deposit, expire_deposit, lock_and_credit_deposit, lock_and_expire_deposit,
}

-- The dictionaries that the handlers return.
pub data Reply : Type 0 where
  not_paid missing_id unknown_invoice amount_mismatch deposit_not_pending : Reply
  already_paid already_terminal expired ignored_state : Reply
  credited : Purpose → Reply

pub record CryptobotPayload : Type 0 where
  pub says_paid : Bool
  pub invoice_id : Option ℕ
  pub amount : Option ℕ

-- `INVOICE_STATE_…`; what Crystalpay reports of an invoice.
pub data InvoiceState : Type 0 where
  payed unavailable failed other_state : InvoiceState

pub record CrystalpayPayload : Type 0 where
  pub id : Option ℕ
  pub invoice_id : Option ℕ
  pub state : InvoiceState
  pub amount : Option ℕ

abbrev pub same_provider : Provider → Provider → Bool
same_provider cryptobot cryptobot = true
same_provider crystalpay crystalpay = true
same_provider _ _ = false

abbrev pub is_invoice : ℕ → Provider → Deposit → Bool
is_invoice invoice_id provider d =
    same_provider d.provider provider && d.provider_invoice_id == invoice_id

-- `_find_wallet_deposit`
unfoldable pub find_wallet_deposit : ℕ → Provider → Db → Option Deposit
unfolding select
find_wallet_deposit invoice_id provider db =
    first_row (select (is_invoice invoice_id provider) db.deposits)

-- `_amounts_match`: at least the expected amount less the tolerance of one unit.
abbrev pub amounts_match : Option ℕ → ℕ → Bool
amounts_match none expected = false
amounts_match (some reported) expected = leb (expected - 1) reported

abbrev pub is_deal_topup : Purpose → Bool
is_deal_topup deal_topup = true
is_deal_topup _ = false

-- What both webhooks do with a deposit that is not paid yet.
unfoldable pub accept_payment :
    Config → InvoiceReply → ℕ → Option ℕ → Deposit → Db → Result Error (Reply × Db)
accept_payment config reply now reported deposit db =
    if not (is_deal_topup deposit.purpose) && not (amounts_match reported deposit.amount)
    then ok (amount_mismatch, db)
    else (do
      db' ← credit_deposit config reply now reported deposit db
      ok (credited deposit.purpose, db'))

unfoldable pub handle_invoice_paid :
    Config → InvoiceReply → ℕ → CryptobotPayload → Db → Result Error (Reply × Db)
handle_invoice_paid config reply now payload db =
    if not payload.says_paid then ok (not_paid, db) else (elim payload.invoice_id [
      | none ↦ ok (missing_id, db)
      | some provider_id ↦ elim (find_wallet_deposit provider_id cryptobot db) [
        | none ↦ ok (unknown_invoice, db)
        | some deposit ↦
            if is_paid deposit.status
            then ok (already_paid, db)
            else accept_payment config reply now payload.amount deposit db
      ]
    ])

-- The part on a terminal row that both expiry branches share.
unfoldable pub close_unless_terminal : Deposit → Db → Reply × Db
close_unless_terminal deposit db =
    if not (is_pending deposit.status)
    then (already_terminal, db)
    else (expired, expire_deposit deposit db)

unfoldable pub handle_invoice_expired : CryptobotPayload → Db → Reply × Db
handle_invoice_expired payload db = elim payload.invoice_id [
  | none ↦ (missing_id, db)
  | some provider_id ↦ elim (find_wallet_deposit provider_id cryptobot db) [
    | none ↦ (unknown_invoice, db)
    | some deposit ↦ close_unless_terminal deposit db
  ]
]

unfoldable pub apply_state :
    Config → InvoiceReply → ℕ → InvoiceState → Option ℕ → Deposit → Db → Result Error (Reply × Db)
apply_state config reply now payed reported deposit db =
    if is_paid deposit.status
    then ok (already_paid, db)
    else if not (is_pending deposit.status)
    then ok (deposit_not_pending, db)
    else accept_payment config reply now reported deposit db
apply_state config reply now unavailable reported deposit db = ok (close_unless_terminal deposit db)
apply_state config reply now failed reported deposit db = ok (close_unless_terminal deposit db)
apply_state config reply now other_state reported deposit db = ok (ignored_state, db)

unfoldable pub handle_crystalpay_invoice :
    Config → InvoiceReply → ℕ → CrystalpayPayload → Db → Result Error (Reply × Db)
handle_crystalpay_invoice config reply now payload db =
    elim (or_else payload.id payload.invoice_id) [
      | none ↦ ok (missing_id, db)
      | some provider_id ↦ elim (find_wallet_deposit provider_id crystalpay db) [
        | none ↦ ok (unknown_invoice, db)
        | some deposit ↦ apply_state config reply now payload.state payload.amount deposit db
      ]
    ]

-- What a provider answers to a poll: an error or no row, or a state of the invoice.
pub data PollReply : Type 0 where
  no_answer still_open says_paid says_expired : PollReply

unfoldable pub apply_poll : Config → InvoiceReply → ℕ → PollReply → ℕ → Db → Result Error Db
apply_poll config reply now says_paid deposit_id db =
    lock_and_credit_deposit config reply now deposit_id db
apply_poll config reply now says_expired deposit_id db = lock_and_expire_deposit deposit_id db
apply_poll config reply now no_answer deposit_id db = ok db
apply_poll config reply now still_open deposit_id db = ok db

abbrev pub has_credentials : Config → Provider → Bool
has_credentials config cryptobot = not (is_empty config.cryptobot_token)
has_credentials config crystalpay =
    not (is_empty config.crystalpay_login) && not (is_empty config.crystalpay_secret)

-- `deposit` is the row as the caller loaded it, before the lock.
unfoldable pub poll_deposit_status :
    Config → InvoiceReply → ℕ → PollReply → Deposit → Db → Result Error Db
poll_deposit_status config reply now answer deposit db =
    if not (is_pending deposit.status)
    then ok db
    else if not (has_credentials config deposit.provider)
    then ok db
    else apply_poll config reply now answer deposit.id db
