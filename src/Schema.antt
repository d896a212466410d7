-- ===== src/Schema.antt =====
-- The tables of backend/app/models.py that the wallet and the deals read and write, as one state.
-- Timestamps are numbers of seconds. Free text that no code branches on (descriptions, notes,
-- payment links, bodies of notifications) is left out. A service function that commits returns
-- the new state; one that raises returns the error, and the session rolls back.
use garant.Base.{ℕ, Bool, true, false, ◌||◌, Option, List, ◌∷◌, map, ◌==◌, if◌then◌else◌}
use garant.Base.Int.{ℤ}
use garant.Base.Table.{get, put}
use garant.Wallet.{Wallet}

pub data DealStatus : Type 0 where
  cancelled pending_confirmation pending_payment in_progress completed arbitration : DealStatus
  resolved_for_buyer resolved_for_seller pending_cancellation : DealStatus
  cancelled_for_inactivity pending_topup : DealStatus

-- `TERMINAL_DEAL_STATUSES`
abbrev pub is_terminal : DealStatus → Bool
is_terminal cancelled = true
is_terminal completed = true
is_terminal resolved_for_buyer = true
is_terminal resolved_for_seller = true
is_terminal cancelled_for_inactivity = true
is_terminal _ = false

pub data Provider : Type 0 where
  cryptobot crystalpay : Provider

pub data Purpose : Type 0 where
  wallet trust deal_topup : Purpose

pub data DepositStatus : Type 0 where
  pending paid expired refunded : DepositStatus

pub data WithdrawStatus : Type 0 where
  pending approved sent rejected : WithdrawStatus

pub record User : Type 0 where
  pub id : ℕ
  pub is_vip : Bool
  pub is_admin : Bool
  pub is_arbiter : Bool
  pub deals_total : ℕ
  pub deals_success : ℕ
  pub deals_failed : ℕ
  pub deals_arbitrage : ℕ
  pub trust_deposit_balance : ℕ

pub record Currency : Type 0 where
  pub id : ℕ
  pub code : List ℕ
  pub is_active : Bool
  pub decimals : ℕ
  pub min_deposit : ℕ
  pub min_withdraw : ℕ
  pub has_address_regex : Bool

pub record AppSettings : Type 0 where
  pub deal_commission_percent : ℕ
  pub vip_commission_percent : ℤ
  pub inactivity_pending_confirmation_days : ℕ
  pub inactivity_pending_cancellation_days : ℕ
  pub pending_topup_expiry_hours : ℕ
  pub auto_withdraw_enabled : Bool

pub data Winner : Type 0 where
  buyer seller other : Winner

pub record Deal : Type 0 where
  pub id : ℕ
  pub buyer_id : ℕ
  pub seller_id : ℕ
  pub currency_id : ℕ
  pub amount : ℕ
  pub commission_amount : ℕ
  pub status : DealStatus
  pub payment_provider : Provider
  pub commission_paid : Bool
  pub topup_deposit_id : Option ℕ
  pub confirm_buyer : Bool
  pub confirm_seller : Bool
  pub created_at : ℕ
  pub in_progress_at : Option ℕ
  pub completed_at : Option ℕ
  pub cancellation_initiator_id : Option ℕ
  pub cancellation_requested_at : Option ℕ
  pub arbitration_initiator_id : Option ℕ
  pub arbitration_resolved_by : Option ℕ
  pub arbitration_resolution : Option Winner
  pub arbitration_resolved_at : Option ℕ

pub record Deposit : Type 0 where
  pub id : ℕ
  pub user_id : ℕ
  pub currency_id : ℕ
  pub amount : ℕ
  pub provider : Provider
  pub provider_invoice_id : ℕ
  pub status : DepositStatus
  pub purpose : Purpose
  pub linked_deal_id : Option ℕ
  pub created_at : ℕ
  pub paid_at : Option ℕ
  pub paid_amount : Option ℕ

pub record Withdrawal : Type 0 where
  pub id : ℕ
  pub user_id : ℕ
  pub currency_id : ℕ
  pub amount : ℕ
  pub address : Option (List ℕ)
  pub status : WithdrawStatus
  pub created_at : ℕ
  pub processed_at : Option ℕ

pub data NotificationType : Type 0 where
  deals deposits system : NotificationType

-- What `notifier.insert` was asked to tell.
pub data Subject : Type 0 where
  about_deal about_deposit about_withdrawal : ℕ → Subject

pub record Notification : Type 0 where
  pub user_id : ℕ
  pub kind : NotificationType
  pub subject : Subject

-- `next_…_id` are the sequences of the primary keys. The newest notification comes first.
pub record Db : Type 0 where
  pub funds : Wallet
  pub users : List User
  pub currencies : List Currency
  pub settings : AppSettings
  pub deals : List Deal
  pub deposits : List Deposit
  pub withdrawals : List Withdrawal
  pub notifications : List Notification
  pub next_deal_id : ℕ
  pub next_deposit_id : ℕ
  pub next_withdrawal_id : ℕ

abbrev pub deal_key : Deal → ℕ
deal_key d = d.id

abbrev pub deposit_key : Deposit → ℕ
deposit_key d = d.id

abbrev pub withdrawal_key : Withdrawal → ℕ
withdrawal_key w = w.id

-- `session.get(Currency, currency_id)`
abbrev pub get_currency : ℕ → Db → Option Currency
get_currency k db = get (λ c. c.id) k db.currencies

abbrev pub get_user : ℕ → Db → Option User
get_user k db = get (λ u. u.id) k db.users

abbrev pub get_deal : ℕ → Db → Option Deal
get_deal k db = get deal_key k db.deals

abbrev pub get_deposit : ℕ → Db → Option Deposit
get_deposit k db = get deposit_key k db.deposits

abbrev pub get_withdrawal : ℕ → Db → Option Withdrawal
get_withdrawal k db = get withdrawal_key k db.withdrawals

abbrev pub put_user : User → Db → Db
put_user u db = record db { users = put (λ (x : User). x.id) u db.users }

abbrev pub put_deal : Deal → Db → Db
put_deal d db = record db { deals = put deal_key d db.deals }

abbrev pub put_deposit : Deposit → Db → Db
put_deposit d db = record db { deposits = put deposit_key d db.deposits }

abbrev pub put_withdrawal : Withdrawal → Db → Db
put_withdrawal w db = record db { withdrawals = put withdrawal_key w db.withdrawals }

abbrev pub with_funds : Wallet → Db → Db
with_funds w db = record db { funds = w }

-- `notifier.insert`
abbrev pub notify : ℕ → NotificationType → Subject → Db → Db
notify user_id kind subject db = record db {
  notifications = record { user_id = user_id; kind = kind; subject = subject } ∷ db.notifications;
}

-- `update(User).where(User.id.in_([a, b])).values(…)`
abbrev pub update_users : ℕ → ℕ → (User → User) → Db → Db
update_users a b change db = record db {
  users = map (λ u. if u.id == a || u.id == b then change u else u) db.users;
}

-- What the functions of the services raise.
pub data Error : Type 0 where
  self_deal bad_amount not_buyer not_seller wrong_status : Error
  not_participant not_initiator own_request not_arbiter bad_winner blank_reason : Error
  currency_unsupported currency_vanished buyer_vanished commission_below_precision : Error
  below_minimum provider_unconfigured provider_failed no_pay_url : Error
  insufficient_funds : ℕ → ℕ → Error
  bad_address no_delivery_path balance_too_small not_found already_processed not_approved
        user_vanished :
      Error
  not_active approval_not_pending approval_not_approved approval_mismatch needs_second_admin : Error
