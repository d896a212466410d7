-- ===== src/Tests/World.antt =====
-- A small database: one currency, a buyer with 100 units of it, a seller and an arbiter.
use garant.Base.{
  ℕ, ◌+◌, ◌*◌, ◌/◌, ◌^◌, ◌≡◌, refl, Bool, true, false, none, some, List, [], ◌∷◌, ok, err, Result,
  arith, if◌then◌else◌, ◌==◌, ◌&&◌,
}
use garant.Base.Int.{pos, negsuc}
use garant.Base.Table.{sum_by}
use garant.Base.Text.{Text}
use garant.Money.{Decimal, finite}
use garant.Wallet.{Wallet, update_balance, deposit_wallet_credit, from_deposit, locked_of}
use garant.Wallet.Rows.{locked_of-update_balance}
use garant.Wallet.Ledger.{IsReconciled, update_balance-IsReconciled}
use garant.Withdrawals.Amount.{Column, IsExact}
use garant.Schema.{Db, User, Currency, AppSettings}
use garant.Deposits.Invoice.{Config}
use garant.Solvency.{IsSound}

abbrev pub usdt : Text
usdt = 85 ∷ 83 ∷ 68 ∷ 84 ∷ []

abbrev pub dollars : ℕ → ℕ
dollars n = n * 10 ^ 8

abbrev pub currency : Currency
currency = record {
  id = 1;
  code = usdt;
  is_active = true;
  decimals = 2;
  min_deposit = dollars 1;
  min_withdraw = dollars 1;
  has_address_regex = false;
}

abbrev pub settings : AppSettings
settings = record {
  deal_commission_percent = 500;
  vip_commission_percent = negsuc 0;
  inactivity_pending_confirmation_days = 3;
  inactivity_pending_cancellation_days = 3;
  pending_topup_expiry_hours = 24;
  auto_withdraw_enabled = false;
}

abbrev pub user : ℕ → Bool → User
user k arbiter = record {
  id = k;
  is_vip = false;
  is_admin = false;
  is_arbiter = arbiter;
  deals_total = 0;
  deals_success = 0;
  deals_failed = 0;
  deals_arbitrage = 0;
  trust_deposit_balance = 0;
}

abbrev pub ann : User
ann = user 1 false

abbrev pub bob : User
bob = user 2 false

abbrev pub judge : User
judge = user 3 true

abbrev pub empty_wallet : Wallet
empty_wallet = record { balances = []; entries = [] }

-- The buyer's 100 came in through a deposit.
abbrev pub start_wallet : Wallet
start_wallet =
    update_balance 1 1 (λ a l. (a + dollars 100, l)) deposit_wallet_credit (from_deposit 0)
      empty_wallet

abbrev pub start : Db
start = record {
  funds = start_wallet;
  users = ann ∷ bob ∷ judge ∷ [];
  currencies = currency ∷ [];
  settings = settings;
  deals = [];
  deposits = [];
  withdrawals = [];
  notifications = [];
  next_deal_id = 1;
  next_deposit_id = 1;
  next_withdrawal_id = 1;
}

abbrev pub config : Config
config = record {
  cryptobot_token = 49 ∷ 58 ∷ 65 ∷ [];
  crystalpay_login = 97 ∷ [];
  crystalpay_secret = 98 ∷ [];
  wallet_deposit_expiry_seconds = 3600;
  wallet_withdrawal_stale_seconds = 3600;
}

-- `n` dollars as the API takes them.
abbrev pub whole : ℕ → Decimal
whole n = finite (pos n) 0

empty_wallet-IsReconciled : IsReconciled empty_wallet
unfolding garant.Wallet.Ledger.replayed_amount garant.Wallet.Ledger.replayed_locked
    garant.Wallet.amount_of locked_of garant.Wallet.find_balance
empty_wallet-IsReconciled u c = (refl, refl)

start-locked : (u c : ℕ) → locked_of u c start_wallet ≡ 0
unfolding locked_of garant.Wallet.find_balance
start-locked u c = ground (
  arith,
  locked_of-update_balance 1 1 (λ a l. (a + dollars 100, l)) deposit_wallet_credit (from_deposit 0)
      empty_wallet u c,
)

pub start-IsSound : IsSound start
unfolding garant.Base.Table.get sum_by
start-IsSound = record {
  backed = λ u c. start-locked u c;
  reconciled =
      update_balance-IsReconciled 1 1 _ deposit_wallet_credit (from_deposit 0) empty_wallet refl
        empty_wallet-IsReconciled;
  deals_sound = tt;
  deals_keyed = tt;
  withdrawals_sound = tt;
  withdrawals_keyed = tt;
  currencies_keyed = (refl, tt);
}

-- A column that rounds to the nearest unit, halves up.
abbrev pub half_up : Column
half_up amount = (amount.digits + 10 ^ amount.places / 2) / 10 ^ amount.places

pub half_up-IsExact : IsExact half_up
half_up-IsExact x = omega arith
