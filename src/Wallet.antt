-- ===== src/Wallet.antt =====
-- The balance rows and their ledger: `lock_user_balance` and `get_or_create_balance` of
-- backend/app/services_wallet.py, backend/app/services_ledger.py, and the `UserBalance` and
-- `WalletLedgerEntry` tables of backend/app/models.py. Amounts are units of 10 ^ -8 (Money.antt).
pub mod Rows
pub mod Ledger
pub mod Total
pub mod Trust
pub mod Pair
use garant.Base.{
  ℕ, ◌+◌, Bool, true, false, ◌&&◌, Option, none, some, List, [], ◌∷◌, ◌==◌, if◌then◌else◌,
}
use garant.Base.Int.{ℤ, pos, sub_ℕ}

pub record Balance : Type 0 where
  pub user_id : ℕ
  pub currency_id : ℕ
  pub amount : ℕ
  pub locked : ℕ

-- The `event_type` strings.
pub data Event : Type 0 where
  deal_lock deal_refund deal_refund_principal deal_release_debit deal_release_credit : Event
  deal_create_balance_funded topup_late_credit topup_partial_credit topup_activate : Event
  deposit_wallet_credit deposit_trust_credit : Event
  withdrawal_lock withdrawal_auto_failed_refund withdrawal_sent withdrawal_reject : Event
  admin_force_release_debit admin_force_release_credit admin_force_refund : Event
  admin_split_buyer admin_split_seller : Event

-- `source_type` and `source_id`; `_debit` and the refund helpers give no id.
pub data Source : Type 0 where
  from_deal : Option ℕ → Source
  from_deposit from_withdrawal : ℕ → Source

pub record LedgerEntry : Type 0 where
  pub user_id : ℕ
  pub currency_id : ℕ
  pub event : Event
  pub source : Source
  pub amount_before : ℕ
  pub amount_delta : ℤ
  pub amount_after : ℕ
  pub locked_before : ℕ
  pub locked_delta : ℤ
  pub locked_after : ℕ

-- The two tables; the newest ledger entry comes first.
pub record Wallet : Type 0 where
  pub balances : List Balance
  pub entries : List LedgerEntry

abbrev pub is_row : ℕ → ℕ → Balance → Bool
is_row user_id currency_id b = b.user_id == user_id && b.currency_id == currency_id

unfoldable pub find_balance : ℕ → ℕ → List Balance → Option Balance
find_balance u c [] = none
find_balance u c (b ∷ rows) = if is_row u c b then some b else find_balance u c rows

-- The flush of a changed row, or the INSERT of a new one.
unfoldable pub put_balance : Balance → List Balance → List Balance
put_balance a [] = a ∷ []
put_balance a (b ∷ rows) =
    if is_row a.user_id a.currency_id b then a ∷ rows else b ∷ put_balance a rows

abbrev pub save_balance : Balance → Wallet → Wallet
save_balance a w = record w { balances = put_balance a w.balances }

abbrev pub new_balance : ℕ → ℕ → Balance
new_balance user_id currency_id = record {
  user_id = user_id;
  currency_id = currency_id;
  amount = 0;
  locked = 0;
}

-- The row, inserted with zeros where it is missing.
unfoldable pub lock_user_balance : ℕ → ℕ → Wallet → Balance × Wallet
lock_user_balance user_id currency_id w = elim (find_balance user_id currency_id w.balances) [
  | some bal ↦ (bal, w)
  | none ↦ (new_balance user_id currency_id, save_balance (new_balance user_id currency_id) w)
]

-- The same SELECT, upsert and SELECT, without `FOR UPDATE`.
unfoldable pub get_or_create_balance : ℕ → ℕ → Wallet → Balance × Wallet
get_or_create_balance user_id currency_id w = elim (find_balance user_id currency_id w.balances) [
  | some bal ↦ (bal, w)
  | none ↦ (new_balance user_id currency_id, save_balance (new_balance user_id currency_id) w)
]

-- An entry for what the row gained, none where nothing changed.
unfoldable pub record_balance_ledger : Balance → ℕ → ℕ → Event → Source → Wallet → Wallet
record_balance_ledger bal before_amount before_locked event source w =
    if bal.amount == before_amount && bal.locked == before_locked then w else record w {
      entries =
          record {
            user_id = bal.user_id;
            currency_id = bal.currency_id;
            event = event;
            source = source;
            amount_before = before_amount;
            amount_delta = sub_ℕ bal.amount before_amount;
            amount_after = bal.amount;
            locked_before = before_locked;
            locked_delta = sub_ℕ bal.locked before_locked;
            locked_after = bal.locked;
          }
          ∷ w.entries;
    }

-- The entry of a trust deposit, which is kept outside the balance rows.
unfoldable pub record_synthetic_ledger : ℕ → ℕ → ℕ → ℕ → Event → Source → Wallet → Wallet
record_synthetic_ledger user_id currency_id before_amount after_amount event source w =
    if after_amount == before_amount then w else record w {
      entries =
          record {
            user_id = user_id;
            currency_id = currency_id;
            event = event;
            source = source;
            amount_before = before_amount;
            amount_delta = sub_ℕ after_amount before_amount;
            amount_after = after_amount;
            locked_before = 0;
            locked_delta = pos 0;
            locked_after = 0;
          }
          ∷ w.entries;
    }

-- What every money-moving helper does with one row: lock it, write `amount` and `locked`, and
-- record the change. `change` maps the old pair to the new one.
unfoldable pub update_balance : ℕ → ℕ → (ℕ → ℕ → ℕ × ℕ) → Event → Source → Wallet → Wallet
update_balance user_id currency_id change event source w =
    let (bal, w') = lock_user_balance user_id currency_id w in
    let after : Balance = record bal {
      amount = (change bal.amount bal.locked).0;
      locked = (change bal.amount bal.locked).1;
    } in
    record_balance_ledger after bal.amount bal.locked event source (save_balance after w')

-- What the row says, a missing row counting as zeros.
unfoldable pub amount_of : ℕ → ℕ → Wallet → ℕ
amount_of u c w = elim (find_balance u c w.balances) [ some b ↦ b.amount | none ↦ 0 ]

unfoldable pub locked_of : ℕ → ℕ → Wallet → ℕ
locked_of u c w = elim (find_balance u c w.balances) [ some b ↦ b.locked | none ↦ 0 ]

-- A row that the session holds, as it stands in the state.
abbrev pub row_of : ℕ → ℕ → Wallet → Balance
row_of u c w = record {
  user_id = u;
  currency_id = c;
  amount = amount_of u c w;
  locked = locked_of u c w;
}
