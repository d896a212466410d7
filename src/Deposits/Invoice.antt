-- ===== src/Deposits/Invoice.antt =====
-- `get_currency_by_code`, `is_cryptopay_configured`, `create_deposit_invoice` and its two providers
-- in backend/app/services_wallet.py. The answer of the payment provider to the request for an
-- invoice is a parameter. `purpose` and `provider` are of closed types, so the two branches for
-- unknown strings have no counterpart.
pub mod Outcomes
use Prim.Native.Char.{code}
use Prim.Native.String.{String}
use garant.Base.{
  ℕ, ◌+◌, Bool, true, false, not, ◌&&◌, ◌||◌, Option, none, some, List, [], ◌∷◌, ltb, ◌==◌,
  if◌then◌else◌, Result, ok, err, ◌>>=◌, ◌>>◌, raise_if, or_raise,
}
use garant.Base.Table.{select, first_row}
use garant.Base.Text.{Text, upper, same_text, strip}
use garant.Money.{quantize_money}
use garant.Schema.{
  Db, Deposit, DepositStatus, Currency, Purpose, Provider, cryptobot, crystalpay, Error,
  currency_unsupported, below_minimum, provider_unconfigured, provider_failed, no_pay_url,
  put_deposit,
}

-- The environment that the services read.
pub record Config : Type 0 where
  pub cryptobot_token : Text
  pub crystalpay_login : Text
  pub crystalpay_secret : Text
  pub wallet_deposit_expiry_seconds : ℕ
  pub wallet_withdrawal_stale_seconds : ℕ

-- What the provider answers: an exception, or an invoice that may lack its id or its link.
pub data InvoiceReply : Type 0 where
  refused : InvoiceReply
  issued : ℕ → Bool → Bool → InvoiceReply

abbrev codes : String → Text
codes String.[] = []
codes (String.◌∷◌ c s) = code c ∷ codes s

unfoldable pub is_placeholder : Text → Bool
unfolding same_text
is_placeholder token =
    same_text token (codes "000000:FAKE")
    || same_text token (codes "0000000000:FAKE")
    || same_text token (codes "000000:REPLACE_ME")
    || same_text token (codes "0000000000:REPLACE_ME")

abbrev pub is_empty : Text → Bool
is_empty [] = true
is_empty (_ ∷ _) = false

unfoldable pub is_cryptopay_configured : Text → Bool
unfolding is_placeholder strip
is_cryptopay_configured token =
    let stripped = strip token in not (is_empty stripped) && not (is_placeholder stripped)

unfoldable pub get_currency_by_code : Text → Db → Option Currency
unfolding select same_text upper
get_currency_by_code wanted db =
    first_row
      (select (λ (c : Currency). same_text c.code (upper wanted) && c.is_active) db.currencies)

-- The INSERT of a pending deposit.
abbrev pub add_deposit : ℕ → ℕ → Currency → ℕ → Purpose → Provider → ℕ → Db → Deposit × Db
add_deposit now user_id currency amount purpose provider invoice_id db =
    let deposit : Deposit = record {
      id = db.next_deposit_id;
      user_id = user_id;
      currency_id = currency.id;
      amount = amount;
      provider = provider;
      provider_invoice_id = invoice_id;
      status = DepositStatus.pending;
      purpose = purpose;
      linked_deal_id = none;
      created_at = now;
      paid_at = none;
      paid_amount = none;
    } in
    (deposit, put_deposit deposit (record db { next_deposit_id = db.next_deposit_id + 1 }))

-- `_create_cryptobot_deposit`
unfoldable pub create_cryptobot_deposit :
    Config → InvoiceReply → ℕ → ℕ → Currency → ℕ → Purpose → Db → Result Error (Deposit × Db)
create_cryptobot_deposit config refused now user_id currency amount purpose db = do
  raise_if (not (is_cryptopay_configured config.cryptobot_token)) provider_unconfigured
  err provider_failed
create_cryptobot_deposit config (issued invoice_id _ has_url) now user_id currency amount purpose
      db =
    do
      raise_if (not (is_cryptopay_configured config.cryptobot_token)) provider_unconfigured
      raise_if (not has_url) no_pay_url
      ok (add_deposit now user_id currency amount purpose cryptobot invoice_id db)

-- `_create_crystalpay_deposit`
unfoldable pub create_crystalpay_deposit :
    Config → InvoiceReply → ℕ → ℕ → Currency → ℕ → Purpose → Db → Result Error (Deposit × Db)
create_crystalpay_deposit config refused now user_id currency amount purpose db = do
  raise_if (is_empty config.crystalpay_login || is_empty config.crystalpay_secret)
      provider_unconfigured
  err provider_failed
create_crystalpay_deposit config (issued invoice_id has_id has_url) now user_id currency amount
      purpose db =
    do
      raise_if (is_empty config.crystalpay_login || is_empty config.crystalpay_secret)
          provider_unconfigured
      raise_if (not has_id || not has_url) no_pay_url
      ok (add_deposit now user_id currency amount purpose crystalpay invoice_id db)

abbrev pub create_on :
    Provider
    → Config
    → InvoiceReply
    → ℕ
    → ℕ
    → Currency
    → ℕ
    → Purpose
    → Db
    → Result Error (Deposit × Db)
create_on crystalpay = create_crystalpay_deposit
create_on cryptobot = create_cryptobot_deposit

unfoldable pub create_deposit_invoice :
    Config
    → InvoiceReply
    → ℕ
    → ℕ
    → Text
    → ℕ
    → Purpose
    → Provider
    → Bool
    → Db
    → Result Error (Deposit × Db)
create_deposit_invoice config reply now user_id wanted amount purpose provider min_check db = do
  currency ← or_raise (get_currency_by_code wanted db) currency_unsupported
  let amount_d = quantize_money amount currency.decimals
  raise_if (min_check && ltb amount_d currency.min_deposit) below_minimum
  create_on provider config reply now user_id currency amount_d purpose db
