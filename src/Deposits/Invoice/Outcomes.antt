-- ===== src/Deposits/Invoice/Outcomes.antt =====
-- When an invoice is created, and the row that it leaves.
use garant.Base.{ℕ, ◌+◌, ◌≡◌, inl, inr, Bool, false, ◌&&◌, some, ok, arith, ltb, Option-cases}
use garant.Base.Text.{Text}
use garant.Money.{quantize_money}
use garant.Schema.{Db, Deposit, Currency, Purpose, Provider, cryptobot, crystalpay, put_deposit}
use garant.Deposits.Invoice.{
  Config, InvoiceReply, refused, issued, add_deposit, create_on, create_deposit_invoice,
  get_currency_by_code, create_cryptobot_deposit, create_crystalpay_deposit,
}

-- What either provider leaves: a pending row with the next id for the amount asked.
abbrev pub Adds : ℕ → ℕ → Currency → ℕ → Purpose → Provider → Db → Deposit → Db → Type 0
Adds now user_id currency amount purpose provider db deposit db' =
    (invoice_id : ℕ) × (deposit
      ≡ (add_deposit now user_id currency amount purpose provider invoice_id db).0)
    × (db' ≡ put_deposit deposit (record db { next_deposit_id = db.next_deposit_id + 1 }))

module _ (config : Config) (now user_id : ℕ) (currency : Currency) (amount : ℕ) (purpose : Purpose)
    (db : Db) {deposit : Deposit} {db' : Db} where
  create_cryptobot_deposit-ok :
      (reply : InvoiceReply)
      → create_cryptobot_deposit config reply now user_id currency amount purpose db
        ≡ ok (deposit, db')
      → Adds now user_id currency amount purpose cryptobot db deposit db'
  unfolding create_cryptobot_deposit
  create_cryptobot_deposit-ok refused h = absurd (ground arith)
  create_cryptobot_deposit-ok (issued invoice_id a b) h = (invoice_id, ground arith, ground arith)

  create_crystalpay_deposit-ok :
      (reply : InvoiceReply)
      → create_crystalpay_deposit config reply now user_id currency amount purpose db
        ≡ ok (deposit, db')
      → Adds now user_id currency amount purpose crystalpay db deposit db'
  unfolding create_crystalpay_deposit
  create_crystalpay_deposit-ok refused h = absurd (ground arith)
  create_crystalpay_deposit-ok (issued invoice_id a b) h = (invoice_id, ground arith, ground arith)

  create_on-ok :
      (provider : Provider) (reply : InvoiceReply)
      → create_on provider config reply now user_id currency amount purpose db ≡ ok (deposit, db')
      → Adds now user_id currency amount purpose provider db deposit db'
  create_on-ok cryptobot reply h = create_cryptobot_deposit-ok reply h
  create_on-ok crystalpay reply h = create_crystalpay_deposit-ok reply h

pub create_deposit_invoice-ok :
    (config : Config) (reply : InvoiceReply) (now user_id : ℕ) (wanted : Text) (amount : ℕ)
    (purpose : Purpose) (provider : Provider) (min_check : Bool) (db : Db) {deposit : Deposit}
    {db' : Db}
    → create_deposit_invoice config reply now user_id wanted amount purpose provider min_check db
      ≡ ok (deposit, db')
    → (currency : Currency) × (get_currency_by_code wanted db ≡ some currency)
      × (min_check && ltb (quantize_money amount currency.decimals) currency.min_deposit ≡ false)
      × Adds now user_id currency
          (quantize_money amount currency.decimals)
          purpose
          provider
          db
          deposit
          db'
unfolding create_deposit_invoice
create_deposit_invoice-ok config reply now user_id wanted amount purpose provider min_check db h =
    elim (Option-cases (get_currency_by_code wanted db)) [
      | inl missing ↦ absurd (ground arith)
      | inr (cur, found) ↦ (
        cur,
        found,
        ground arith,
        create_on-ok config now user_id cur (quantize_money amount cur.decimals) purpose db provider
            reply (ground arith),
      )
    ]
