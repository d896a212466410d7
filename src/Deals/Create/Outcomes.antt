-- ===== src/Deals/Create/Outcomes.antt =====
-- When a deal is created, and the state that it leaves.
use garant.Base.{
  ℕ, ◌≤◌, ◌<◌, ◌≡◌, ◌≢◌, inl, inr, Option, none, some, true, false, ok, arith, ltb, not,
  Result-cases, Option-cases,
}
use garant.Base.Text.{Text}
use garant.Money.{Decimal, quantize_decimal}
use garant.Wallet.{Wallet, lock_user_balance, amount_of}
use garant.Wallet.Rows.{lock_user_balance-row}
use garant.Schema.{
  Db, Deal, Deposit, User, Currency, Provider, pending_confirmation, pending_topup, deal_topup,
  put_deal, put_deposit, with_funds, notify, deals, about_deal,
}
use garant.Deals.Escrow.{debit}
use garant.Deals.Escrow.Effect.{moved_to_locked, debit-cases}
use garant.Deposits.Invoice.{Config, InvoiceReply, get_currency_by_code, create_deposit_invoice}
use garant.Deals.Create.{
  create_deal, create_deal_with_topup, create_balance_funded, create_invoice_funded, new_deal,
  insert_deal, deal_commission, amount_needed, invoice_total_of,
}

debit-ok :
    (u c x : ℕ) (w v : Wallet)
    → debit u c x w ≡ ok v
    → (x ≤ amount_of u c w) × (v ≡ moved_to_locked u c x w)
debit-ok u c x w v h = ground (arith, debit-cases u c x w)

module _ (now : ℕ) (buyer seller : User) (wanted : Text) (raw : Decimal) (provider : Provider)
    (db : Db) where
  pub create_deal-ok :
      {deal : Deal} {db' : Db}
      → create_deal now buyer seller wanted raw provider db ≡ ok (deal, db')
      → (buyer.id ≢ seller.id)
        × ((currency : Currency) × (get_currency_by_code wanted db ≡ some currency)
            × (quantize_decimal raw currency.decimals ≢ 0)
            × (quantize_decimal raw currency.decimals ≤ amount_of buyer.id currency.id db.funds)
            × (deal
                ≡ new_deal now buyer seller currency
                    (quantize_decimal raw currency.decimals)
                    (deal_commission db buyer seller
                      (quantize_decimal raw currency.decimals)
                      currency)
                    pending_confirmation
                    provider
                    true
                    db)
            × (db'
                ≡ notify seller.id deals (about_deal deal.id) (
                    insert_deal deal (
                      with_funds
                        (moved_to_locked buyer.id currency.id
                          (quantize_decimal raw currency.decimals)
                          db.funds)
                        db))))
  unfolding create_deal
  create_deal-ok h = elim (Option-cases (get_currency_by_code wanted db)) [
    | inl missing ↦ absurd (ground arith)
    | inr (cur, found) ↦
        let x : ℕ = quantize_decimal raw cur.decimals in
        let paid : (x ≤ amount_of buyer.id cur.id db.funds)
            × (debit buyer.id cur.id x db.funds ≡ ok (moved_to_locked buyer.id cur.id x db.funds)) =
          ground (arith, debit-cases buyer.id cur.id x db.funds) in
        (
          ground arith,
          (cur, found, ground arith, paid.0, ground (arith, paid.1), ground (arith, paid.1)),
        )
  ]

  module _ (config : Config) (reply : InvoiceReply) (currency : Currency) where
    abbrev pub amt : ℕ
    amt = quantize_decimal raw currency.decimals

    abbrev pub charge : ℕ
    charge = deal_commission db buyer seller amt currency

    abbrev pub row : Wallet
    row = (lock_user_balance buyer.id currency.id db.funds).1

    -- The two ways in which a deal with a top-up comes about.
    pub data Created (deal : Deal) : Option Deposit → Db → Type 0 where
      from_balance :
          (db' : Db)
          → amount_needed amt charge currency ≤ amount_of buyer.id currency.id db.funds
          → (deal, db')
            ≡ create_balance_funded now buyer seller currency amt charge
                (amount_needed amt charge currency)
                provider
                row
                db
          → Created deal none db'
      by_invoice :
          (deposit : Deposit) (db' : Db)
          → amount_of buyer.id currency.id db.funds < amount_needed amt charge currency
          → create_invoice_funded config reply now buyer seller currency amt charge
              (invoice_total_of amt charge (amount_of buyer.id currency.id db.funds) currency)
              provider
              row
              db
            ≡ ok (deal, deposit, db')
          → Created deal (some deposit) db'

    topup_branches :
        {deal : Deal} {deposit : Option Deposit} {db' : Db}
        → get_currency_by_code wanted db ≡ some currency
        → create_deal_with_topup config reply now buyer seller wanted raw provider db
          ≡ ok (deal, deposit, db')
        → Created deal deposit db'
    unfolding create_deal_with_topup
    topup_branches {deposit = none} {db' = db'} found h =
        from_balance db' (ground (arith, lock_user_balance-row buyer.id currency.id db.funds))
          (ground arith)
    topup_branches {deposit = some deposit} {db' = db'} found h =
        by_invoice deposit db' (ground (arith, lock_user_balance-row buyer.id currency.id db.funds))
          (ground (arith, lock_user_balance-row buyer.id currency.id db.funds))

  pub create_deal_with_topup-ok :
      (config : Config) (reply : InvoiceReply) {deal : Deal} {deposit : Option Deposit} {db' : Db}
      → create_deal_with_topup config reply now buyer seller wanted raw provider db
        ≡ ok (deal, deposit, db')
      → (buyer.id ≢ seller.id)
        × ((currency : Currency) × (get_currency_by_code wanted db ≡ some currency)
            × (quantize_decimal raw currency.decimals ≢ 0)
            × Created config reply currency deal deposit db')
  unfolding create_deal_with_topup
  create_deal_with_topup-ok config reply h = elim (Option-cases (get_currency_by_code wanted db)) [
    | inl missing ↦ absurd (ground arith)
    | inr (cur, found) ↦
        (ground arith, (cur, found, ground arith, topup_branches config reply cur found h))
  ]

-- What an invoice that was issued for a new deal leaves.
module _ (config : Config) (reply : InvoiceReply) (now : ℕ) (buyer seller : User)
    (currency : Currency) (amt commission invoice_total : ℕ) (provider : Provider) (w : Wallet)
    (db : Db) where
  abbrev pub waiting : Deal
  waiting = new_deal now buyer seller currency amt commission pending_topup provider false db

  pub create_invoice_funded-ok :
      {deal : Deal} {deposit : Deposit} {db' : Db}
      → create_invoice_funded config reply now buyer seller currency amt commission invoice_total
          provider w db
        ≡ ok (deal, deposit, db')
      → (invoice_total ≢ 0)
        × ((d : Deposit) × (db2 : Db) × (create_deposit_invoice config reply now buyer.id
                currency.code invoice_total deal_topup provider
                (not (ltb invoice_total currency.min_deposit))
                (insert_deal waiting (with_funds w db))
              ≡ ok (d, db2))
            × (deal ≡ record waiting { topup_deposit_id = some d.id })
            × (deposit ≡ record d { linked_deal_id = some waiting.id })
            × (db'
                ≡ notify seller.id deals
                    (about_deal waiting.id)
                    (put_deal deal (put_deposit deposit db2))))
  unfolding create_invoice_funded
  create_invoice_funded-ok h =
      elim (Result-cases (
        create_deposit_invoice config reply now buyer.id currency.code invoice_total deal_topup
          provider (not (ltb invoice_total currency.min_deposit))
          (insert_deal waiting (with_funds w db)))) [
            | inl (e, failed) ↦ absurd (ground arith)
            | inr ((d, db2), done) ↦
                (ground arith, (d, db2, done, ground arith, ground arith, ground arith))
          ]
