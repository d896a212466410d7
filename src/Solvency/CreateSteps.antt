-- ===== src/Solvency/CreateSteps.antt =====
-- The two ways of creating a deal (backend/app/services_deals.py) keep the invariant.
use garant.Base.{ℕ, ◌+◌, ◌-◌, ◌≡◌, ◌≢◌, refl, sym, subst, ap, Option, true, some, arith, ok}
use garant.Base.Table.{get-put}
use garant.Base.Text.{Text}
use garant.Money.{Decimal, quantize_decimal}
use garant.Money.Quantize.{IsAligned, quantize_decimal-IsAligned}
use garant.Wallet.{
  Wallet, lock_user_balance, locked_of, update_balance, deal_create_balance_funded, from_deal,
}
use garant.Wallet.Rows.{locked_of-lock_user_balance, locked_of-update_balance}
use garant.Wallet.Ledger.{IsReconciled, lock_user_balance-IsReconciled, update_balance-IsReconciled}
use garant.Schema.{
  Db, Deal, Deposit, User, Currency, Provider, pending_confirmation, deal_topup, get_currency,
  get_deal, deal_key, with_funds,
}
use garant.Deals.Escrow.Effect.{locked_of-moved_to_locked}
use garant.Deals.Escrow.Books.{moved_to_locked-IsReconciled}
use garant.Deals.Create.{
  create_deal, create_deal_with_topup, create_balance_funded, create_invoice_funded, new_deal,
  insert_deal,
}
use garant.Deals.Create.Outcomes.{
  create_deal-ok, create_deal_with_topup-ok, Created, from_balance, by_invoice,
  create_invoice_funded-ok, waiting,
}
use garant.Deposits.Invoice.{Config, InvoiceReply}
use garant.Deposits.Invoice.Outcomes.{create_deposit_invoice-ok}
use garant.Solvency.{escrow_share, IsSound}
use garant.Solvency.Funding.{get_currency_by_code-keyed, inserted-IsSound}
use garant.Solvency.Closing.{notify-IsSound, attached-IsSound}

-- The amount of a new deal is one that its currency can express.
raw-IsAligned :
    (raw : Decimal) (cur : Currency) (db : Db)
    → get_currency cur.id db ≡ some cur
    → (c : Currency) → get_currency cur.id db ≡ some c
    → IsAligned c.decimals (quantize_decimal raw cur.decimals)
raw-IsAligned raw cur db found c e =
    let same : cur ≡ c = ground arith in
    subst (λ (x : Currency). IsAligned x.decimals (quantize_decimal raw cur.decimals)) same
      (quantize_decimal-IsAligned raw cur.decimals)

module _ (now : ℕ) (buyer seller : User) (wanted : Text) (raw : Decimal) (provider : Provider)
    (db : Db) (s : IsSound db) where
  -- Where create_deal succeeds, a sound database stays sound.
  pub create_deal-IsSound :
      {deal : Deal} {db' : Db}
      → create_deal now buyer seller wanted raw provider db ≡ ok (deal, db')
      → IsSound db'
  unfolding new_deal
  create_deal-IsSound done =
      let (parties, (cur, found, _, _, deal_eq, e)) =
        create_deal-ok now buyer seller wanted raw provider db done in
      let keyed = get_currency_by_code-keyed wanted db cur s found in
      let x : ℕ = quantize_decimal raw cur.decimals in
      subst IsSound (sym e) (
        notify-IsSound _ _ _ _ (
          rw deal_eq (
            inserted-IsSound db _ _ refl s parties (raw-IsAligned raw cur db keyed)
              (λ u c. rw (locked_of-moved_to_locked buyer.id cur.id x db.funds u c) (ground arith))
              (moved_to_locked-IsReconciled buyer.id cur.id x db.funds s.reconciled))))

  module _ (cur : Currency) (amt : ℕ) (parties : buyer.id ≢ seller.id)
      (aligned : (c : Currency) → get_currency cur.id db ≡ some c → IsAligned c.decimals amt) where
    row_kept :
        (u c : ℕ)
        → locked_of u c (lock_user_balance buyer.id cur.id db.funds).1 ≡ locked_of u c db.funds
    row_kept u c = locked_of-lock_user_balance buyer.id cur.id u c db.funds

    row-IsReconciled : IsReconciled (lock_user_balance buyer.id cur.id db.funds).1
    row-IsReconciled = lock_user_balance-IsReconciled buyer.id cur.id db.funds s.reconciled

    module _ (commission needed : ℕ) where
      abbrev paid_deal : Deal
      paid_deal = new_deal now buyer seller cur amt commission pending_confirmation provider true db

      abbrev paid_wallet : Wallet
      paid_wallet =
          update_balance buyer.id cur.id (λ a l. (a - needed, l + amt)) deal_create_balance_funded
            (from_deal (some paid_deal.id)) (lock_user_balance buyer.id cur.id db.funds).1

      paid_share :
          (u c : ℕ)
          → locked_of u c paid_wallet ≡ locked_of u c db.funds + escrow_share u c paid_deal
      unfolding new_deal
      paid_share u c = ground (
        arith,
        locked_of-update_balance buyer.id cur.id (λ a l. (a - needed, l + amt))
            deal_create_balance_funded (from_deal (some paid_deal.id))
            (lock_user_balance buyer.id cur.id db.funds).1 u c,
        row_kept buyer.id cur.id,
        row_kept u c,
      )

      balance_funded-IsSound :
          IsSound
            (create_balance_funded now buyer seller cur amt commission needed provider
              (lock_user_balance buyer.id cur.id db.funds).1
              db).1
      unfolding create_balance_funded new_deal
      balance_funded-IsSound = notify-IsSound _ _ _ _ (
          inserted-IsSound db paid_deal paid_wallet refl s parties aligned paid_share (
            update_balance-IsReconciled buyer.id cur.id (λ a l. (a - needed, l + amt))
              deal_create_balance_funded (from_deal (some paid_deal.id))
              (lock_user_balance buyer.id cur.id db.funds).1 refl row-IsReconciled))

    invoice_funded-IsSound :
        (config : Config) (reply : InvoiceReply) (commission invoice_total : ℕ) {deal : Deal}
        {deposit : Deposit} {db' : Db}
        → create_invoice_funded config reply now buyer seller cur amt commission invoice_total
            provider
            (lock_user_balance buyer.id cur.id db.funds).1
            db
          ≡ ok (deal, deposit, db')
        → IsSound db'
    unfolding new_deal
    invoice_funded-IsSound config reply commission invoice_total done =
        let w : Wallet = (lock_user_balance buyer.id cur.id db.funds).1 in
        let d0 : Deal =
          waiting config reply now buyer seller cur amt commission invoice_total provider w db in
        let (_, (d, db2, asked, deal_eq, deposit_eq, e)) =
          create_invoice_funded-ok config reply now buyer seller cur amt commission invoice_total
            provider w db done in
        let (_, _, _, (_, _, e2)) =
          create_deposit_invoice-ok config reply now buyer.id cur.code invoice_total deal_topup
            provider _ _ asked in
        let inserted : IsSound (insert_deal d0 (with_funds w db)) =
          inserted-IsSound db d0 w refl s parties aligned (λ u c. rw (row_kept u c) (ground arith))
            row-IsReconciled in
        let there : get_deal d0.id (insert_deal d0 (with_funds w db)) ≡ some d0 =
          ground (arith, get-put deal_key d0.id d0 db.deals) in
        subst IsSound (sym e) (
          notify-IsSound _ _ _ _
            (rw (deal_eq, deposit_eq) (attached-IsSound d0 d _ there e2 inserted)))

  Created-IsSound :
      (config : Config) (reply : InvoiceReply) (cur : Currency) {deal : Deal}
      {deposit : Option Deposit} {db' : Db}
      → buyer.id ≢ seller.id
      → ((c : Currency)
          → get_currency cur.id db ≡ some c
          → IsAligned c.decimals (quantize_decimal raw cur.decimals))
      → Created now buyer seller wanted raw provider db config reply cur deal deposit db'
      → IsSound db'
  Created-IsSound config reply cur parties aligned (from_balance db' covered e) =
      subst IsSound (sym (ap (λ (p : Deal × Db). p.1) e))
        (balance_funded-IsSound cur _ parties aligned _ _)
  Created-IsSound config reply cur parties aligned (by_invoice deposit db' short e) =
      invoice_funded-IsSound cur _ parties aligned config reply _ _ e

  -- Where create_deal_with_topup succeeds, from the balance or by an invoice, a sound database
  -- stays sound.
  pub create_deal_with_topup-IsSound :
      (config : Config) (reply : InvoiceReply) {deal : Deal} {deposit : Option Deposit} {db' : Db}
      → create_deal_with_topup config reply now buyer seller wanted raw provider db
        ≡ ok (deal, deposit, db')
      → IsSound db'
  create_deal_with_topup-IsSound config reply done =
      let (parties, (cur, found, _, how)) =
        create_deal_with_topup-ok now buyer seller wanted raw provider db config reply done in
      Created-IsSound config reply cur parties
        (raw-IsAligned raw cur db (get_currency_by_code-keyed wanted db cur s found)) how
