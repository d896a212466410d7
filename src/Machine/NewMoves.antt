-- ===== src/Machine/NewMoves.antt =====
-- New deals (backend/app/services_deals.py) leave the deals that are there.
use garant.Base.{ℕ, ◌≡◌, refl, sym, ap, ◌∙◌, subst, Option, some, ok, false, arith}
use garant.Base.Table.{put, get, get-put}
use garant.Base.Text.{Text}
use garant.Money.{Decimal}
use garant.Schema.{Db, Deal, Deposit, User, Currency, Provider, deal_topup, pending_topup, deal_key}
use garant.Deals.Create.{create_deal, create_deal_with_topup, create_balance_funded, new_deal}
use garant.Deals.Create.Outcomes.{
  create_deal-ok, create_deal_with_topup-ok, Created, from_balance, by_invoice,
  create_invoice_funded-ok, amt, charge,
}
use garant.Deposits.Invoice.{Config, InvoiceReply}
use garant.Deposits.Invoice.Outcomes.{create_deposit_invoice-ok}
use garant.Solvency.{IsSound}
use garant.Solvency.Closing.{same_terms}
use garant.Solvency.Funding.{fresh}
use garant.Machine.{same, Evolves, Evolves-trans, Evolves-insert, Evolves-put}

module _ (now : ℕ) (buyer seller : User) (wanted : Text) (raw : Decimal) (provider : Provider)
    (db : Db) (s : IsSound db) where
  inserted : (d : Deal) → d.id ≡ db.next_deal_id → Evolves db.deals (put deal_key d db.deals)
  inserted d new = Evolves-insert d db.deals (fresh db d db.funds new s)

  -- The same row, written again with its invoice.
  attached :
      (d : Deal) (deposit_id : ℕ)
      → d.id ≡ db.next_deal_id
      → Evolves db.deals
          (put deal_key (record d { topup_deposit_id = some deposit_id }) (put deal_key d db.deals))
  attached d deposit_id new =
      let there : get deal_key d.id (put deal_key d db.deals) ≡ some d =
        ground (arith, get-put deal_key d.id d db.deals) in
      Evolves-trans db.deals (put deal_key d db.deals) _ (inserted d new) (
        Evolves-put d (record d { topup_deposit_id = some deposit_id }) (put deal_key d db.deals)
          (same_terms d) there same)

  pub create_deal-Evolves :
      {d : Deal} {db' : Db}
      → create_deal now buyer seller wanted raw provider db ≡ ok (d, db')
      → Evolves db.deals db'.deals
  unfolding new_deal
  create_deal-Evolves {d = d} h =
      let (_, (cur, _, _, _, d_eq, e)) = create_deal-ok now buyer seller wanted raw provider db h in
      subst (Evolves db.deals) (sym (ap (λ (x : Db). x.deals) e))
        (inserted d (ap (λ (x : Deal). x.id) d_eq))

  Created-Evolves :
      (config : Config) (reply : InvoiceReply) (cur : Currency) {d : Deal}
      {deposit : Option Deposit} {db' : Db}
      → Created now buyer seller wanted raw provider db config reply cur d deposit db'
      → Evolves db.deals db'.deals
  unfolding create_balance_funded new_deal
  Created-Evolves config reply cur (from_balance db' covered e) =
      subst (Evolves db.deals) (sym (ap (λ (p : Deal × Db). p.1.deals) e)) (inserted _ refl)
  Created-Evolves config reply cur {d = d} (by_invoice deposit db' short e) =
      let (_, (p, db2, asked, d_eq, deposit_eq, last)) =
        create_invoice_funded-ok config reply now buyer seller cur _ _ _ provider _ db e in
      let (_, _, _, (_, _, e2)) =
        create_deposit_invoice-ok config reply now buyer.id cur.code _ deal_topup provider _ _
          asked in
      let d0 : Deal =
        new_deal now buyer seller cur (amt now buyer seller wanted raw provider db config reply cur)
          (charge now buyer seller wanted raw provider db config reply cur) pending_topup provider
          false db in
      let chain : db'.deals
          ≡ put deal_key (record d0 { topup_deposit_id = some p.id }) (put deal_key d0 db.deals) =
        ap (λ (x : Db). x.deals) last
        ∙ ap (λ (x : Db). put deal_key d x.deals) e2
        ∙ ap (λ (y : Deal). put deal_key y (put deal_key d0 db.deals)) d_eq in
      subst (Evolves db.deals) (sym chain) (attached d0 p.id refl)

  pub create_with_topup-Evolves :
      (config : Config) (reply : InvoiceReply) {d : Deal} {deposit : Option Deposit} {db' : Db}
      → create_deal_with_topup config reply now buyer seller wanted raw provider db
        ≡ ok (d, deposit, db')
      → Evolves db.deals db'.deals
  create_with_topup-Evolves config reply h =
      let (_, (cur, _, _, how)) =
        create_deal_with_topup-ok now buyer seller wanted raw provider db config reply h in
      Created-Evolves config reply cur how
