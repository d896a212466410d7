-- ===== src/Machine/TopupMoves.antt =====
-- The settlement of a top-up (backend/app/services_deals.py) along the edges.
use garant.Base.{
  ℕ, ◌+◌, ◌-◌, ◌≡◌, sym, ap, ◌∙◌, subst, Bool, true, false, ◌||◌, Option, some, ok, arith, ltb,
  ◌==◌, Bool-cases, Option-cases, Result-cases, >>=-eq-ok, ok_inj, inl, inr,
}
use garant.Base.Table.{put, get-put}
use garant.Money.{quantize_money}
use garant.Wallet.{Wallet, lock_user_balance, update_balance, topup_partial_credit, from_deposit}
use garant.Schema.{
  Db, Deal, Deposit, Currency, deal_topup, pending_topup, pending_confirmation, get_deal, get_user,
  get_currency, deal_key, put_deal, put_deposit, with_funds, notify, deals, about_deal,
}
use garant.Deals.Status.{is_pending_topup}
use garant.Deals.Topup.{
  issue_remaining_topup_invoice, remaining_total, settle_partial, settle_activate, settle_late,
  settle_waiting, settle_linked, complete_deal_topup_payment, cancel_pending_topup, commission_due,
  mark_paid, is_paid, linked_deal, paid_or_nominal,
}
use garant.Deposits.Invoice.{Config, InvoiceReply, create_deposit_invoice}
use garant.Deposits.Invoice.Outcomes.{create_deposit_invoice-ok}
use garant.Solvency.Closing.{same_terms}
use garant.Solvency.TopupSteps.{linked_deal-found, is_pending_topup-eq}
use garant.Solvency.Expiry.{cancel_pending_topup-ok, expire_linked-deals}
use garant.Machine.{activated, given_up, same, Evolves, Evolves-refl, Evolves-trans, Evolves-put}
use garant.Machine.LifeMoves.{from, written}

issue-Evolves :
    (config : Config) (reply : InvoiceReply) (now : ℕ) (d : Deal) (cur : Currency) (balance : ℕ)
    (db : Db) {deposit : Option Deposit} {db' : Db}
    → get_deal d.id db ≡ some d
    → issue_remaining_topup_invoice config reply now d cur balance db ≡ ok (deposit, db')
    → Evolves db.deals db'.deals
unfolding issue_remaining_topup_invoice
issue-Evolves config reply now d cur balance db {db' = db'} found h =
    elim (Option-cases (get_user d.buyer_id db)) [
      | inl missing ↦ absurd (ground arith)
      | inr (u, known) ↦ elim (Bool-cases (remaining_total d cur balance == 0)) [
        | inl nothing ↦
            let kept : db ≡ db' = ground arith in
            subst (λ (x : Db). Evolves db.deals x.deals) kept (Evolves-refl db.deals)
        | inr something ↦
            elim (Result-cases (
              create_deposit_invoice config reply now u.id cur.code (remaining_total d cur balance)
                deal_topup d.payment_provider false db)) [
                  | inl (e, raised) ↦ absurd (ground arith)
                  | inr ((p, db1), issued) ↦
                      let (_, _, _, (_, _, e)) =
                        create_deposit_invoice-ok config reply now u.id cur.code _ deal_topup
                          d.payment_provider false db issued in
                      let last : put_deal (record d { topup_deposit_id = some p.id })
                            (put_deposit (record p { linked_deal_id = some d.id }) db1)
                          ≡ db' =
                        ground arith in
                      written d db found (record d { topup_deposit_id = some p.id }) db'
                        (same_terms d) same
                        (sym (ap (λ (x : Db). x.deals) last)
                          ∙ ap
                              (λ (x : Db).
                                put deal_key (record d { topup_deposit_id = some p.id }) x.deals)
                              e)
                ]
      ]
    ]

module _ (config : Config) (reply : InvoiceReply) (now paid : ℕ) (deposit : Deposit) (d : Deal)
    (cur : Currency) (db : Db) (found : get_deal d.id db ≡ some d) where
  abbrev row : Wallet
  row = (lock_user_balance d.buyer_id cur.id db.funds).1

  abbrev charged : Bool → Deal
  charged b = record d { commission_paid = b }

  partial-Evolves :
      (b : Bool) (credit balance : ℕ) {db' : Db}
      → settle_partial config reply now paid credit deposit (charged b) cur row balance db ≡ ok db'
      → Evolves db.deals db'.deals
  unfolding settle_partial
  partial-Evolves b credit balance {db' = db'} h =
      let db1 : Db = put_deal (charged b) (
        put_deposit (mark_paid now (some paid) deposit) (
          with_funds
            (update_balance d.buyer_id cur.id (λ a l. (a + credit, l)) topup_partial_credit
              (from_deposit deposit.id) row)
            db)) in
      let (made, issued, e) =
        >>=-eq-ok (issue_remaining_topup_invoice config reply now (charged b) cur balance db1)
          (λ r. ok (notify d.buyer_id deals (about_deal d.id) r.1)) h in
      let there : get_deal d.id db1 ≡ some (charged b) =
        ground (arith, get-put deal_key d.id (charged b) db.deals) in
      subst (λ (x : Db). Evolves db.deals x.deals) (ok_inj e)
        (Evolves-trans db.deals db1.deals made.1.deals
          (Evolves-put d (charged b) db.deals (same_terms d) found same)
          (issue-Evolves config reply now (charged b) cur balance db1 there issued))

  activate-Evolves :
      (b : Bool) (credit amt : ℕ)
      → d.status ≡ pending_topup
      → Evolves db.deals (settle_activate now paid credit amt deposit (charged b) cur row db).deals
  unfolding settle_activate
  activate-Evolves b credit amt st =
      Evolves-put d (record d { status = pending_confirmation; commission_paid = true }) db.deals
        (same_terms d) found (from d.status _ _ st activated)

  waiting-Evolves :
      {db' : Db}
      → d.status ≡ pending_topup
      → settle_waiting config reply now paid deposit d cur db ≡ ok db'
      → Evolves db.deals db'.deals
  unfolding settle_waiting
  waiting-Evolves {db' = db'} st h = elim (Bool-cases (ltb paid (commission_due d cur))) [
    | inl short ↦ partial-Evolves d.commission_paid paid (balance + paid) {db' = db'} (ground arith)
    | inr enough ↦ elim (Bool-cases (ltb (balance + credit) amt)) [
      | inl low ↦ partial-Evolves charge credit (balance + credit) {db' = db'} (ground arith)
      | inr full ↦
          subst (λ (x : Db). Evolves db.deals x.deals) (active_result enough full)
            (activate-Evolves charge credit amt st)
    ]
  ]
    where
      amt : ℕ
      amt = quantize_money d.amount cur.decimals

      balance : ℕ
      balance = (lock_user_balance d.buyer_id cur.id db.funds).0.amount

      credit : ℕ
      credit = quantize_money (paid - commission_due d cur) cur.decimals

      charge : Bool
      charge = d.commission_paid || ltb 0 (commission_due d cur)

      active_result :
          ltb paid (commission_due d cur) ≡ false
          → ltb (balance + credit) amt ≡ false
          → settle_activate now paid credit amt deposit (charged charge) cur row db ≡ db'
      active_result enough full = ground arith

linked-Evolves :
    (config : Config) (reply : InvoiceReply) (now : ℕ) (paid_amount : Option ℕ) (deposit : Deposit)
    (d : Deal) (db : Db) {db' : Db}
    → get_deal d.id db ≡ some d
    → settle_linked config reply now paid_amount deposit d db ≡ ok db'
    → Evolves db.deals db'.deals
unfolding settle_linked settle_late
linked-Evolves config reply now paid_amount deposit d db {db' = db'} found h =
    elim (Option-cases (get_currency d.currency_id db)) [
      | inl missing ↦ absurd (ground arith)
      | inr (cur, paid_in) ↦
          let paid : ℕ = quantize_money (paid_or_nominal paid_amount deposit.amount) cur.decimals in
          elim (Bool-cases (is_pending_topup d.status)) [
            | inl waiting ↦
                waiting-Evolves config reply now paid deposit d cur db found {db' = db'}
                  (is_pending_topup-eq d.status waiting) (ground arith)
            | inr late ↦
                let kept : db.deals ≡ db'.deals = ground arith in
                subst (Evolves db.deals) kept (Evolves-refl db.deals)
          ]
    ]

pub complete_topup-Evolves :
    (config : Config) (reply : InvoiceReply) (now : ℕ) (paid_amount : Option ℕ) (deposit : Deposit)
    (db : Db) {db' : Db}
    → complete_deal_topup_payment config reply now paid_amount deposit db ≡ ok db'
    → Evolves db.deals db'.deals
unfolding complete_deal_topup_payment
complete_topup-Evolves config reply now paid_amount deposit db {db' = db'} h =
    elim (Bool-cases (is_paid deposit.status)) [
      | inl old ↦
          let kept : db.deals ≡ db'.deals = ground arith in
          subst (Evolves db.deals) kept (Evolves-refl db.deals)
      | inr new ↦ elim (Option-cases (linked_deal deposit db)) [
        | inl unlinked ↦
            let kept : db.deals ≡ db'.deals = ground arith in
            subst (Evolves db.deals) kept (Evolves-refl db.deals)
        | inr (d, linked) ↦
            linked-Evolves config reply now paid_amount deposit d db {db' = db'}
              (linked_deal-found deposit db d linked) (ground arith)
      ]
    ]

pub cancel_pending_topup-Evolves :
    (now : ℕ) (d : Deal) (user_id : ℕ) (db : Db) {db' : Db}
    → get_deal d.id db ≡ some d
    → cancel_pending_topup now d user_id db ≡ ok db'
    → Evolves db.deals db'.deals
cancel_pending_topup-Evolves now d user_id db {db' = db'} found h =
    let (_, st, e) = cancel_pending_topup-ok now d user_id db h in
    written d db found _ db' (same_terms d) (from d.status _ _ st given_up)
      (ap (λ (x : Db). x.deals) e ∙ ap (put deal_key _) (expire_linked-deals d.topup_deposit_id db))
