-- ===== src/Machine/CreditMoves.antt =====
-- Deposits that are credited or expire (backend/app/services_wallet.py) and the deals that they touch.
use garant.Base.{
  ℕ, ◌≡◌, refl, sym, ap, ◌∙◌, subst, not, ◌&&◌, Option, ok, List, [], ◌∷◌, arith, ◌==◌, Bool-cases,
  Option-cases, Result-cases, >>=-eq-ok, ok_inj, inl, inr,
}
use garant.Schema.{Db, Deposit, Purpose, wallet, trust, deal_topup, get_user, get_currency}
use garant.Deals.Topup.{is_paid}
use garant.Deposits.Invoice.{Config, InvoiceReply}
use garant.Deposits.Credit.{
  credit_deposit, credit_by_purpose, credit_trust, credit_wallet, credit_amount_of, decimals_of,
  quantize_opt, tell_if_priced, expire_deposit, expire_all, sweep_expired_deposits,
}
use garant.Deposits.Webhook.{
  Reply, accept_payment, close_unless_terminal, is_deal_topup, amounts_match,
}
use garant.Machine.{Evolves, Evolves-refl}
use garant.Machine.TopupMoves.{complete_topup-Evolves}

tell_if_priced-deals : (d : Deposit) (db : Db) → (tell_if_priced d db).deals ≡ db.deals
unfolding tell_if_priced
tell_if_priced-deals d db = elim (Option-cases (get_currency d.currency_id db)) [
  | inl missing ↦ ground arith
  | inr (c, known) ↦ ground arith
]

pub kept : (db db' : Db) → db'.deals ≡ db.deals → Evolves db.deals db'.deals
kept db db' e = subst (Evolves db.deals) (sym e) (Evolves-refl db.deals)

module _ (config : Config) (reply : InvoiceReply) (now : ℕ) where
  by_purpose-Evolves :
      (p : Purpose) (paid_amount : Option ℕ) (d : Deposit) (db : Db) {db' : Db}
      → credit_by_purpose p config reply now paid_amount d db ≡ ok db'
      → Evolves db.deals db'.deals
  unfolding credit_by_purpose credit_trust credit_wallet
  by_purpose-Evolves deal_topup paid_amount d db h =
      complete_topup-Evolves config reply now paid_amount d db h
  by_purpose-Evolves wallet paid_amount d db {db' = db'} h =
      kept db db' (sym (ap (λ (x : Db). x.deals) (ok_inj h)) ∙ tell_if_priced-deals d _)
  by_purpose-Evolves trust paid_amount d db {db' = db'} h =
      elim (Option-cases (get_user d.user_id db)) [
        | inl missing ↦ absurd (ground arith)
        | inr (u, known) ↦
            let (db1, done, e) =
              >>=-eq-ok
                (credit_trust now (credit_amount_of d paid_amount (decimals_of d.currency_id db))
                  (quantize_opt paid_amount (decimals_of d.currency_id db)) d db)
                (λ x. ok (tell_if_priced d x)) h in
            let written : db1.deals ≡ db.deals = ground arith in
            kept db db'
              (sym (ap (λ (x : Db). x.deals) (ok_inj e)) ∙ tell_if_priced-deals d db1 ∙ written)
      ]

  pub credit_deposit-Evolves :
      (paid_amount : Option ℕ) (d : Deposit) (db : Db) {db' : Db}
      → credit_deposit config reply now paid_amount d db ≡ ok db'
      → Evolves db.deals db'.deals
  unfolding credit_deposit
  credit_deposit-Evolves paid_amount d db {db' = db'} h = elim (Bool-cases (is_paid d.status)) [
    | inl old ↦ kept db db' (ground arith)
    | inr new ↦ by_purpose-Evolves d.purpose paid_amount d db {db' = db'} (ground arith)
  ]

  pub accept_payment-Evolves :
      (reported : Option ℕ) (d : Deposit) (db : Db) {r : Reply} {db' : Db}
      → accept_payment config reply now reported d db ≡ ok (r, db')
      → Evolves db.deals db'.deals
  unfolding accept_payment
  accept_payment-Evolves reported d db {db' = db'} h =
      elim (Bool-cases (not (is_deal_topup d.purpose) && not (amounts_match reported d.amount))) [
        | inl differs ↦ kept db db' (ground arith)
        | inr fits ↦ elim (Result-cases (credit_deposit config reply now reported d db)) [
          | inl (e, raised) ↦ absurd (ground arith)
          | inr (db1, done) ↦ credit_deposit-Evolves reported d db {db' = db'} (ground arith)
        ]
      ]

pub expire_deposit-deals : (d : Deposit) (db : Db) → (expire_deposit d db).deals ≡ db.deals
unfolding expire_deposit
expire_deposit-deals d db = tell_if_priced-deals d _

expire_all-deals : (rows : List Deposit) (db : Db) → (expire_all rows db).1.deals ≡ db.deals
unfolding expire_all
expire_all-deals [] db = refl
expire_all-deals (row ∷ rows) db =
    expire_all-deals rows (expire_deposit row db) ∙ expire_deposit-deals row db

pub sweep_expired-deals :
    (config : Config) (now : ℕ) (db : Db)
    → (sweep_expired_deposits config now db).1.deals ≡ db.deals
unfolding sweep_expired_deposits
sweep_expired-deals config now db = elim (Bool-cases (config.wallet_deposit_expiry_seconds == 0)) [
  | inl off ↦ rw (sweep_expired_deposits, off)
  | inr on ↦ rw (sweep_expired_deposits, on) (expire_all-deals _ db)
]

pub close_unless-deals : (d : Deposit) (db : Db) → (close_unless_terminal d db).1.deals ≡ db.deals
unfolding close_unless_terminal
close_unless-deals d db = ground (arith, expire_deposit-deals d db)
