-- ===== src/Machine/Untouched.antt =====
-- Deals and deposits leave the withdrawals alone: the operations of backend/app/services_deals.py
-- and of the deposits in backend/app/services_wallet.py.
use garant.Base.{
  ℕ, ◌≡◌, refl, ap, ◌∙◌, Bool, Option, none, some, List, [], ◌∷◌, arith, ok, ◌==◌, Bool-cases,
  Option-cases, inl, inr,
}
use garant.Base.Text.{Text}
use garant.Money.{Decimal}
use garant.Schema.{
  Db, Deal, Deposit, User, Currency, Withdrawal, Winner, buyer, seller, other, Provider, Purpose,
  deal_topup, get_currency, get_deposit, notify, deals, about_deal,
}
use garant.Deals.Create.{create_deal, create_deal_with_topup, create_balance_funded}
use garant.Deals.Create.Outcomes.{
  create_deal-ok, create_deal_with_topup-ok, create_invoice_funded-ok, Created, from_balance,
  by_invoice,
}
use garant.Deals.Topup.{cancel_pending_topup, expire_linked}
use garant.Deals.Arbitration.{tell_once, contains, start_arbitration, resolve_arbitration, rule}
use garant.Deals.Arbitration.Outcomes.{start_arbitration-ok, resolve_arbitration-ok}
use garant.Deals.Sweep.{
  close_inactive, close_all, sweep_inactivity, close_unpaid, close_all_unpaid, sweep_pending_topup,
  expiry_hours,
}
use garant.Deposits.Invoice.{Config, InvoiceReply, create_deposit_invoice}
use garant.Deposits.Invoice.Outcomes.{create_deposit_invoice-ok}
use garant.Deposits.Credit.{tell_if_priced, expire_deposit, expire_all, sweep_expired_deposits}
use garant.Deposits.Webhook.{close_unless_terminal}

-- The step leaves the table of withdrawals as it is.
abbrev pub Spares : Db → Db → Type 0
Spares db db' = db'.withdrawals ≡ db.withdrawals

abbrev pub rows : Db → List Withdrawal
rows db = db.withdrawals

tell_once-Spares :
    (k : ℕ) (seen : List ℕ) (us : List User) (db : Db) → Spares db (tell_once k seen us db)
unfolding tell_once
tell_once-Spares k seen [] db = refl
tell_once-Spares k seen (u ∷ us) db = elim (Bool-cases (contains u.id seen)) [
  | inl old ↦ rw (old, tell_once) (tell_once-Spares k seen us db)
  | inr new ↦
      rw (new, tell_once)
        (tell_once-Spares k (u.id ∷ seen) us (notify u.id deals (about_deal k) db))
]

pub start_arbitration-Spares :
    (d : Deal) (user_id : ℕ) (reason : Text) (db : Db) {db' : Db}
    → start_arbitration d user_id reason db ≡ ok db'
    → Spares db db'
start_arbitration-Spares d user_id reason db h =
    let (_, _, _, e) = start_arbitration-ok d user_id reason db h in
    ap rows e ∙ tell_once-Spares d.id [] _ _

pub resolve_arbitration-Spares :
    (now : ℕ) (d : Deal) (admin : User) (winner : Winner) (db : Db) {db' : Db}
    → resolve_arbitration now d admin winner db ≡ ok db'
    → Spares db db'
unfolding rule
resolve_arbitration-Spares now d admin buyer db h =
    let (_, _, _, (cur, _, e)) = resolve_arbitration-ok now d admin buyer db h in ap rows e
resolve_arbitration-Spares now d admin seller db h =
    let (_, _, _, (cur, _, e)) = resolve_arbitration-ok now d admin seller db h in ap rows e
resolve_arbitration-Spares now d admin other db h =
    let (_, _, _, (cur, _, e)) = resolve_arbitration-ok now d admin other db h in ap rows e

expire_linked-Spares : (o : Option ℕ) (db : Db) → Spares db (expire_linked o db)
unfolding expire_linked
expire_linked-Spares none db = refl
expire_linked-Spares (some k) db = elim (Option-cases (get_deposit k db)) [
  | inl missing ↦ ground arith
  | inr (d, there) ↦ ground arith
]

pub cancel_pending_topup-Spares :
    (now : ℕ) (d : Deal) (user_id : ℕ) (db : Db) {db' : Db}
    → cancel_pending_topup now d user_id db ≡ ok db'
    → Spares db db'
unfolding cancel_pending_topup
cancel_pending_topup-Spares now d user_id db h =
    ground (arith, expire_linked-Spares d.topup_deposit_id db)

module _ (now : ℕ) where
  close_inactive-Spares : (d : Deal) (db : Db) → Spares db (close_inactive now d db).1
  unfolding close_inactive
  close_inactive-Spares d db = elim (Option-cases (get_currency d.currency_id db)) [
    | inl missing ↦ rw (close_inactive, missing)
    | inr (cur, paid_in) ↦ rw (close_inactive, paid_in)
  ]

  close_all-Spares : (ds : List Deal) (db : Db) → Spares db (close_all now ds db).1
  unfolding close_all
  close_all-Spares [] db = refl
  close_all-Spares (d ∷ ds) db =
      close_all-Spares ds (close_inactive now d db).1 ∙ close_inactive-Spares d db

  pub sweep_inactivity-Spares : (db : Db) → Spares db (sweep_inactivity now db).1
  unfolding sweep_inactivity
  sweep_inactivity-Spares db = close_all-Spares _ db

  close_all_unpaid-Spares : (ds : List Deal) (db : Db) → Spares db (close_all_unpaid now ds db).1
  unfolding close_all_unpaid close_unpaid
  close_all_unpaid-Spares [] db = refl
  close_all_unpaid-Spares (d ∷ ds) db =
      close_all_unpaid-Spares ds (close_unpaid now d db)
      ∙ expire_linked-Spares d.topup_deposit_id db

  pub sweep_pending_topup-Spares : (db : Db) → Spares db (sweep_pending_topup now db).1
  unfolding sweep_pending_topup
  sweep_pending_topup-Spares db = elim (Bool-cases (expiry_hours db.settings == 0)) [
    | inl off ↦ rw (sweep_pending_topup, off)
    | inr on ↦ rw (sweep_pending_topup, on) (close_all_unpaid-Spares _ db)
  ]

pub create_deposit_invoice-Spares :
    (config : Config) (reply : InvoiceReply) (now user_id : ℕ) (wanted : Text) (amount : ℕ)
    (purpose : Purpose) (provider : Provider) (min_check : Bool) (db : Db) (d : Deposit) {db' : Db}
    → create_deposit_invoice config reply now user_id wanted amount purpose provider min_check db
      ≡ ok (d, db')
    → Spares db db'
create_deposit_invoice-Spares config reply now u wanted amount purpose p m db d h =
    let (_, _, _, (_, _, e)) =
      create_deposit_invoice-ok config reply now u wanted amount purpose p m db h in
    ap rows e

module _ (now : ℕ) (b l : User) (wanted : Text) (raw : Decimal) (provider : Provider)
    (db : Db) where
  pub create_deal-Spares :
      {d : Deal} {db' : Db}
      → create_deal now b l wanted raw provider db ≡ ok (d, db')
      → Spares db db'
  create_deal-Spares h =
      let (_, (cur, _, _, _, _, e)) = create_deal-ok now b l wanted raw provider db h in ap rows e

  Created-Spares :
      (config : Config) (reply : InvoiceReply) (cur : Currency) {d : Deal}
      {deposit : Option Deposit} {db' : Db}
      → Created now b l wanted raw provider db config reply cur d deposit db'
      → Spares db db'
  unfolding create_balance_funded
  Created-Spares config reply cur (from_balance db' covered e) =
      ap (λ (p : Deal × Db). p.1.withdrawals) e
  Created-Spares config reply cur (by_invoice deposit db' short e) =
      let (_, (p, db2, asked, _, _, last)) =
        create_invoice_funded-ok config reply now b l cur _ _ _ provider _ db e in
      ap rows last
      ∙ create_deposit_invoice-Spares config reply now b.id cur.code _ deal_topup provider _ _ p
          asked

  pub create_with_topup-Spares :
      (config : Config) (reply : InvoiceReply) {d : Deal} {deposit : Option Deposit} {db' : Db}
      → create_deal_with_topup config reply now b l wanted raw provider db ≡ ok (d, deposit, db')
      → Spares db db'
  create_with_topup-Spares config reply h =
      let (_, (cur, _, _, how)) =
        create_deal_with_topup-ok now b l wanted raw provider db config reply h in
      Created-Spares config reply cur how

pub tell_if_priced-Spares : (d : Deposit) (db : Db) → Spares db (tell_if_priced d db)
unfolding tell_if_priced
tell_if_priced-Spares d db = elim (Option-cases (get_currency d.currency_id db)) [
  | inl missing ↦ ground arith
  | inr (c, known) ↦ ground arith
]

pub expire_deposit-Spares : (d : Deposit) (db : Db) → Spares db (expire_deposit d db)
unfolding expire_deposit
expire_deposit-Spares d db = tell_if_priced-Spares d _

expire_all-Spares : (ds : List Deposit) (db : Db) → Spares db (expire_all ds db).1
unfolding expire_all
expire_all-Spares [] db = refl
expire_all-Spares (d ∷ ds) db =
    expire_all-Spares ds (expire_deposit d db) ∙ expire_deposit-Spares d db

pub sweep_expired-Spares :
    (config : Config) (now : ℕ) (db : Db) → Spares db (sweep_expired_deposits config now db).1
unfolding sweep_expired_deposits
sweep_expired-Spares config now db = elim (Bool-cases (config.wallet_deposit_expiry_seconds == 0)) [
  | inl off ↦ rw (sweep_expired_deposits, off)
  | inr on ↦ rw (sweep_expired_deposits, on) (expire_all-Spares _ db)
]

pub close_unless-Spares : (d : Deposit) (db : Db) → Spares db (close_unless_terminal d db).1
unfolding close_unless_terminal
close_unless-Spares d db = ground (arith, expire_deposit-Spares d db)
