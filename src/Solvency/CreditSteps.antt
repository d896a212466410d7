-- ===== src/Solvency/CreditSteps.antt =====
-- Crediting and expiring deposits (backend/app/services_wallet.py) keeps the
-- invariant.
use garant.Base.{
  ℕ, ◌+◌, ◌≡◌, refl, subst, Option, List, [], ◌∷◌, arith, ◌==◌, ok, Option-cases, Bool-cases, inl,
  inr, >>=-eq-ok, ok_inj,
}
use garant.Wallet.{
  Wallet, record_synthetic_ledger, deposit_trust_credit, deposit_wallet_credit, from_deposit,
}
use garant.Wallet.Trust.{trust-locked_of, trust-IsReconciled}
use garant.Schema.{
  Db, Deposit, Purpose, wallet, trust, deal_topup, User, get_user, get_currency, put_user,
  put_deposit, with_funds,
}
use garant.Deals.Topup.{is_paid}
use garant.Deposits.Invoice.{Config, InvoiceReply}
use garant.Deposits.Credit.{
  credit_trust, credit_wallet, credit_by_purpose, credit_deposit, credit_amount_of, tell_if_priced,
  expire_deposit, expire_all, sweep_expired_deposits, decimals_of, quantize_opt, credited_row,
}
use garant.Solvency.{IsSound}
use garant.Solvency.Funding.{with_funds-IsSound, put_deposit-IsSound}
use garant.Solvency.Closing.{notify-IsSound}
use garant.Solvency.TopupSteps.{credited-IsSound, complete_deal_topup_payment-IsSound}

put_user-IsSound : (u : User) (db : Db) → IsSound db → IsSound (put_user u db)
put_user-IsSound u db s = record {
  backed = s.backed;
  reconciled = s.reconciled;
  deals_sound = s.deals_sound;
  withdrawals_sound = s.withdrawals_sound;
  withdrawals_keyed = s.withdrawals_keyed;
  currencies_keyed = s.currencies_keyed;
  deals_keyed = s.deals_keyed;
}

tell_if_priced-IsSound : (d : Deposit) (db : Db) → IsSound db → IsSound (tell_if_priced d db)
unfolding tell_if_priced
tell_if_priced-IsSound d db s = elim (Option-cases (get_currency d.currency_id db)) [
  | inl missing ↦ rw (tell_if_priced, missing) s
  | inr (c, known) ↦ rw (tell_if_priced, known) (notify-IsSound _ _ _ _ s)
]

credit_trust-IsSound :
    (now credit : ℕ) (reported : Option ℕ) (d : Deposit) (db : Db) {db' : Db}
    → IsSound db
    → credit_trust now credit reported d db ≡ ok db'
    → IsSound db'
unfolding credit_trust
credit_trust-IsSound now credit reported d db {db' = db'} s h =
    elim (Option-cases (get_user d.user_id db)) [
      | inl missing ↦ absurd (ground arith)
      | inr (u, known) ↦
          let w : Wallet =
            record_synthetic_ledger u.id d.currency_id u.trust_deposit_balance
              (u.trust_deposit_balance + credit) deposit_trust_credit (from_deposit d.id)
              db.funds in
          let u' : User = record u { trust_deposit_balance = u.trust_deposit_balance + credit } in
          let d' : Deposit = credited_row now credit reported d in
          let last : put_deposit d' (put_user u' (with_funds w db)) ≡ db' = ground arith in
          subst IsSound last (
            put_deposit-IsSound d' _ (
              put_user-IsSound u' (with_funds w db) (
                with_funds-IsSound w db (trust-locked_of u.id d.currency_id _ _ _ db.funds)
                  (trust-IsReconciled u.id d.currency_id _ _ _ db.funds s.reconciled) s)))
    ]

credit_wallet-IsSound :
    (now credit : ℕ) (reported : Option ℕ) (d : Deposit) (db : Db)
    → IsSound db
    → IsSound (credit_wallet now credit reported d db)
unfolding credit_wallet
credit_wallet-IsSound now credit reported d db s = put_deposit-IsSound _ _ (
    credited-IsSound d.user_id d.currency_id credit deposit_wallet_credit (from_deposit d.id)
      db.funds db refl (λ j k. refl) s.reconciled s)

module _ (config : Config) (reply : InvoiceReply) (now : ℕ) where
  credit_by_purpose-IsSound :
      (p : Purpose) (paid_amount : Option ℕ) (d : Deposit) (db : Db) {db' : Db}
      → IsSound db
      → credit_by_purpose p config reply now paid_amount d db ≡ ok db'
      → IsSound db'
  unfolding credit_by_purpose
  credit_by_purpose-IsSound deal_topup paid_amount d db s h =
      complete_deal_topup_payment-IsSound config reply now paid_amount d db s h
  credit_by_purpose-IsSound trust paid_amount d db s h =
      let (db1, done, e) =
        >>=-eq-ok
          (credit_trust now (credit_amount_of d paid_amount (decimals_of d.currency_id db))
            (quantize_opt paid_amount (decimals_of d.currency_id db)) d db)
          (λ x. ok (tell_if_priced d x)) h in
      subst IsSound (ok_inj e)
        (tell_if_priced-IsSound d db1 (credit_trust-IsSound now _ _ d db s done))
  credit_by_purpose-IsSound wallet paid_amount d db s h =
      subst IsSound (ok_inj h) (tell_if_priced-IsSound d _ (credit_wallet-IsSound now _ _ d db s))

  pub credit_deposit-IsSound :
      (paid_amount : Option ℕ) (d : Deposit) (db : Db) {db' : Db}
      → IsSound db
      → credit_deposit config reply now paid_amount d db ≡ ok db'
      → IsSound db'
  unfolding credit_deposit
  credit_deposit-IsSound paid_amount d db {db' = db'} s h = elim (Bool-cases (is_paid d.status)) [
    | inl old ↦ let same : db ≡ db' = ground arith in subst IsSound same s
    | inr new ↦ credit_by_purpose-IsSound d.purpose paid_amount d db s (ground arith)
  ]

pub expire_deposit-IsSound : (d : Deposit) (db : Db) → IsSound db → IsSound (expire_deposit d db)
unfolding expire_deposit
expire_deposit-IsSound d db s = tell_if_priced-IsSound d _ (put_deposit-IsSound _ db s)

expire_all-IsSound : (rows : List Deposit) (db : Db) → IsSound db → IsSound (expire_all rows db).1
unfolding expire_all
expire_all-IsSound [] db s = s
expire_all-IsSound (row ∷ rows) db s = expire_all-IsSound rows _ (expire_deposit-IsSound row db s)

pub sweep_expired_deposits-IsSound :
    (config : Config) (now : ℕ) (db : Db)
    → IsSound db
    → IsSound (sweep_expired_deposits config now db).1
unfolding sweep_expired_deposits
sweep_expired_deposits-IsSound config now db s =
    elim (Bool-cases (config.wallet_deposit_expiry_seconds == 0)) [
      | inl off ↦ rw (sweep_expired_deposits, off) s
      | inr on ↦ rw (sweep_expired_deposits, on) (expire_all-IsSound _ db s)
    ]
