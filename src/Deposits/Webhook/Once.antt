-- ===== src/Deposits/Webhook/Once.antt =====
-- A payment that CryptoBot reports more than once is credited once
-- (backend/app/services_payments.py).
use garant.Base.{
  ℕ, ◌≡◌, refl, sym, subst, ◌∙◌, >>=-eq-ok, ok_inj, Bool, true, false, Option, some, List, [], ◌∷◌,
  arith, ok, Option-cases, Bool-cases, Result-cases, inl, inr,
}
use garant.Base.Table.{get, put, select, first_row}
use garant.Schema.{
  Db, Deposit, cryptobot, Purpose, wallet, trust, deal_topup, deposit_key, get_deposit, get_user,
  get_currency,
}
use garant.Deposits.Invoice.{Config, InvoiceReply}
use garant.Deposits.Credit.{
  credit_deposit, credit_by_purpose, credit_trust, credit_wallet, credit_amount_of, credited_row,
  tell_if_priced, decimals_of, quantize_opt,
}
use garant.Deposits.Webhook.{
  CryptobotPayload, credited, already_paid, already_terminal, handle_invoice_paid,
  handle_invoice_expired, accept_payment, find_wallet_deposit, is_invoice, close_unless_terminal,
  is_deal_topup,
}

-- Writing the row that a query finds first leaves it the first.
first_row-put :
    {A : Type 0} (key : A → ℕ) (p : A → Bool) (d d' : A) (xs : List A)
    → key d' ≡ key d
    → p d' ≡ true
    → first_row (select p xs) ≡ some d
    → get key (key d) xs ≡ some d
    → first_row (select p (put key d' xs)) ≡ some d'
unfolding select get put
first_row-put key p d d' [] k q h g = cc
first_row-put key p d d' (x ∷ xs) k q h g = elim (Bool-cases (p x)) [
  | inl hit ↦ ground arith
  | inr miss ↦ ground (arith, first_row-put key p d d' xs k q)
]

first_row-select :
    {A : Type 0} (p : A → Bool) (d : A) (xs : List A)
    → first_row (select p xs) ≡ some d
    → p d ≡ true
unfolding select
first_row-select p d [] h = cc
first_row-select p d (x ∷ xs) h = elim (Bool-cases (p x)) [
  | inl hit ↦ ground arith
  | inr miss ↦ ground (arith, first_row-select p d xs)
]

tell_if_priced-deposits : (d : Deposit) (db : Db) → (tell_if_priced d db).deposits ≡ db.deposits
unfolding tell_if_priced
tell_if_priced-deposits d db = elim (Option-cases (get_currency d.currency_id db)) [
  | inl missing ↦ ground arith
  | inr (c, known) ↦ ground arith
]

module _ (config : Config) (reply : InvoiceReply) (now : ℕ) (reported : Option ℕ) (d : Deposit)
    (db : Db) where
  abbrev d_paid : Deposit
  d_paid =
      credited_row now (credit_amount_of d reported (decimals_of d.currency_id db))
        (quantize_opt reported (decimals_of d.currency_id db)) d

  credit-deposits :
      (p : Purpose) {db' : Db}
      → is_deal_topup p ≡ false
      → credit_by_purpose p config reply now reported d db ≡ ok db'
      → db'.deposits ≡ put deposit_key d_paid db.deposits
  unfolding credit_by_purpose credit_trust credit_wallet
  credit-deposits deal_topup plain h = cc
  credit-deposits wallet plain h =
      subst (λ (x : Db). x.deposits ≡ put deposit_key d_paid db.deposits) (ok_inj h)
        (tell_if_priced-deposits d (
          credit_wallet now (credit_amount_of d reported (decimals_of d.currency_id db))
            (quantize_opt reported (decimals_of d.currency_id db)) d db))
  credit-deposits trust plain h = elim (Option-cases (get_user d.user_id db)) [
    | inl missing ↦ absurd (ground arith)
    | inr (u, known) ↦
        let (db1, done, e) =
          >>=-eq-ok
            (credit_trust now (credit_amount_of d reported (decimals_of d.currency_id db))
              (quantize_opt reported (decimals_of d.currency_id db)) d db)
            (λ x. ok (tell_if_priced d x)) h in
        let written : db1.deposits ≡ put deposit_key d_paid db.deposits = ground arith in
        subst (λ (x : Db). x.deposits ≡ put deposit_key d_paid db.deposits) (ok_inj e)
          (tell_if_priced-deposits d db1 ∙ written)
  ]

module _ (config : Config) (reply : InvoiceReply) (now invoice_id : ℕ) (payload : CryptobotPayload)
    (d : Deposit) (db : Db) {db' : Db} (asked : payload.invoice_id ≡ some invoice_id)
    (found : find_wallet_deposit invoice_id cryptobot db ≡ some d)
    (stored : get_deposit d.id db ≡ some d) (plain : is_deal_topup d.purpose ≡ false)
    (done : handle_invoice_paid config reply now payload db ≡ ok (credited d.purpose, db')) where
  credit_done : credit_by_purpose d.purpose config reply now payload.amount d db ≡ ok db'
  unfolding handle_invoice_paid accept_payment credit_deposit
  credit_done =
      elim (Result-cases (credit_by_purpose d.purpose config reply now payload.amount d db)) [
        | inl (e, raised) ↦ absurd (ground arith)
        | inr (db1, credited_to) ↦ ground arith
      ]

  stays_found :
      find_wallet_deposit invoice_id cryptobot db'
      ≡ some (d_paid config reply now payload.amount d db)
  unfolding find_wallet_deposit
  stays_found =
      let row : Deposit = d_paid config reply now payload.amount d db in
      let kept =
        first_row-put deposit_key (is_invoice invoice_id cryptobot) d row db.deposits refl
          (first_row-select (is_invoice invoice_id cryptobot) d db.deposits found) found stored in
      subst
        (λ (rows : List Deposit).
          first_row (select (is_invoice invoice_id cryptobot) rows) ≡ some row)
        (sym (credit-deposits config reply now payload.amount d db d.purpose plain credit_done))
        kept

  -- After CryptoBot's report of a payment has credited a stored wallet or trust deposit,
  -- another report of the payment or of its expiry leaves the state as it is.
  pub credited_once :
      (reply' : InvoiceReply) (now' : ℕ) (payload' : CryptobotPayload)
      → payload'.invoice_id ≡ some invoice_id
      → payload'.says_paid ≡ true
      → (handle_invoice_paid config reply' now' payload' db' ≡ ok (already_paid, db'))
        × (handle_invoice_expired payload' db' ≡ (already_terminal, db'))
  unfolding handle_invoice_paid handle_invoice_expired close_unless_terminal
  credited_once reply' now' payload' same paid =
      (ground (arith, stays_found), ground (arith, stays_found))
