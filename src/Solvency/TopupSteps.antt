-- ===== src/Solvency/TopupSteps.antt =====
-- The settlement of a top-up and its cancellation (backend/app/services_deals.py) keep the invariant.
use garant.Base.{
  ℕ, ◌+◌, ◌-◌, ◌≡◌, refl, sym, subst, inl, inr, Option, Bool, true, false, ◌||◌, some, arith, ltb,
  ◌==◌, ok, Option-cases, Bool-cases, Result-cases, >>=-eq-ok, ok_inj,
}
use garant.Base.Table.{get-put, get-key}
use garant.Money.{quantize_money}
use garant.Wallet.{
  Wallet, Event, Source, lock_user_balance, locked_of, update_balance, topup_late_credit,
  topup_partial_credit, topup_activate, from_deposit,
}
use garant.Wallet.Rows.{locked_of-lock_user_balance, locked_of-update_balance}
use garant.Wallet.Ledger.{
  IsReconciled, is_balance_event, lock_user_balance-IsReconciled, update_balance-IsReconciled,
}
use garant.Schema.{
  Db, Deal, Deposit, DealStatus, User, Currency, deal_topup, pending_topup, pending_confirmation,
  get_user, get_deal, get_currency, put_deal, put_deposit, with_funds, deal_key, notify, deals,
  about_deal,
}
use garant.Deals.Status.{is_pending_topup}
use garant.Deposits.Invoice.{Config, InvoiceReply, create_deposit_invoice}
use garant.Deposits.Invoice.Outcomes.{create_deposit_invoice-ok}
use garant.Deals.Topup.{
  issue_remaining_topup_invoice, remaining_total, commission_due, settle_unlinked, settle_late,
  settle_partial, settle_activate, settle_waiting, settle_linked, complete_deal_topup_payment,
  linked_deal, mark_paid, paid_or_nominal, is_paid,
}
use garant.Solvency.{IsSound, escrow_share}
use garant.Solvency.Steps.{amount_exact}
use garant.Solvency.Funding.{with_funds-IsSound, put_deposit-IsSound, moved-IsSound}
use garant.Solvency.Closing.{notify-IsSound, kept-IsSound, attached-IsSound, same_terms}

-- A replacement invoice.
issue-IsSound :
    (config : Config) (reply : InvoiceReply) (now : ℕ) (deal : Deal) (cur : Currency) (balance : ℕ)
    (db : Db) {deposit : Option Deposit} {db' : Db}
    → get_deal deal.id db ≡ some deal
    → issue_remaining_topup_invoice config reply now deal cur balance db ≡ ok (deposit, db')
    → IsSound db
    → IsSound db'
unfolding issue_remaining_topup_invoice
issue-IsSound config reply now deal cur balance db {db' = db'} found h s =
    elim (Option-cases (get_user deal.buyer_id db)) [
      | inl missing ↦ absurd (ground arith)
      | inr (buyer, known) ↦ elim (Bool-cases (remaining_total deal cur balance == 0)) [
        | inl nothing ↦ subst IsSound (same nothing known) s
        | inr something ↦
            elim (Result-cases (
              create_deposit_invoice config reply now buyer.id cur.code
                (remaining_total deal cur balance) deal_topup deal.payment_provider false db)) [
                  | inl (e, failed) ↦ absurd (ground arith)
                  | inr ((d, db1), done) ↦
                      let (_, _, _, (_, _, e)) =
                        create_deposit_invoice-ok config reply now buyer.id cur.code _ deal_topup
                          deal.payment_provider false db done in
                      let last : put_deal (record deal { topup_deposit_id = some d.id })
                            (put_deposit (record d { linked_deal_id = some deal.id }) db1)
                          ≡ db' =
                        ground arith in
                      subst IsSound last (attached-IsSound deal d db found e s)
                ]
      ]
    ]
  where
    same :
        {buyer : User}
        → (remaining_total deal cur balance == 0) ≡ true
        → get_user deal.buyer_id db ≡ some buyer
        → db ≡ db'
    same nothing known = ground arith

-- A credit to the spendable part of a row.
module _ (u c credit : ℕ) (ev : Event) (src : Source) (w : Wallet) (db : Db)
    (counted : is_balance_event ev ≡ true)
    (kept : (j k : ℕ) → locked_of j k w ≡ locked_of j k db.funds) (r : IsReconciled w)
    (s : IsSound db) where
  pub credited-IsSound :
      IsSound (with_funds (update_balance u c (λ a l. (a + credit, l)) ev src w) db)
  credited-IsSound =
      with_funds-IsSound _ db
        (λ j k. ground (
          arith,
          locked_of-update_balance u c (λ a l. (a + credit, l)) ev src w j k,
          kept u c,
          kept j k,
        ))
        (update_balance-IsReconciled u c (λ a l. (a + credit, l)) ev src w counted r) s

module _ (config : Config) (reply : InvoiceReply) (now paid : ℕ) (deposit : Deposit) (deal : Deal)
    (cur : Currency) (db : Db) (found : get_deal deal.id db ≡ some deal) (s : IsSound db) where
  abbrev row : Wallet
  row = (lock_user_balance deal.buyer_id cur.id db.funds).1

  row_kept : (j k : ℕ) → locked_of j k row ≡ locked_of j k db.funds
  row_kept j k = locked_of-lock_user_balance deal.buyer_id cur.id j k db.funds

  row-IsReconciled : IsReconciled row
  row-IsReconciled = lock_user_balance-IsReconciled deal.buyer_id cur.id db.funds s.reconciled

  settle_late-IsSound : IsSound (settle_late now paid deposit deal cur db)
  unfolding settle_late
  settle_late-IsSound = notify-IsSound _ _ _ _ (
      put_deposit-IsSound _ _ (
        credited-IsSound deal.buyer_id cur.id paid topup_late_credit (from_deposit deposit.id)
          db.funds db refl (λ j k. refl) s.reconciled s))

  -- The deal, whether or not its commission is paid by now.
  abbrev charged : Bool → Deal
  charged b = record deal { commission_paid = b }

  abbrev partly_paid : Bool → ℕ → Db
  partly_paid b credit = put_deal (charged b) (
      put_deposit (mark_paid now (some paid) deposit) (
        with_funds
          (update_balance deal.buyer_id cur.id (λ a l. (a + credit, l)) topup_partial_credit
            (from_deposit deposit.id) row)
          db))

  partly_paid-IsSound : (b : Bool) (credit : ℕ) → IsSound (partly_paid b credit)
  partly_paid-IsSound b credit = kept-IsSound deal (charged b) _ (same_terms deal) found refl (
      put_deposit-IsSound _ _ (
        credited-IsSound deal.buyer_id cur.id credit topup_partial_credit (from_deposit deposit.id)
          row db refl row_kept row-IsReconciled s))

  settle_partial-IsSound :
      (b : Bool) (credit balance : ℕ) {db' : Db}
      → settle_partial config reply now paid credit deposit (charged b) cur row balance db ≡ ok db'
      → IsSound db'
  unfolding settle_partial
  settle_partial-IsSound b credit balance h =
      let (made, issued, e) =
        >>=-eq-ok
          (issue_remaining_topup_invoice config reply now (charged b) cur balance
            (partly_paid b credit))
          (λ r. ok (notify deal.buyer_id deals (about_deal deal.id) r.1)) h in
      let there : get_deal deal.id (partly_paid b credit) ≡ some (charged b) =
        ground (arith, get-put deal_key deal.id (charged b) db.deals) in
      subst IsSound (ok_inj e) (
        notify-IsSound _ _ _ _ (
          issue-IsSound config reply now (charged b) cur balance (partly_paid b credit) there issued
            (partly_paid-IsSound b credit)))

  module _ (paid_in : get_currency deal.currency_id db ≡ some cur)
      (waiting : deal.status ≡ pending_topup) where
    abbrev active : Deal
    active = record deal { status = pending_confirmation; commission_paid = true }

    abbrev active_wallet : ℕ → Wallet
    active_wallet credit =
        update_balance deal.buyer_id cur.id
          (λ a l. (
            a + credit - quantize_money deal.amount cur.decimals,
            l + quantize_money deal.amount cur.decimals,
          ))
          topup_activate (from_deposit deposit.id) row

    active_share :
        (credit u c : ℕ)
        → locked_of u c (active_wallet credit) + escrow_share u c deal
          ≡ locked_of u c db.funds + escrow_share u c active
    active_share credit u c = ground (
      arith,
      locked_of-update_balance deal.buyer_id cur.id
          (λ a l. (
            a + credit - quantize_money deal.amount cur.decimals,
            l + quantize_money deal.amount cur.decimals,
          ))
          topup_activate (from_deposit deposit.id) row u c,
      row_kept deal.buyer_id cur.id,
      row_kept u c,
      amount_exact db deal active (same_terms deal) found cur paid_in s,
      get-key (λ (x : Currency). x.id) deal.currency_id cur db.currencies paid_in,
    )

    settle_activate-IsSound :
        (b : Bool) (credit : ℕ)
        → IsSound (
            settle_activate now paid credit
              (quantize_money deal.amount cur.decimals)
              deposit
              (charged b)
              cur
              row
              db)
    unfolding settle_activate
    settle_activate-IsSound b credit = notify-IsSound _ _ _ _ (
        notify-IsSound _ _ _ _ (
          put_deposit-IsSound (mark_paid now (some paid) deposit) _ (
            moved-IsSound db deal active (active_wallet credit) (same_terms deal) found
              (active_share credit)
              (update_balance-IsReconciled deal.buyer_id cur.id _ topup_activate
                (from_deposit deposit.id) row refl row-IsReconciled)
              s)))

    settle_waiting-IsSound :
        {db' : Db} → settle_waiting config reply now paid deposit deal cur db ≡ ok db' → IsSound db'
    unfolding settle_waiting
    settle_waiting-IsSound {db' = db'} h = elim (Bool-cases (ltb paid (commission_due deal cur))) [
      | inl short ↦ settle_partial-IsSound deal.commission_paid paid (balance + paid) (ground arith)
      | inr enough ↦ elim (Bool-cases (ltb (balance + credit) amt)) [
        | inl low ↦ settle_partial-IsSound charge credit (balance + credit) (ground arith)
        | inr full ↦
            subst IsSound (active_result enough full) (settle_activate-IsSound charge credit)
      ]
    ]
      where
        amt : ℕ
        amt = quantize_money deal.amount cur.decimals

        balance : ℕ
        balance = (lock_user_balance deal.buyer_id cur.id db.funds).0.amount

        credit : ℕ
        credit = quantize_money (paid - commission_due deal cur) cur.decimals

        charge : Bool
        charge = deal.commission_paid || ltb 0 (commission_due deal cur)

        active_result :
            ltb paid (commission_due deal cur) ≡ false
            → ltb (balance + credit) amt ≡ false
            → settle_activate now paid credit amt deposit (charged charge) cur row db ≡ db'
        active_result enough full = ground arith

pub is_pending_topup-eq : (st : DealStatus) → is_pending_topup st ≡ true → st ≡ pending_topup
is_pending_topup-eq st h = ground arith

settle_linked-IsSound :
    (config : Config) (reply : InvoiceReply) (now : ℕ) (paid_amount : Option ℕ) (deposit : Deposit)
    (deal : Deal) (db : Db) {db' : Db}
    → get_deal deal.id db ≡ some deal
    → IsSound db
    → settle_linked config reply now paid_amount deposit deal db ≡ ok db'
    → IsSound db'
unfolding settle_linked
settle_linked-IsSound config reply now paid_amount deposit deal db {db' = db'} found s h =
    elim (Option-cases (get_currency deal.currency_id db)) [
      | inl missing ↦ absurd (ground arith)
      | inr (cur, paid_in) ↦
          let paid : ℕ = quantize_money (paid_or_nominal paid_amount deposit.amount) cur.decimals in
          elim (Bool-cases (is_pending_topup deal.status)) [
            | inl waiting ↦
                settle_waiting-IsSound config reply now paid deposit deal cur db found s paid_in
                  (is_pending_topup-eq deal.status waiting) (ground arith)
            | inr late ↦
                let last : settle_late now paid deposit deal cur db ≡ db' = ground arith in
                subst IsSound last
                  (settle_late-IsSound config reply now paid deposit deal cur db found s)
          ]
    ]

pub linked_deal-found :
    (deposit : Deposit) (db : Db) (deal : Deal)
    → linked_deal deposit db ≡ some deal
    → get_deal deal.id db ≡ some deal
linked_deal-found deposit db deal h = elim (Option-cases deposit.linked_deal_id) [
  | inl unlinked ↦ absurd (ground arith)
  | inr (k, linked) ↦
      let there : get_deal k db ≡ some deal = ground arith in
      subst (λ (j : ℕ). get_deal j db ≡ some deal) (sym (get-key deal_key k deal db.deals there))
        there
]

-- Where complete_deal_topup_payment succeeds, on every branch, a sound database stays sound.
pub complete_deal_topup_payment-IsSound :
    (config : Config) (reply : InvoiceReply) (now : ℕ) (paid_amount : Option ℕ) (deposit : Deposit)
    (db : Db) {db' : Db}
    → IsSound db
    → complete_deal_topup_payment config reply now paid_amount deposit db ≡ ok db'
    → IsSound db'
unfolding complete_deal_topup_payment
complete_deal_topup_payment-IsSound config reply now paid_amount deposit db {db' = db'} s h =
    elim (Bool-cases (is_paid deposit.status)) [
      | inl old ↦ let same : db ≡ db' = ground arith in subst IsSound same s
      | inr new ↦ elim (Option-cases (linked_deal deposit db)) [
        | inl unlinked ↦
            let last : settle_unlinked now paid_amount deposit db ≡ db' = ground arith in
            subst IsSound last (put_deposit-IsSound _ db s)
        | inr (deal, linked) ↦
            let settled : settle_linked config reply now paid_amount deposit deal db ≡ ok db' =
              ground arith in
            settle_linked-IsSound config reply now paid_amount deposit deal db
              (linked_deal-found deposit db deal linked) s settled
      ]
    ]
