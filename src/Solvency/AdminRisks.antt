-- ===== src/Solvency/AdminRisks.antt =====
-- What `force_arbitration` and `delete_deal` of backend/app/routers/admin/deals.py do to the
-- invariant.
use garant.Base.{
  ℕ, ◌+◌, ◌-◌, ◌≤◌, ◌<◌, ◌≡◌, sym, ap, subst, true, false, ◌&&◌, none, some, arith, ◌==◌,
  if◌then◌else◌, ok, Bool-cases, inl, inr,
}
use garant.Base.Table.{get-put, get-key}
use garant.Base.Keyed.{without, sum_by-without}
use garant.Money.{quantize_money}
use garant.Wallet.{Wallet, locked_of, from_deal, deal_release_debit, deal_release_credit}
use garant.Wallet.Ledger.{IsReconciled, replayed_locked}
use garant.Wallet.Total.{total}
use garant.Wallet.Pair.{total-settle_pair}
use garant.Schema.{
  Db, Deal, User, Currency, seller, pending_topup, arbitration, get_deal, get_currency, put_deal,
  deal_key, notify, deals, about_deal, is_terminal,
}
use garant.Deals.Status.{holds_escrow, is_arbitration}
use garant.Deals.Escrow.Books.{pair_settled}
use garant.Deals.Arbitration.{resolve_arbitration, rule}
use garant.Deals.Arbitration.Outcomes.{resolve_arbitration-ok}
use garant.Admin.Actions.{
  is_active_for_money_movement, force_arbitration, delete_deal, refund_deleted,
}
use garant.Solvency.{IsSound, IsBacked, escrow_share}
use garant.Solvency.Steps.{share-put, escrow_covered, amount_exact, deal-IsSound}
use garant.Solvency.Closing.{notify-IsSound, kept-IsSound, same_terms}
use garant.Solvency.AdminSteps.{stored_deal, active-holds}
use garant.Solvency.StaleSteps.{locked_of-update_unrecorded, entries-update_unrecorded}

abbrev opened : User → Deal → Deal
opened admin d = record d { status = arbitration; arbitration_initiator_id = some admin.id }

module _ (admin : User) (k : ℕ) (d : Deal) (db db' : Db) (s : IsSound db)
    (stored : get_deal k db ≡ some d) where
  found : get_deal d.id db ≡ some d
  found = stored_deal k d db stored

  abbrev told : Db
  told =
      notify d.seller_id deals (about_deal d.id)
        (notify d.buyer_id deals (about_deal d.id) (put_deal (opened admin d) db))

  force_arbitration-ok :
      force_arbitration admin k db ≡ ok db'
      → (is_terminal d.status ≡ false) × (db' ≡ (if is_arbitration d.status then db else told))
  unfolding force_arbitration
  force_arbitration-ok h = ground arith

  pub force_arbitration-IsSound :
      holds_escrow d.status ≡ true → force_arbitration admin k db ≡ ok db' → IsSound db'
  force_arbitration-IsSound running h =
      subst IsSound (sym (force_arbitration-ok h).1) (elim (Bool-cases (is_arbitration d.status)) [
        | inl old ↦ rw old s
        | inr new ↦ rw new (
            notify-IsSound _ _ _ _ (
              notify-IsSound _ _ _ _
                (kept-IsSound d (opened admin d) db (same_terms d) found running s)))
      ])

  module _ (waiting : d.status ≡ pending_topup) (h : force_arbitration admin k db ≡ ok db') where
    opened_up : told ≡ db'
    opened_up = ground (arith, force_arbitration-ok h)

    pub force_arbitration-unbacked : 0 < d.amount → ¬ IsBacked db'
    force_arbitration-unbacked positive b =
        let b' : IsBacked told = subst IsBacked (sym opened_up) b in
        ground (
          arith,
          s.backed d.buyer_id d.currency_id,
          b' d.buyer_id d.currency_id,
          share-put db d (opened admin d) (same_terms d) found d.buyer_id d.currency_id,
        )

    reopened : get_deal k db' ≡ some (opened admin d)
    reopened =
        subst (λ (x : Db). get_deal k x ≡ some (opened admin d)) opened_up
          (ground (
            arith,
            get-put deal_key k (opened admin d) db.deals,
            get-key deal_key k d db.deals stored,
          ))

    paid_from_nothing :
        (c : ℕ)
        → locked_of d.buyer_id c db.funds ≡ 0
        → total c
            (garant.Deals.Escrow.release_to d.buyer_id d.seller_id c d.amount d.amount db.funds)
          ≡ total c db.funds + d.amount
    paid_from_nothing c nothing =
        rw (pair_settled d.buyer_id d.seller_id c d.amount d.amount db.funds) (
          ground (
            arith,
            total-settle_pair d.buyer_id d.seller_id c (λ a l. (a, l - d.amount))
                (λ a l. (a + d.amount, l)) deal_release_debit deal_release_credit (from_deal none)
                db.funds (deal-IsSound db d d (same_terms d) found s).0 c,
          ))

    -- In a sound database where the buyer of a deal that waits for its top-up has nothing
    -- locked in its currency, force_arbitration on the deal and a ruling for the seller raise
    -- the total of the currency by the deal's amount.
    pub unfunded-ruling :
        (now : ℕ) (judge : User) (d' : Deal) (db2 : Db)
        → locked_of d.buyer_id d.currency_id db.funds ≡ 0
        → get_deal k db' ≡ some d'
        → resolve_arbitration now d' judge seller db' ≡ ok db2
        → total d.currency_id db2.funds ≡ total d.currency_id db.funds + d.amount
    unfolding rule
    unfunded-ruling now judge d' db2 nothing there done =
        let it : opened admin d ≡ d' = ground (arith, reopened) in
        let done' : resolve_arbitration now (opened admin d) judge seller told ≡ ok db2 =
          subst (λ (x : Db). resolve_arbitration now (opened admin d) judge seller x ≡ ok db2)
            (sym opened_up)
            (subst (λ (x : Deal). resolve_arbitration now x judge seller db' ≡ ok db2) (sym it)
              done) in
        let (_, _, _, (cur, paid_in, e)) =
          resolve_arbitration-ok now (opened admin d) judge seller told done' in
        let priced : get_currency d.currency_id db ≡ some cur = paid_in in
        let same : cur.id ≡ d.currency_id =
          get-key (λ (c : Currency). c.id) d.currency_id cur db.currencies priced in
        rw (e, amount_exact db d d (same_terms d) found cur priced s, same)
          (paid_from_nothing d.currency_id nothing)

  -- A deletion of a deal with an escrow.
  module _ (running : is_active_for_money_movement d.status ≡ true)
      (done : delete_deal k db ≡ ok db') (cur : Currency)
      (paid_in : get_currency d.currency_id db ≡ some cur) where
    abbrev refunded : Wallet
    refunded = refund_deleted d (some cur) db.funds

    delete_deal-ok :
        (db'.funds ≡ refunded)
        × (db'.deals ≡ without deal_key k db.deals)
        × (db'.withdrawals ≡ db.withdrawals)
    unfolding delete_deal
    delete_deal-ok = ground arith

    refunded-entries : refunded.entries ≡ db.funds.entries
    unfolding refund_deleted
    refunded-entries = ground (
      arith,
      entries-update_unrecorded d.buyer_id cur.id
          (λ a l.
            (a + quantize_money d.amount cur.decimals, l - quantize_money d.amount cur.decimals))
          db.funds,
    )

    refunded-locked :
        (u c : ℕ)
        → locked_of u c refunded ≡ (
            if d.buyer_id == u && d.currency_id == c
            then locked_of d.buyer_id d.currency_id db.funds - d.amount
            else locked_of u c db.funds)
    unfolding refund_deleted
    refunded-locked u c = ground (
      arith,
      locked_of-update_unrecorded d.buyer_id cur.id
          (λ a l.
            (a + quantize_money d.amount cur.decimals, l - quantize_money d.amount cur.decimals))
          db.funds u c,
      amount_exact db d d (same_terms d) found cur paid_in s,
      get-key (λ (x : Currency). x.id) d.currency_id cur db.currencies paid_in,
    )

    covered : d.amount ≤ locked_of d.buyer_id d.currency_id db.funds
    covered = escrow_covered db d d (same_terms d) found s.backed (active-holds d.status running)

    pub delete_deal-IsBacked : IsBacked db'
    delete_deal-IsBacked u c =
        rw (delete_deal-ok.0, delete_deal-ok.1, delete_deal-ok.2)
          (ground (
            arith,
            refunded-locked u c,
            s.backed u c,
            covered,
            sum_by-without deal_key k (escrow_share u c) d db.deals s.deals_keyed stored,
            active-holds d.status running,
          ))

    -- In a sound database, the deletion of a deal with an escrow of a positive amount keeps
    -- the locked funds backed and leaves a ledger that no longer replays to the balance rows.
    pub delete_deal-unrecorded : 0 < d.amount → IsBacked db' × ¬ IsReconciled db'.funds
    delete_deal-unrecorded positive = (
      delete_deal-IsBacked,
      λ r. ground (
        arith,
        (subst IsReconciled delete_deal-ok.0 r d.buyer_id d.currency_id).1,
        (s.reconciled d.buyer_id d.currency_id).1,
        ap (replayed_locked d.buyer_id d.currency_id) refunded-entries,
        refunded-locked d.buyer_id d.currency_id,
        covered,
      ),
    )
