-- ===== src/Solvency/AdminSteps.antt =====
-- What an admin's settlements do to the invariant, and what the parties get
-- (backend/app/routers/admin/deals.py).
use garant.Base.{ℕ, ◌≤◌, ◌≡◌, ◌≢◌, sym, subst, true, false, some, arith}
use garant.Base.Table.{get-key}
use garant.Base.Keyed.{Distinct-put}
use garant.Wallet.{Wallet, locked_of}
use garant.Wallet.Ledger.{IsReconciled}
use garant.Schema.{
  Db, Deal, Currency, DealStatus, get_deal, get_currency, put_deal, with_funds, deal_key,
}
use garant.Deals.Status.{holds_escrow}
use garant.Admin.Settlement.Effect.{Unlocks, pot}
use garant.Admin.Actions.{is_active_for_money_movement}
use garant.Solvency.{IsSound}
use garant.Solvency.Steps.{
  SameTerms, unlocked-IsBacked, put-deals_sound, deal-IsSound, amount_exact, escrow_covered,
}
use garant.Solvency.Closing.{same_terms}

pub active-holds :
    (st : DealStatus) → is_active_for_money_movement st ≡ true → holds_escrow st ≡ true
active-holds st h = ground arith

pub stored_deal : (k : ℕ) (d : Deal) (db : Db) → get_deal k db ≡ some d → get_deal d.id db ≡ some d
stored_deal k d db found =
    subst (λ (j : ℕ). get_deal j db ≡ some d) (sym (get-key deal_key k d db.deals found)) found

module _ (d : Deal) (cur : Currency) (db : Db) (s : IsSound db) (found : get_deal d.id db ≡ some d)
    (paid_in : get_currency d.currency_id db ≡ some cur)
    (running : holds_escrow d.status ≡ true) where
  pub exact : pot d cur db.funds ≡ d.amount
  exact = amount_exact db d d (same_terms d) found cur paid_in s

  pub keyed : cur.id ≡ d.currency_id
  keyed = get-key (λ (c : Currency). c.id) d.currency_id cur db.currencies paid_in

  pub pot_covered : pot d cur db.funds ≤ locked_of d.buyer_id cur.id db.funds
  pot_covered = rw (exact, keyed) (escrow_covered db d d (same_terms d) found s.backed running)

  pub two_parties : d.buyer_id ≢ d.seller_id
  two_parties = (deal-IsSound db d d (same_terms d) found s).0

  -- A deal that ends with its pot unlocked.
  pub settled-IsSound :
      (d' : Deal) (w : Wallet)
      → SameTerms d d'
      → holds_escrow d'.status ≡ false
      → Unlocks d cur db.funds w
      → IsReconciled w
      → IsSound (put_deal d' (with_funds w db))
  settled-IsSound d' w same over law r = record {
    backed =
        unlocked-IsBacked db d d' same found w running over (λ u c. rw (law u c, exact, keyed))
          s.backed;
    reconciled = r;
    deals_sound = put-deals_sound db d d' same found s;
    withdrawals_sound = s.withdrawals_sound;
    withdrawals_keyed = s.withdrawals_keyed;
    currencies_keyed = s.currencies_keyed;
    deals_keyed = Distinct-put deal_key d' db.deals s.deals_keyed;
  }
