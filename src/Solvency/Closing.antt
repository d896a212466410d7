-- ===== src/Solvency/Closing.antt =====
-- How a step of a deal closes: what it does to the invariant, by what it does with the escrow.
use garant.Base.{
  ℕ, ◌+◌, ◌≡◌, refl, sym, subst, inl, inr, Bool, true, false, some, List, [], ◌∷◌, if◌then◌else◌,
  Bool-cases,
}
use garant.Base.Table.{get-key}
use garant.Base.Keyed.{Distinct-put}
use garant.Schema.{
  Db, deal_key, Deal, Deposit, put_deposit, User, Currency, NotificationType, Subject, get_currency,
  get_deal, put_deal, notify, update_users, deals, about_deal,
}
use garant.Deals.Status.{holds_escrow}
use garant.Deals.Escrow.Effect.{locked_of-refund_principal, locked_of-release_to}
use garant.Deals.Escrow.Books.{refund_principal-IsReconciled, release_to-IsReconciled}
use garant.Deals.Lifecycle.Outcomes.{principal, refunded, released}
use garant.Deals.Arbitration.{tell_once, contains}
use garant.Solvency.{IsSound}
use garant.Solvency.Funding.{put_deposit-IsSound, next_deposit-IsSound}
use garant.Solvency.Steps.{
  SameTerms, kept-IsBacked, unlocked-IsBacked, put-deals_sound, deal-IsSound, amount_exact,
}

pub notify-IsSound :
    (u : ℕ) (kind : NotificationType) (about : Subject) (db : Db)
    → IsSound db
    → IsSound (notify u kind about db)
notify-IsSound u kind about db s = record {
  backed = s.backed;
  reconciled = s.reconciled;
  deals_sound = s.deals_sound;
  withdrawals_sound = s.withdrawals_sound;
  withdrawals_keyed = s.withdrawals_keyed;
  currencies_keyed = s.currencies_keyed;
  deals_keyed = s.deals_keyed;
}

pub update_users-IsSound :
    (a b : ℕ) (change : User → User) (db : Db) → IsSound db → IsSound (update_users a b change db)
update_users-IsSound a b change db s = record {
  backed = s.backed;
  reconciled = s.reconciled;
  deals_sound = s.deals_sound;
  withdrawals_sound = s.withdrawals_sound;
  withdrawals_keyed = s.withdrawals_keyed;
  currencies_keyed = s.currencies_keyed;
  deals_keyed = s.deals_keyed;
}

pub tell_once-IsSound :
    (k : ℕ) (seen : List ℕ) (us : List User) (db : Db)
    → IsSound db
    → IsSound (tell_once k seen us db)
unfolding tell_once
tell_once-IsSound k seen [] db s = s
tell_once-IsSound k seen (u ∷ us) db s = elim (Bool-cases (contains u.id seen)) [
  | inl old ↦ rw (old, tell_once) (tell_once-IsSound k seen us db s)
  | inr new ↦
      rw (new, tell_once)
        (tell_once-IsSound k (u.id ∷ seen) us _ (notify-IsSound u.id deals (about_deal k) db s))
]

module _ (deal d' : Deal) (db : Db) where
  -- A step that only rewrites the deal.
  pub kept-IsSound :
      SameTerms deal d'
      → get_deal deal.id db ≡ some deal
      → holds_escrow deal.status ≡ holds_escrow d'.status
      → IsSound db
      → IsSound (put_deal d' db)
  kept-IsSound same found h s = record {
    backed = kept-IsBacked db deal d' same found h s.backed;
    reconciled = s.reconciled;
    deals_sound = put-deals_sound db deal d' same found s;
    withdrawals_sound = s.withdrawals_sound;
    withdrawals_keyed = s.withdrawals_keyed;
    currencies_keyed = s.currencies_keyed;
    deals_keyed = Distinct-put deal_key d' db.deals s.deals_keyed;
  }

  module _ (cur : Currency) (same : SameTerms deal d') (found : get_deal deal.id db ≡ some deal)
      (paid_in : get_currency deal.currency_id db ≡ some cur)
      (running : holds_escrow deal.status ≡ true) (over : holds_escrow d'.status ≡ false)
      (s : IsSound db) where
    pub same_currency : cur.id ≡ deal.currency_id
    same_currency = get-key (λ (c : Currency). c.id) deal.currency_id cur db.currencies paid_in

    exact : principal deal cur ≡ deal.amount
    exact = amount_exact db deal d' same found cur paid_in s

    -- A step that ends the escrow by a refund.
    pub refunded-IsSound : IsSound (put_deal d' (refunded deal cur db))
    refunded-IsSound = record {
      backed =
          unlocked-IsBacked db deal d' same found _ running over
            (λ u c. rw (
              locked_of-refund_principal deal.buyer_id cur.id (principal deal cur) db.funds u c,
              exact,
              same_currency,
            ))
            s.backed;
      reconciled =
          refund_principal-IsReconciled deal.buyer_id cur.id (principal deal cur) db.funds
            s.reconciled;
      deals_sound = put-deals_sound db deal d' same found s;
      withdrawals_sound = s.withdrawals_sound;
      withdrawals_keyed = s.withdrawals_keyed;
      currencies_keyed = s.currencies_keyed;
      deals_keyed = Distinct-put deal_key d' db.deals s.deals_keyed;
    }

    -- A step that ends the escrow by a payment to the seller.
    pub released-IsSound : IsSound (put_deal d' (released deal cur db))
    released-IsSound = record {
      backed =
          unlocked-IsBacked db deal d' same found _ running over
            (λ u c. rw (
              locked_of-release_to deal.buyer_id deal.seller_id cur.id (principal deal cur)
                  (principal deal cur) db.funds u c,
              exact,
              same_currency,
            ))
            s.backed;
      reconciled =
          release_to-IsReconciled deal.buyer_id deal.seller_id cur.id _ _ db.funds
            (deal-IsSound db deal d' same found s).0 s.reconciled;
      deals_sound = put-deals_sound db deal d' same found s;
      withdrawals_sound = s.withdrawals_sound;
      withdrawals_keyed = s.withdrawals_keyed;
      currencies_keyed = s.currencies_keyed;
      deals_keyed = Distinct-put deal_key d' db.deals s.deals_keyed;
    }

pub if-IsSound : (b : Bool) {x y : Db} → IsSound x → IsSound y → IsSound (if b then x else y)
if-IsSound true s t = s
if-IsSound false s t = t

pub same_terms : (d : Deal) → SameTerms d d
same_terms d = (refl, refl, refl, refl, refl)

-- A fresh invoice that is linked with its deal, both ways.
pub attached-IsSound :
    (deal : Deal) (d : Deposit) (db : Db) {db2 : Db}
    → get_deal deal.id db ≡ some deal
    → db2 ≡ put_deposit d (record db { next_deposit_id = db.next_deposit_id + 1 })
    → IsSound db
    → IsSound (
        put_deal
          (record deal { topup_deposit_id = some d.id })
          (put_deposit (record d { linked_deal_id = some deal.id }) db2))
attached-IsSound deal d db {db2 = db2} found e s =
    let linked : Deposit = record d { linked_deal_id = some deal.id } in
    kept-IsSound deal (record deal { topup_deposit_id = some d.id }) (put_deposit linked db2)
      (same_terms deal) (rw e found) refl
      (put_deposit-IsSound linked db2
        (subst IsSound (sym e) (put_deposit-IsSound d _ (next_deposit-IsSound _ db s))))
