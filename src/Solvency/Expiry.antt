-- ===== src/Solvency/Expiry.antt =====
-- The end of a deal that waits for its top-up (backend/app/services_deals.py) keeps the invariant.
use garant.Base.{
  ℕ, ◌≡◌, refl, sym, subst, ap, inl, inr, Option, none, some, arith, ok, Option-cases,
}
use garant.Schema.{
  Db, Deal, DepositStatus, pending_topup, cancelled, get_deal, get_deposit, put_deal, notify, deals,
  about_deal,
}
use garant.Deals.Status.{holds_escrow}
use garant.Deals.Topup.{expire_linked, cancel_pending_topup, is_pending}
use garant.Solvency.{IsSound}
use garant.Solvency.Steps.{SameTerms}
use garant.Solvency.Funding.{put_deposit-IsSound}
use garant.Solvency.Closing.{notify-IsSound, kept-IsSound, same_terms, if-IsSound}

pub expire_linked-deals : (o : Option ℕ) (db : Db) → (expire_linked o db).deals ≡ db.deals
unfolding expire_linked
expire_linked-deals none db = refl
expire_linked-deals (some k) db = elim (Option-cases (get_deposit k db)) [
  | inl missing ↦ ground arith
  | inr (d, there) ↦ ground arith
]

pub expire_linked-IsSound : (o : Option ℕ) (db : Db) → IsSound db → IsSound (expire_linked o db)
unfolding expire_linked
expire_linked-IsSound none db s = s
expire_linked-IsSound (some k) db s = elim (Option-cases (get_deposit k db)) [
  | inl missing ↦ rw (expire_linked, missing) s
  | inr (d, there) ↦
      rw (expire_linked, there)
        (if-IsSound (is_pending d.status)
          (put_deposit-IsSound (record d { status = DepositStatus.expired }) db s) s)
]

-- A waiting deal is given up: no escrow ends with it.
pub abandoned-IsSound :
    (deal d' : Deal) (db : Db)
    → SameTerms deal d'
    → get_deal deal.id db ≡ some deal
    → holds_escrow deal.status ≡ holds_escrow d'.status
    → IsSound db
    → IsSound (put_deal d' (expire_linked deal.topup_deposit_id db))
abandoned-IsSound deal d' db same found h s =
    kept-IsSound deal d' (expire_linked deal.topup_deposit_id db) same
      (rw (expire_linked-deals deal.topup_deposit_id db) found) h
      (expire_linked-IsSound deal.topup_deposit_id db s)

pub cancel_pending_topup-ok :
    (now : ℕ) (deal : Deal) (user_id : ℕ) (db : Db) {db' : Db}
    → cancel_pending_topup now deal user_id db ≡ ok db'
    → (user_id ≡ deal.buyer_id)
      × (deal.status ≡ pending_topup)
      × (db'
          ≡ notify deal.seller_id deals (about_deal deal.id) (
              put_deal
                (record deal { status = cancelled; completed_at = some now })
                (expire_linked deal.topup_deposit_id db)))
unfolding cancel_pending_topup
cancel_pending_topup-ok now deal user_id db h = ground arith

pub cancel_pending_topup-IsSound :
    (now : ℕ) (deal : Deal) (user_id : ℕ) (db : Db) {db' : Db}
    → get_deal deal.id db ≡ some deal
    → IsSound db
    → cancel_pending_topup now deal user_id db ≡ ok db'
    → IsSound db'
cancel_pending_topup-IsSound now deal user_id db found s h =
    let (_, st, e) = cancel_pending_topup-ok now deal user_id db h in
    subst IsSound (sym e) (
      notify-IsSound _ _ _ _
        (abandoned-IsSound deal _ db (same_terms deal) found (ap holds_escrow st) s))
