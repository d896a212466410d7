-- ===== src/Solvency/LifeSteps.antt =====
-- Every step of a deal's life (backend/app/services_deals.py) keeps the invariant.
use garant.Base.{ℕ, ◌≡◌, refl, sym, ap, subst, some, ◌==◌, ok}
use garant.Schema.{Db, Deal, cancelled, get_deal, deals, about_deal}
use garant.Deals.Status.{holds_escrow}
use garant.Deals.Lifecycle.{
  accept_deal, decline_deal, finish_deal, request_cancel, revoke_cancel, accept_cancel,
}
use garant.Deals.Lifecycle.Outcomes.{
  accept_deal-ok, decline_deal-ok, finish_deal-ok, request_cancel-ok, revoke_cancel-ok,
  accept_cancel-ok,
}
use garant.Solvency.{IsSound}
use garant.Solvency.Closing.{
  notify-IsSound, update_users-IsSound, kept-IsSound, refunded-IsSound, released-IsSound,
  same_terms, if-IsSound,
}

module _ (now : ℕ) (deal : Deal) (user_id : ℕ) (db : Db) {db' : Db} (s : IsSound db)
    (found : get_deal deal.id db ≡ some deal) where
  -- The seller takes the deal on.
  pub accept_deal-IsSound : accept_deal now deal user_id db ≡ ok db' → IsSound db'
  accept_deal-IsSound done =
      let (_, st, e) = accept_deal-ok now deal user_id db done in
      subst IsSound (sym e) (
        notify-IsSound _ _ _ _ (
          update_users-IsSound _ _ _ _
            (kept-IsSound deal _ db (same_terms deal) found (ap holds_escrow st) s)))

  -- The seller turns the deal down.
  pub decline_deal-IsSound : decline_deal now deal user_id db ≡ ok db' → IsSound db'
  decline_deal-IsSound done =
      let (_, st, (cur, paid_in, e)) = decline_deal-ok now deal user_id db done in
      subst IsSound (sym e) (
        notify-IsSound _ _ _ _ (
          refunded-IsSound deal _ db cur (same_terms deal) found paid_in (ap holds_escrow st) refl
            s))

  pub finish_deal-IsSound : finish_deal now deal user_id db ≡ ok db' → IsSound db'
  finish_deal-IsSound done =
      let (_, st, (cur, paid_in, e)) = finish_deal-ok now deal user_id db done in
      subst IsSound (sym e) (
        notify-IsSound _ _ _ _ (
          update_users-IsSound _ _ _ _ (
            released-IsSound deal _ db cur (same_terms deal) found paid_in (ap holds_escrow st) refl
              s)))

  pub request_cancel-IsSound : request_cancel now deal user_id db ≡ ok db' → IsSound db'
  request_cancel-IsSound done =
      let (_, st, e) = request_cancel-ok now deal user_id db done in
      subst IsSound (sym e) (
        notify-IsSound _ _ _ _
          (kept-IsSound deal _ db (same_terms deal) found (ap holds_escrow st) s))

  pub revoke_cancel-IsSound : revoke_cancel deal user_id db ≡ ok db' → IsSound db'
  revoke_cancel-IsSound done =
      let (st, _, e) = revoke_cancel-ok deal user_id db done in
      subst IsSound (sym e) (
        notify-IsSound _ _ _ _
          (kept-IsSound deal _ db (same_terms deal) found (ap holds_escrow st) s))

  pub accept_cancel-IsSound : accept_cancel now deal user_id db ≡ ok db' → IsSound db'
  accept_cancel-IsSound done =
      let (_, st, _, (cur, paid_in, e)) = accept_cancel-ok now deal user_id db done in
      let told = notify-IsSound deal.buyer_id deals (about_deal deal.id) _ (
        refunded-IsSound deal (record deal { status = cancelled; completed_at = some now }) db cur
          (same_terms deal) found paid_in (ap holds_escrow st) refl s) in
      subst IsSound (sym e) (
        if-IsSound (deal.seller_id == deal.buyer_id) told
          (notify-IsSound deal.seller_id deals (about_deal deal.id) _ told))
