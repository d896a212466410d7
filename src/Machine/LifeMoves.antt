-- ===== src/Machine/LifeMoves.antt =====
-- The steps of a deal's life and of a dispute (backend/app/services_deals.py) along the edges.
use garant.Base.{
  ℕ, ◌≡◌, refl, sym, ap, ◌∙◌, subst, Bool, true, false, some, ok, List, [], ◌∷◌, ◌==◌,
  if◌then◌else◌, Bool-cases, inl, inr,
}
use garant.Base.Text.{Text}
use garant.Schema.{
  Db, Deal, User, Winner, buyer, seller, other, DealStatus, get_deal, deal_key, notify, deals,
  about_deal, in_progress, pending_cancellation, arbitration,
}
use garant.Base.Table.{put}
use garant.Deals.Status.{is_arbitration_eligible}
use garant.Deals.Lifecycle.{
  accept_deal, decline_deal, finish_deal, request_cancel, revoke_cancel, accept_cancel,
}
use garant.Deals.Lifecycle.Outcomes.{
  accept_deal-ok, decline_deal-ok, finish_deal-ok, request_cancel-ok, revoke_cancel-ok,
  accept_cancel-ok,
}
use garant.Deals.Arbitration.{start_arbitration, resolve_arbitration, tell_once, contains, rule}
use garant.Deals.Arbitration.Outcomes.{start_arbitration-ok, resolve_arbitration-ok}
use garant.Solvency.Steps.{SameTerms}
use garant.Solvency.Closing.{same_terms}
use garant.Machine.{
  Move, taken_on, turned_down, done, cancel_asked, cancel_revoked, cancel_agreed, disputed,
  cancel_disputed, won_by_buyer, won_by_seller, Follows, once, Evolves, Evolves-put,
}

-- A move from the status that the guard has found.
pub from : (a b c : DealStatus) → a ≡ b → Move b c → Follows a c
from a b c e m = subst (λ (x : DealStatus). Follows x c) (sym e) (once b c m)

module _ (d : Deal) (db : Db) (found : get_deal d.id db ≡ some d) where
  -- A state whose deals are those of `db` with one rewritten.
  pub written :
      (d' : Deal) (db' : Db)
      → SameTerms d d'
      → Follows d.status d'.status
      → db'.deals ≡ put deal_key d' db.deals
      → Evolves db.deals db'.deals
  written d' db' terms f e =
      subst (Evolves db.deals) (sym e) (Evolves-put d d' db.deals terms found f)

module _ (now : ℕ) (d : Deal) (user_id : ℕ) (db : Db) {db' : Db}
    (found : get_deal d.id db ≡ some d) where
  pub accept_deal-Evolves : accept_deal now d user_id db ≡ ok db' → Evolves db.deals db'.deals
  accept_deal-Evolves h =
      let (_, st, e) = accept_deal-ok now d user_id db h in
      written d db found _ db' (same_terms d) (from d.status _ _ st taken_on)
        (ap (λ (x : Db). x.deals) e)

  pub decline_deal-Evolves : decline_deal now d user_id db ≡ ok db' → Evolves db.deals db'.deals
  decline_deal-Evolves h =
      let (_, st, (cur, paid_in, e)) = decline_deal-ok now d user_id db h in
      written d db found _ db' (same_terms d) (from d.status _ _ st turned_down)
        (ap (λ (x : Db). x.deals) e)

  pub finish_deal-Evolves : finish_deal now d user_id db ≡ ok db' → Evolves db.deals db'.deals
  finish_deal-Evolves h =
      let (_, st, (cur, paid_in, e)) = finish_deal-ok now d user_id db h in
      written d db found _ db' (same_terms d) (from d.status _ _ st done)
        (ap (λ (x : Db). x.deals) e)

  pub request_cancel-Evolves : request_cancel now d user_id db ≡ ok db' → Evolves db.deals db'.deals
  request_cancel-Evolves h =
      let (_, st, e) = request_cancel-ok now d user_id db h in
      written d db found _ db' (same_terms d) (from d.status _ _ st cancel_asked)
        (ap (λ (x : Db). x.deals) e)

  pub revoke_cancel-Evolves : revoke_cancel d user_id db ≡ ok db' → Evolves db.deals db'.deals
  revoke_cancel-Evolves h =
      let (st, _, e) = revoke_cancel-ok d user_id db h in
      written d db found _ db' (same_terms d) (from d.status _ _ st cancel_revoked)
        (ap (λ (x : Db). x.deals) e)

  pub accept_cancel-Evolves : accept_cancel now d user_id db ≡ ok db' → Evolves db.deals db'.deals
  accept_cancel-Evolves h =
      let (_, st, _, (cur, paid_in, e)) = accept_cancel-ok now d user_id db h in
      written d db found _ db' (same_terms d) (from d.status _ _ st cancel_agreed)
        (ap (λ (x : Db). x.deals) e ∙ one_list (d.seller_id == d.buyer_id) _ _ refl)
    where
      one_list : (b : Bool) (x y : Db) → x.deals ≡ y.deals → (if b then x else y).deals ≡ x.deals
      one_list true x y p = refl
      one_list false x y p = sym p

tell_once-deals :
    (k : ℕ) (seen : List ℕ) (us : List User) (db : Db) → (tell_once k seen us db).deals ≡ db.deals
unfolding tell_once
tell_once-deals k seen [] db = refl
tell_once-deals k seen (u ∷ us) db = elim (Bool-cases (contains u.id seen)) [
  | inl old ↦ rw (old, tell_once) (tell_once-deals k seen us db)
  | inr new ↦
      rw (new, tell_once) (tell_once-deals k (u.id ∷ seen) us (notify u.id deals (about_deal k) db))
]

to_arbitration : (st : DealStatus) → is_arbitration_eligible st ≡ true → Follows st arbitration
to_arbitration in_progress h = once in_progress arbitration disputed
to_arbitration pending_cancellation h = once pending_cancellation arbitration cancel_disputed
to_arbitration _ h = cc

pub start_arbitration-Evolves :
    (d : Deal) (user_id : ℕ) (reason : Text) (db : Db) {db' : Db}
    → get_deal d.id db ≡ some d
    → start_arbitration d user_id reason db ≡ ok db'
    → Evolves db.deals db'.deals
start_arbitration-Evolves d user_id reason db {db' = db'} found h =
    let (_, st, _, e) = start_arbitration-ok d user_id reason db h in
    written d db found _ db' (same_terms d) (to_arbitration d.status st)
      (ap (λ (x : Db). x.deals) e ∙ tell_once-deals d.id [] _ _)

pub resolve_arbitration-Evolves :
    (now : ℕ) (d : Deal) (admin : User) (winner : Winner) (db : Db) {db' : Db}
    → get_deal d.id db ≡ some d
    → resolve_arbitration now d admin winner db ≡ ok db'
    → Evolves db.deals db'.deals
unfolding rule
resolve_arbitration-Evolves now d admin buyer db {db' = db'} found h =
    let (_, st, _, (cur, paid_in, e)) = resolve_arbitration-ok now d admin buyer db h in
    written d db found _ db' (same_terms d) (from d.status _ _ st won_by_buyer)
      (ap (λ (x : Db). x.deals) e)
resolve_arbitration-Evolves now d admin seller db {db' = db'} found h =
    let (_, st, _, (cur, paid_in, e)) = resolve_arbitration-ok now d admin seller db h in
    written d db found _ db' (same_terms d) (from d.status _ _ st won_by_seller)
      (ap (λ (x : Db). x.deals) e)
resolve_arbitration-Evolves now d admin other db {db' = db'} found h =
    let (_, st, _, (cur, paid_in, e)) = resolve_arbitration-ok now d admin other db h in
    written d db found _ db' (same_terms d) (from d.status _ _ st won_by_seller)
      (ap (λ (x : Db). x.deals) e)
