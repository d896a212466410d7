-- ===== src/Machine/SweepMoves.antt =====
-- Sweeps and new deals (backend/app/services_deals.py) along the edges.
use garant.Base.{
  ℕ, ◌≡◌, ap, Bool, true, false, some, List, [], ◌∷◌, arith, ◌==◌, Bool-cases, Option-cases, inl,
  inr,
}
use garant.Base.Table.{All, put, select, All-map}
use garant.Base.Keyed.{Distinct, Distinct-select, Distinct-found, All-select, All-selected}
use garant.Schema.{
  Db, Deal, DealStatus, get_currency, get_deal, deal_key, pending_confirmation,
  pending_cancellation, cancelled, cancelled_for_inactivity,
}
use garant.Deals.Status.{is_pending_topup}
use garant.Deals.Sweep.{
  is_inactive, is_unpaid, swept_status, close_inactive, close_all, sweep_inactivity, close_unpaid,
  close_all_unpaid, sweep_pending_topup, expiry_hours,
}
use garant.Solvency.{IsSound}
use garant.Solvency.Closing.{same_terms}
use garant.Solvency.Expiry.{expire_linked-deals}
use garant.Solvency.SweepSteps.{close_inactive-others, close_unpaid-others}
use garant.Machine.{
  unanswered, cancel_agreed, unpaid, Follows, once, Evolves, Evolves-refl, Evolves-trans,
  Evolves-put,
}
use garant.Machine.LifeMoves.{from, written}
use garant.Solvency.TopupSteps.{is_pending_topup-eq}

-- The two statuses that the sweep selects.
abbrev is_sweepable : DealStatus → Bool
is_sweepable pending_confirmation = true
is_sweepable pending_cancellation = true
is_sweepable _ = false

sweepable :
    (now : ℕ) (db : Db) (d : Deal)
    → is_inactive now db.settings d ≡ true
    → is_sweepable d.status ≡ true
unfolding is_inactive
sweepable now db d h = ground arith

to_swept : (st : DealStatus) → is_sweepable st ≡ true → Follows st (swept_status st)
to_swept pending_confirmation h = once pending_confirmation cancelled_for_inactivity unanswered
to_swept pending_cancellation h = once pending_cancellation cancelled cancel_agreed
to_swept _ h = cc

close_inactive-Evolves :
    (now : ℕ) (d : Deal) (db : Db)
    → get_deal d.id db ≡ some d
    → is_sweepable d.status ≡ true
    → Evolves db.deals (close_inactive now d db).1.deals
unfolding close_inactive
close_inactive-Evolves now d db found h = elim (Option-cases (get_currency d.currency_id db)) [
  | inl missing ↦ rw (close_inactive, missing) (Evolves-refl db.deals)
  | inr (cur, paid_in) ↦
      rw (close_inactive, paid_in)
        (Evolves-put d (record d { status = swept_status d.status; completed_at = some now })
          db.deals (same_terms d) found (to_swept d.status h))
]

close_all-Evolves :
    (now : ℕ) (rows : List Deal) (db : Db)
    → All (λ (x : Deal). get_deal x.id db ≡ some x) rows
    → Distinct deal_key rows
    → All (λ (x : Deal). is_sweepable x.status ≡ true) rows
    → Evolves db.deals (close_all now rows db).1.deals
unfolding close_all
close_all-Evolves now [] db f distinct h = Evolves-refl db.deals
close_all-Evolves now (d ∷ rows) db f distinct h =
    Evolves-trans db.deals (close_inactive now d db).1.deals _
      (close_inactive-Evolves now d db f.0 h.0)
      (close_all-Evolves now rows (close_inactive now d db).1
        (close_inactive-others now d db rows f.1 distinct.0) distinct.1 h.1)

pub sweep_inactivity-Evolves :
    (now : ℕ) (db : Db) → IsSound db → Evolves db.deals (sweep_inactivity now db).1.deals
unfolding sweep_inactivity
sweep_inactivity-Evolves now db s =
    close_all-Evolves now (select (is_inactive now db.settings) db.deals) db
      (All-select _ _ db.deals (Distinct-found deal_key db.deals s.deals_keyed))
      (Distinct-select deal_key _ db.deals s.deals_keyed)
      (All-map _ _ _ (sweepable now db) (All-selected _ db.deals))

is_unpaid-status :
    (now : ℕ) (db : Db) (d : Deal)
    → is_unpaid now db.settings d ≡ true
    → is_pending_topup d.status ≡ true
is_unpaid-status now db d h = ground arith

close_all_unpaid-Evolves :
    (now : ℕ) (rows : List Deal) (db : Db)
    → All (λ (x : Deal). get_deal x.id db ≡ some x) rows
    → Distinct deal_key rows
    → All (λ (x : Deal). is_pending_topup x.status ≡ true) rows
    → Evolves db.deals (close_all_unpaid now rows db).1.deals
unfolding close_all_unpaid close_unpaid
close_all_unpaid-Evolves now [] db f distinct h = Evolves-refl db.deals
close_all_unpaid-Evolves now (d ∷ rows) db f distinct h =
    Evolves-trans db.deals (close_unpaid now d db).deals _
      (written d db f.0 (record d { status = cancelled_for_inactivity; completed_at = some now })
        (close_unpaid now d db) (same_terms d)
        (from d.status _ _ (is_pending_topup-eq d.status h.0) unpaid)
        (ap (put deal_key _) (expire_linked-deals d.topup_deposit_id db)))
      (close_all_unpaid-Evolves now rows (close_unpaid now d db)
        (close_unpaid-others now d db rows f.1 distinct.0) distinct.1 h.1)

pub sweep_pending_topup-Evolves :
    (now : ℕ) (db : Db) → IsSound db → Evolves db.deals (sweep_pending_topup now db).1.deals
unfolding sweep_pending_topup
sweep_pending_topup-Evolves now db s = elim (Bool-cases (expiry_hours db.settings == 0)) [
  | inl off ↦ rw (sweep_pending_topup, off) (Evolves-refl db.deals)
  | inr on ↦
      rw (sweep_pending_topup, on)
        (close_all_unpaid-Evolves now (select (is_unpaid now db.settings) db.deals) db
          (All-select _ _ db.deals (Distinct-found deal_key db.deals s.deals_keyed))
          (Distinct-select deal_key _ db.deals s.deals_keyed)
          (All-map _ _ _ (is_unpaid-status now db) (All-selected _ db.deals)))
]
