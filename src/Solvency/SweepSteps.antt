-- ===== src/Solvency/SweepSteps.antt =====
-- The sweeps of backend/app/services_deals.py keep the invariant: a loop over the rows that one
-- SELECT gave, each of which stays as it was loaded until its turn.
use garant.Base.{
  ℕ, ◌≡◌, true, false, some, List, [], ◌∷◌, arith, ◌==◌, Option-cases, Bool-cases, inl, inr,
}
use garant.Base.Table.{All, select, All-map}
use garant.Base.Keyed.{
  Distinct, Differs, Distinct-select, Distinct-found, All-select, All-selected, others-found,
}
use garant.Schema.{Db, Deal, DealStatus, get_currency, get_deal, deal_key, cancelled_for_inactivity}
use garant.Deals.Status.{holds_escrow}
use garant.Deals.Sweep.{
  is_inactive, is_unpaid, swept_status, close_inactive, close_all, sweep_inactivity, close_unpaid,
  close_all_unpaid, sweep_pending_topup, expiry_hours,
}
use garant.Solvency.{IsSound}
use garant.Solvency.Closing.{notify-IsSound, refunded-IsSound, same_terms}
use garant.Solvency.Expiry.{abandoned-IsSound, expire_linked-deals}

is_inactive-escrow :
    (now : ℕ) (db : Db) (d : Deal)
    → is_inactive now db.settings d ≡ true
    → holds_escrow d.status ≡ true
unfolding is_inactive
is_inactive-escrow now db d h = ground arith

swept_status-over : (st : DealStatus) → holds_escrow (swept_status st) ≡ false
swept_status-over st = ground arith

close_inactive-IsSound :
    (now : ℕ) (d : Deal) (db : Db)
    → get_deal d.id db ≡ some d
    → holds_escrow d.status ≡ true
    → IsSound db
    → IsSound (close_inactive now d db).1
unfolding close_inactive
close_inactive-IsSound now d db found running s =
    elim (Option-cases (get_currency d.currency_id db)) [
      | inl missing ↦ rw (close_inactive, missing) s
      | inr (cur, paid_in) ↦
          rw (close_inactive, paid_in)
            (notify-IsSound _ _ _ _ (
              notify-IsSound _ _ _ _ (
                refunded-IsSound d _ db cur (same_terms d) found paid_in running
                  (swept_status-over d.status) s)))
    ]

-- The rows still to come are where they were.
pub close_inactive-others :
    (now : ℕ) (d : Deal) (db : Db) (rows : List Deal)
    → All (λ (x : Deal). get_deal x.id db ≡ some x) rows
    → All (Differs deal_key d) rows
    → All (λ (x : Deal). get_deal x.id (close_inactive now d db).1 ≡ some x) rows
unfolding close_inactive
close_inactive-others now d db rows f h = elim (Option-cases (get_currency d.currency_id db)) [
  | inl missing ↦ rw (close_inactive, missing) f
  | inr (cur, paid_in) ↦
      rw (close_inactive, paid_in)
        (others-found deal_key
          (record d { status = swept_status d.status; completed_at = some now }) db.deals rows f h)
]

close_all-IsSound :
    (now : ℕ) (rows : List Deal) (db : Db)
    → All (λ (x : Deal). get_deal x.id db ≡ some x) rows
    → Distinct deal_key rows
    → All (λ (x : Deal). holds_escrow x.status ≡ true) rows
    → IsSound db
    → IsSound (close_all now rows db).1
unfolding close_all
close_all-IsSound now [] db f distinct running s = s
close_all-IsSound now (d ∷ rows) db f distinct running s =
    close_all-IsSound now rows (close_inactive now d db).1
      (close_inactive-others now d db rows f.1 distinct.0) distinct.1 running.1
      (close_inactive-IsSound now d db f.0 running.0 s)

-- The inactivity sweep over all rows that its query selects keeps a sound database sound.
pub sweep_inactivity-IsSound :
    (now : ℕ) (db : Db) → IsSound db → IsSound (sweep_inactivity now db).1
unfolding sweep_inactivity
sweep_inactivity-IsSound now db s =
    close_all-IsSound now (select (is_inactive now db.settings) db.deals) db
      (All-select _ _ db.deals (Distinct-found deal_key db.deals s.deals_keyed))
      (Distinct-select deal_key _ db.deals s.deals_keyed)
      (All-map _ _ _ (is_inactive-escrow now db) (All-selected _ db.deals)) s

pub close_unpaid-others :
    (now : ℕ) (d : Deal) (db : Db) (rows : List Deal)
    → All (λ (x : Deal). get_deal x.id db ≡ some x) rows
    → All (Differs deal_key d) rows
    → All (λ (x : Deal). get_deal x.id (close_unpaid now d db) ≡ some x) rows
unfolding close_unpaid
close_unpaid-others now d db rows f h = rw (expire_linked-deals d.topup_deposit_id db) (
    others-found deal_key (record d { status = cancelled_for_inactivity; completed_at = some now })
      db.deals rows f h)

close_all_unpaid-IsSound :
    (now : ℕ) (rows : List Deal) (db : Db)
    → All (λ (x : Deal). get_deal x.id db ≡ some x) rows
    → Distinct deal_key rows
    → All (λ (x : Deal). holds_escrow x.status ≡ false) rows
    → IsSound db
    → IsSound (close_all_unpaid now rows db).1
unfolding close_all_unpaid close_unpaid
close_all_unpaid-IsSound now [] db f distinct waiting s = s
close_all_unpaid-IsSound now (d ∷ rows) db f distinct waiting s =
    close_all_unpaid-IsSound now rows (close_unpaid now d db)
      (close_unpaid-others now d db rows f.1 distinct.0) distinct.1 waiting.1
      (notify-IsSound _ _ _ _
        (notify-IsSound _ _ _ _ (abandoned-IsSound d _ db (same_terms d) f.0 waiting.0 s)))

is_unpaid-escrow :
    (now : ℕ) (db : Db) (d : Deal)
    → is_unpaid now db.settings d ≡ true
    → holds_escrow d.status ≡ false
is_unpaid-escrow now db d h = ground arith

pub sweep_pending_topup-IsSound :
    (now : ℕ) (db : Db) → IsSound db → IsSound (sweep_pending_topup now db).1
unfolding sweep_pending_topup
sweep_pending_topup-IsSound now db s = elim (Bool-cases (expiry_hours db.settings == 0)) [
  | inl off ↦ rw (sweep_pending_topup, off) s
  | inr on ↦
      rw (sweep_pending_topup, on)
        (close_all_unpaid-IsSound now (select (is_unpaid now db.settings) db.deals) db
          (All-select _ _ db.deals (Distinct-found deal_key db.deals s.deals_keyed))
          (Distinct-select deal_key _ db.deals s.deals_keyed)
          (All-map _ _ _ (is_unpaid-escrow now db) (All-selected _ db.deals)) s)
]
