-- ===== src/Deals/Sweep.antt =====
-- The two sweeps of backend/app/services_deals.py: `sweep_inactivity` and `sweep_pending_topup`.
-- Each selects its rows once and works through them in one transaction. A cutoff `now - window`
-- is compared as `stamp + window ≤ now`.
use garant.Base.{
  ℕ, ◌+◌, ◌*◌, Bool, false, ◌&&◌, ◌||◌, Option, none, some, List, [], ◌∷◌, leb, ◌==◌, if◌then◌else◌,
}
use garant.Base.Table.{select}
use garant.Money.{quantize_money}
use garant.Schema.{
  Db, Deal, DealStatus, AppSettings, cancelled, cancelled_for_inactivity, get_currency, put_deal,
  with_funds, notify, deals, about_deal,
}
use garant.Deals.Status.{is_pending_confirmation, is_pending_cancellation, is_pending_topup}
use garant.Deals.Escrow.{refund_principal}
use garant.Deals.Topup.{expire_linked}

abbrev pub day : ℕ
day = 86400

abbrev pub hour : ℕ
hour = 3600

-- `stamp <= now - window`
abbrev pub is_past : ℕ → ℕ → ℕ → Bool
is_past now window stamp = leb (stamp + window) now

-- The same on a nullable column.
abbrev pub is_past_opt : ℕ → ℕ → Option ℕ → Bool
is_past_opt now window none = false
is_past_opt now window (some stamp) = is_past now window stamp

unfoldable pub is_inactive : ℕ → AppSettings → Deal → Bool
is_inactive now settings deal =
    (is_pending_confirmation deal.status
      && is_past now (settings.inactivity_pending_confirmation_days * day) deal.created_at)
    || (is_pending_cancellation deal.status
        && is_past_opt now (settings.inactivity_pending_cancellation_days * day)
            deal.cancellation_requested_at)

abbrev pub swept_status : DealStatus → DealStatus
swept_status status = if is_pending_confirmation status then cancelled_for_inactivity else cancelled

abbrev pub notify_both : Deal → Db → Db
notify_both deal db =
    notify deal.seller_id deals (about_deal deal.id)
      (notify deal.buyer_id deals (about_deal deal.id) db)

-- One turn of the loop: what it adds to `affected`, and the state.
unfoldable pub close_inactive : ℕ → Deal → Db → ℕ × Db
close_inactive now deal db = elim (get_currency deal.currency_id db) [
  | none ↦ (0, db)
  | some currency ↦
      let amt = quantize_money deal.amount currency.decimals in
      let funds = refund_principal deal.buyer_id currency.id amt db.funds in
      let closed = record deal { status = swept_status deal.status; completed_at = some now } in
      (1, notify_both deal (put_deal closed (with_funds funds db)))
]

unfoldable pub close_all : ℕ → List Deal → Db → ℕ × Db
close_all now [] db = (0, db)
close_all now (deal ∷ rows) db =
    let (count, db1) = close_inactive now deal db in
    let (rest, db2) = close_all now rows db1 in (count + rest, db2)

unfoldable pub sweep_inactivity : ℕ → Db → ℕ × Db
unfolding select
sweep_inactivity now db = close_all now (select (is_inactive now db.settings) db.deals) db

-- `int(settings.pending_topup_expiry_hours or 24)`
abbrev pub expiry_hours : AppSettings → ℕ
expiry_hours settings =
    if settings.pending_topup_expiry_hours == 0 then 24 else settings.pending_topup_expiry_hours

abbrev pub is_unpaid : ℕ → AppSettings → Deal → Bool
is_unpaid now settings deal =
    is_pending_topup deal.status && is_past now (expiry_hours settings * hour) deal.created_at

unfoldable pub close_unpaid : ℕ → Deal → Db → Db
close_unpaid now deal db = notify_both deal (
    put_deal (record deal { status = cancelled_for_inactivity; completed_at = some now })
      (expire_linked deal.topup_deposit_id db))

unfoldable pub close_all_unpaid : ℕ → List Deal → Db → ℕ × Db
close_all_unpaid now [] db = (0, db)
close_all_unpaid now (deal ∷ rows) db =
    let (rest, db2) = close_all_unpaid now rows (close_unpaid now deal db) in (1 + rest, db2)

unfoldable pub sweep_pending_topup : ℕ → Db → ℕ × Db
unfolding select
sweep_pending_topup now db =
    if expiry_hours db.settings == 0
    then (0, db)
    else close_all_unpaid now (select (is_unpaid now db.settings) db.deals) db
