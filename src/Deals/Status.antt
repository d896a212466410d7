-- ===== src/Deals/Status.antt =====
-- The comparisons of `Deal.status` in backend/app/services_deals.py.
use garant.Base.{Bool, true, false}
use garant.Schema.{
  DealStatus, pending_confirmation, in_progress, pending_cancellation, arbitration, pending_topup,
}

abbrev pub is_pending_confirmation : DealStatus → Bool
is_pending_confirmation pending_confirmation = true
is_pending_confirmation _ = false

abbrev pub is_in_progress : DealStatus → Bool
is_in_progress in_progress = true
is_in_progress _ = false

abbrev pub is_pending_cancellation : DealStatus → Bool
is_pending_cancellation pending_cancellation = true
is_pending_cancellation _ = false

abbrev pub is_arbitration : DealStatus → Bool
is_arbitration arbitration = true
is_arbitration _ = false

abbrev pub is_pending_topup : DealStatus → Bool
is_pending_topup pending_topup = true
is_pending_topup _ = false

-- `_ARBITRATION_ELIGIBLE`
abbrev pub is_arbitration_eligible : DealStatus → Bool
is_arbitration_eligible in_progress = true
is_arbitration_eligible pending_cancellation = true
is_arbitration_eligible _ = false

-- The statuses in which the principal stands in the buyer's `locked`.
abbrev pub holds_escrow : DealStatus → Bool
holds_escrow pending_confirmation = true
holds_escrow in_progress = true
holds_escrow pending_cancellation = true
holds_escrow arbitration = true
holds_escrow _ = false
