-- ===== src/Deals/Lifecycle.antt =====
-- `accept_deal`, `decline_deal`, `finish_deal`, `request_cancel`, `revoke_cancel` and
-- `accept_cancel` of backend/app/services_deals.py. The caller has loaded `deal` under its row lock
-- and `user_id` is the session's user. The columns `amount` and `currency_id` are NOT NULL.
pub mod Outcomes
pub mod Terminal
use garant.Base.{
  ℕ, ◌+◌, true, Bool, false, not, ◌||◌, Option, none, some, ◌==◌, Result, ok, ◌>>=◌, ◌>>◌, raise_if,
  or_raise, if◌then◌else◌,
}
use garant.Money.{quantize_money}
use garant.Schema.{
  Db, Deal, Error, cancelled, in_progress, completed, pending_cancellation, get_currency, put_deal,
  with_funds, notify, update_users, deals, about_deal, not_buyer, not_seller, wrong_status,
  not_participant, not_initiator, own_request, currency_vanished,
}
use garant.Deals.Status.{is_pending_confirmation, is_in_progress, is_pending_cancellation}
use garant.Deals.Escrow.{refund_principal, release_to}

unfoldable pub accept_deal : ℕ → Deal → ℕ → Db → Result Error Db
accept_deal now deal user_id db = do
  raise_if (not (user_id == deal.seller_id)) not_seller
  raise_if (not (is_pending_confirmation deal.status)) wrong_status
  let db1 =
      put_deal
        (record deal {
          status = in_progress;
          in_progress_at = some now;
          confirm_buyer = true;
          confirm_seller = true;
        })
        db
  let db2 =
      update_users deal.buyer_id deal.seller_id (λ u. record u { deals_total = u.deals_total + 1 })
        db1
  ok (notify deal.buyer_id deals (about_deal deal.id) db2)

unfoldable pub decline_deal : ℕ → Deal → ℕ → Db → Result Error Db
decline_deal now deal user_id db = do
  raise_if (not (user_id == deal.seller_id)) not_seller
  raise_if (not (is_pending_confirmation deal.status)) wrong_status
  currency ← or_raise (get_currency deal.currency_id db) currency_vanished
  let amt = quantize_money deal.amount currency.decimals
  let db1 = with_funds (refund_principal deal.buyer_id currency.id amt db.funds) db
  let db2 = put_deal (record deal { status = cancelled; completed_at = some now }) db1
  ok (notify deal.buyer_id deals (about_deal deal.id) db2)

unfoldable pub finish_deal : ℕ → Deal → ℕ → Db → Result Error Db
finish_deal now deal user_id db = do
  raise_if (not (user_id == deal.buyer_id)) not_buyer
  raise_if (not (is_in_progress deal.status)) wrong_status
  currency ← or_raise (get_currency deal.currency_id db) currency_vanished
  let amt = quantize_money deal.amount currency.decimals
  let db1 = with_funds (release_to deal.buyer_id deal.seller_id currency.id amt amt db.funds) db
  let db2 = put_deal (record deal { status = completed; completed_at = some now }) db1
  let db3 =
      update_users deal.buyer_id deal.seller_id
        (λ u. record u { deals_success = u.deals_success + 1 }) db2
  ok (notify deal.seller_id deals (about_deal deal.id) db3)

abbrev pub other_party : Deal → ℕ → ℕ
other_party deal user_id = if user_id == deal.buyer_id then deal.seller_id else deal.buyer_id

abbrev pub is_participant : Deal → ℕ → Bool
is_participant deal user_id = user_id == deal.buyer_id || user_id == deal.seller_id

-- `user.id == deal.cancellation_initiator_id`
abbrev pub is_initiator : Option ℕ → ℕ → Bool
is_initiator none user_id = false
is_initiator (some initiator) user_id = user_id == initiator

unfoldable pub request_cancel : ℕ → Deal → ℕ → Db → Result Error Db
request_cancel now deal user_id db = do
  raise_if (not (is_participant deal user_id)) not_participant
  raise_if (not (is_in_progress deal.status)) wrong_status
  let db1 =
      put_deal
        (record deal {
          status = pending_cancellation;
          cancellation_initiator_id = some user_id;
          cancellation_requested_at = some now;
        })
        db
  ok (notify (other_party deal user_id) deals (about_deal deal.id) db1)

unfoldable pub revoke_cancel : Deal → ℕ → Db → Result Error Db
revoke_cancel deal user_id db = do
  raise_if (not (is_pending_cancellation deal.status)) wrong_status
  raise_if (not (is_initiator deal.cancellation_initiator_id user_id)) not_initiator
  let db1 =
      put_deal
        (record deal {
          status = in_progress;
          cancellation_initiator_id = none;
          cancellation_requested_at = none;
        })
        db
  ok (notify (other_party deal user_id) deals (about_deal deal.id) db1)

-- Both sides are told, once each.
unfoldable pub accept_cancel : ℕ → Deal → ℕ → Db → Result Error Db
accept_cancel now deal user_id db = do
  raise_if (not (is_pending_cancellation deal.status)) wrong_status
  raise_if (not (is_participant deal user_id)) not_participant
  raise_if (is_initiator deal.cancellation_initiator_id user_id) own_request
  currency ← or_raise (get_currency deal.currency_id db) currency_vanished
  let amt = quantize_money deal.amount currency.decimals
  let db1 = with_funds (refund_principal deal.buyer_id currency.id amt db.funds) db
  let db2 = put_deal (record deal { status = cancelled; completed_at = some now }) db1
  let db3 = notify deal.buyer_id deals (about_deal deal.id) db2
  ok (
      if deal.seller_id == deal.buyer_id
      then db3
      else notify deal.seller_id deals (about_deal deal.id) db3)
