-- ===== src/Deals/Lifecycle/Outcomes.antt =====
-- When each step of a deal's life succeeds, and the state that it leaves.
use garant.Base.{ℕ, ◌+◌, ◌≡◌, true, false, none, some, ok, arith, ◌==◌, if◌then◌else◌}
use garant.Money.{quantize_money}
use garant.Schema.{
  Db, Deal, Currency, pending_confirmation, cancelled, in_progress, completed, pending_cancellation,
  get_currency, put_deal, with_funds, notify, update_users, deals, about_deal,
}
use garant.Deals.Escrow.{refund_principal, release_to}
use garant.Deals.Lifecycle.{
  accept_deal, decline_deal, finish_deal, request_cancel, revoke_cancel, accept_cancel,
  is_participant, other_party, is_initiator,
}

-- The principal, as the currency of the deal quantises it.
abbrev pub principal : Deal → Currency → ℕ
principal deal currency = quantize_money deal.amount currency.decimals

-- The states with the principal refunded to the buyer, or paid to the seller.
abbrev pub refunded : Deal → Currency → Db → Db
refunded deal currency db =
    with_funds (refund_principal deal.buyer_id currency.id (principal deal currency) db.funds) db

abbrev pub released : Deal → Currency → Db → Db
released deal currency db =
    with_funds
      (release_to deal.buyer_id deal.seller_id currency.id (principal deal currency)
        (principal deal currency) db.funds)
      db

module _ (now : ℕ) (deal : Deal) (user_id : ℕ) (db : Db) {db' : Db} where
  pub accept_deal-ok :
      accept_deal now deal user_id db ≡ ok db'
      → (user_id ≡ deal.seller_id)
        × (deal.status ≡ pending_confirmation)
        × (db'
            ≡ notify deal.buyer_id deals (about_deal deal.id) (
                update_users deal.buyer_id deal.seller_id
                  (λ u. record u { deals_total = u.deals_total + 1 })
                  (put_deal
                    (record deal {
                      status = in_progress;
                      in_progress_at = some now;
                      confirm_buyer = true;
                      confirm_seller = true;
                    })
                    db)))
  unfolding accept_deal
  accept_deal-ok h = ground arith

  pub decline_deal-ok :
      decline_deal now deal user_id db ≡ ok db'
      → (user_id ≡ deal.seller_id)
        × (deal.status ≡ pending_confirmation)
        × ((currency : Currency) × (get_currency deal.currency_id db ≡ some currency)
            × (db'
                ≡ notify deal.buyer_id deals (about_deal deal.id) (
                    put_deal
                      (record deal { status = cancelled; completed_at = some now })
                      (refunded deal currency db))))
  unfolding decline_deal
  decline_deal-ok h = ground arith

  pub finish_deal-ok :
      finish_deal now deal user_id db ≡ ok db'
      → (user_id ≡ deal.buyer_id)
        × (deal.status ≡ in_progress)
        × ((currency : Currency) × (get_currency deal.currency_id db ≡ some currency)
            × (db'
                ≡ notify deal.seller_id deals (about_deal deal.id) (
                    update_users deal.buyer_id deal.seller_id
                      (λ u. record u { deals_success = u.deals_success + 1 })
                      (put_deal
                        (record deal { status = completed; completed_at = some now })
                        (released deal currency db)))))
  unfolding finish_deal
  finish_deal-ok h = ground arith

  pub request_cancel-ok :
      request_cancel now deal user_id db ≡ ok db'
      → (is_participant deal user_id ≡ true)
        × (deal.status ≡ in_progress)
        × (db'
            ≡ notify (other_party deal user_id) deals (about_deal deal.id) (
                put_deal
                  (record deal {
                    status = pending_cancellation;
                    cancellation_initiator_id = some user_id;
                    cancellation_requested_at = some now;
                  })
                  db))
  unfolding request_cancel
  request_cancel-ok h = ground arith

  pub accept_cancel-ok :
      accept_cancel now deal user_id db ≡ ok db'
      → (is_participant deal user_id ≡ true)
        × (deal.status ≡ pending_cancellation)
        × (is_initiator deal.cancellation_initiator_id user_id ≡ false)
        × ((currency : Currency) × (get_currency deal.currency_id db ≡ some currency)
            × (db' ≡ (
                let told = notify deal.buyer_id deals (about_deal deal.id) (
                  put_deal
                    (record deal { status = cancelled; completed_at = some now })
                    (refunded deal currency db)) in
                if deal.seller_id == deal.buyer_id
                then told
                else notify deal.seller_id deals (about_deal deal.id) told)))
  unfolding accept_cancel
  accept_cancel-ok h = ground arith

pub revoke_cancel-ok :
    (deal : Deal) (user_id : ℕ) (db : Db) {db' : Db}
    → revoke_cancel deal user_id db ≡ ok db'
    → (deal.status ≡ pending_cancellation)
      × (is_initiator deal.cancellation_initiator_id user_id ≡ true)
      × (db'
          ≡ notify (other_party deal user_id) deals (about_deal deal.id) (
              put_deal
                (record deal {
                  status = in_progress;
                  cancellation_initiator_id = none;
                  cancellation_requested_at = none;
                })
                db))
unfolding revoke_cancel
revoke_cancel-ok deal user_id db h = ground arith
