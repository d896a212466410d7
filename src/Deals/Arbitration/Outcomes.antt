-- ===== src/Deals/Arbitration/Outcomes.antt =====
-- When the steps of a dispute succeed, and the state that they leave.
use garant.Base.{ℕ, ◌+◌, ◌≡◌, ◌||◌, true, false, some, [], ◌++◌, ok, arith}
use garant.Base.Table.{select}
use garant.Base.Text.{Text, is_blank}
use garant.Money.{quantize_money}
use garant.Schema.{
  Db, Deal, User, Currency, Winner, arbitration, get_currency, put_deal, notify, update_users,
  deals, about_deal,
}
use garant.Deals.Status.{is_arbitration_eligible}
use garant.Deals.Lifecycle.{is_participant}
use garant.Deals.Arbitration.{
  start_arbitration, resolve_arbitration, rule, tell_once, winner_of, loser_of, is_party,
}

pub start_arbitration-ok :
    (deal : Deal) (user_id : ℕ) (reason : Text) (db : Db) {db' : Db}
    → start_arbitration deal user_id reason db ≡ ok db'
    → (is_participant deal user_id ≡ true)
      × (is_arbitration_eligible deal.status ≡ true)
      × (is_blank reason ≡ false)
      × (db' ≡ (
          let marked =
            update_users deal.buyer_id deal.seller_id
              (λ u. record u { deals_arbitrage = u.deals_arbitrage + 1 })
              (put_deal
                (record deal { status = arbitration; arbitration_initiator_id = some user_id })
                db) in
          tell_once deal.id []
            (select (λ (u : User). u.is_arbiter) marked.users
              ++ select (λ (u : User). u.is_admin) marked.users)
            marked))
unfolding start_arbitration
start_arbitration-ok deal user_id reason db h = ground arith

pub resolve_arbitration-ok :
    (now : ℕ) (deal : Deal) (admin : User) (winner : Winner) (db : Db) {db' : Db}
    → resolve_arbitration now deal admin winner db ≡ ok db'
    → (admin.is_admin || admin.is_arbiter ≡ true)
      × (deal.status ≡ arbitration)
      × (is_party winner ≡ true)
      × ((currency : Currency) × (get_currency deal.currency_id db ≡ some currency)
          × (db'
              ≡ notify (loser_of winner deal) deals (about_deal deal.id) (
                  notify (winner_of winner deal) deals (about_deal deal.id) (
                    update_users
                      (winner_of winner deal)
                      (winner_of winner deal)
                      (λ u. record u { deals_success = u.deals_success + 1 })
                      (update_users
                        (loser_of winner deal)
                        (loser_of winner deal)
                        (λ u. record u { deals_failed = u.deals_failed + 1 })
                        (rule winner currency.id
                          (quantize_money deal.amount currency.decimals)
                          (record deal {
                            arbitration_resolved_by = some admin.id;
                            arbitration_resolution = some winner;
                            arbitration_resolved_at = some now;
                            completed_at = some now;
                          })
                          db))))))
unfolding resolve_arbitration
resolve_arbitration-ok now deal admin winner db h = ground arith
