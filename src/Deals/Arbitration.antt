-- ===== src/Deals/Arbitration.antt =====
-- `start_arbitration` and `resolve_arbitration` of backend/app/services_deals.py.
pub mod Outcomes
use garant.Base.{
  ℕ, ◌+◌, true, false, Bool, not, ◌||◌, some, List, [], ◌∷◌, ◌++◌, ◌==◌, Result, ok, ◌>>=◌, ◌>>◌,
  raise_if, or_raise,
}
use garant.Base.Table.{select}
use garant.Base.Text.{Text, is_blank}
use garant.Money.{quantize_money}
use garant.Schema.{
  Db, Deal, User, Error, Winner, buyer, other, arbitration, resolved_for_buyer, resolved_for_seller,
  get_currency, put_deal, with_funds, notify, update_users, deals, about_deal, wrong_status,
  not_participant, not_arbiter, bad_winner, blank_reason, currency_vanished,
}
use garant.Deals.Status.{is_arbitration, is_arbitration_eligible}
use garant.Deals.Escrow.{refund_principal, release_to}
use garant.Deals.Lifecycle.{is_participant}

unfoldable pub contains : ℕ → List ℕ → Bool
contains k [] = false
contains k (x ∷ xs) = k == x || contains k xs

-- The loop over `[*arbiters, *admins]`: each id is told once.
unfoldable pub tell_once : ℕ → List ℕ → List User → Db → Db
unfolding contains
tell_once deal_id seen [] db = db
tell_once deal_id seen (u ∷ us) db = elim (contains u.id seen) [
  | true ↦ tell_once deal_id seen us db
  | false ↦ tell_once deal_id (u.id ∷ seen) us (notify u.id deals (about_deal deal_id) db)
]

unfoldable pub start_arbitration : Deal → ℕ → Text → Db → Result Error Db
unfolding tell_once select is_blank
start_arbitration deal user_id reason db = do
  raise_if (not (is_participant deal user_id)) not_participant
  raise_if (not (is_arbitration_eligible deal.status)) wrong_status
  raise_if (is_blank reason) blank_reason
  let db1 =
      put_deal (record deal { status = arbitration; arbitration_initiator_id = some user_id }) db
  let db2 =
      update_users deal.buyer_id deal.seller_id
        (λ u. record u { deals_arbitrage = u.deals_arbitrage + 1 }) db1
  let arbiters = select (λ (u : User). u.is_arbiter) db2.users
  let admins = select (λ (u : User). u.is_admin) db2.users
  ok (tell_once deal.id [] (arbiters ++ admins) db2)

abbrev pub is_party : Winner → Bool
is_party other = false
is_party _ = true

-- What the ruling does with the escrow, and the status it leads to.
unfoldable pub rule : Winner → ℕ → ℕ → Deal → Db → Db
rule buyer currency_id amt deal db =
    put_deal (record deal { status = resolved_for_buyer })
      (with_funds (refund_principal deal.buyer_id currency_id amt db.funds) db)
rule _ currency_id amt deal db =
    put_deal (record deal { status = resolved_for_seller })
      (with_funds (release_to deal.buyer_id deal.seller_id currency_id amt amt db.funds) db)

abbrev pub winner_of : Winner → Deal → ℕ
winner_of buyer deal = deal.buyer_id
winner_of _ deal = deal.seller_id

abbrev pub loser_of : Winner → Deal → ℕ
loser_of buyer deal = deal.seller_id
loser_of _ deal = deal.buyer_id

unfoldable pub resolve_arbitration : ℕ → Deal → User → Winner → Db → Result Error Db
unfolding rule
resolve_arbitration now deal admin winner db = do
  raise_if (not (admin.is_admin || admin.is_arbiter)) not_arbiter
  raise_if (not (is_arbitration deal.status)) wrong_status
  raise_if (not (is_party winner)) bad_winner
  currency ← or_raise (get_currency deal.currency_id db) currency_vanished
  let amt = quantize_money deal.amount currency.decimals
  let decided = record deal {
    arbitration_resolved_by = some admin.id;
    arbitration_resolution = some winner;
    arbitration_resolved_at = some now;
    completed_at = some now;
  }
  let db1 = rule winner currency.id amt decided db
  let db2 =
      update_users (loser_of winner deal) (loser_of winner deal)
        (λ u. record u { deals_failed = u.deals_failed + 1 }) db1
  let db3 =
      update_users (winner_of winner deal) (winner_of winner deal)
        (λ u. record u { deals_success = u.deals_success + 1 }) db2
  let db4 = notify (winner_of winner deal) deals (about_deal deal.id) db3
  ok (notify (loser_of winner deal) deals (about_deal deal.id) db4)
