-- ===== src/Solvency/DisputeSteps.antt =====
-- The steps of a dispute keep the invariant.
use garant.Base.{ℕ, ◌≡◌, refl, sym, ap, subst, true, some, arith, ok}
use garant.Base.Text.{Text}
use garant.Money.{quantize_money}
use garant.Schema.{
  Db, Deal, User, Currency, Winner, buyer, seller, other, DealStatus, get_currency, get_deal,
}
use garant.Deals.Status.{holds_escrow, is_arbitration_eligible}
use garant.Deals.Arbitration.{start_arbitration, resolve_arbitration, rule}
use garant.Deals.Arbitration.Outcomes.{start_arbitration-ok, resolve_arbitration-ok}
use garant.Solvency.{IsSound}
use garant.Solvency.Closing.{
  notify-IsSound, update_users-IsSound, tell_once-IsSound, kept-IsSound, refunded-IsSound,
  released-IsSound, same_terms,
}

eligible-holds : (st : DealStatus) → is_arbitration_eligible st ≡ true → holds_escrow st ≡ true
eligible-holds st h = ground arith

pub start_arbitration-IsSound :
    (deal : Deal) (user_id : ℕ) (reason : Text) (db : Db) {db' : Db}
    → IsSound db
    → get_deal deal.id db ≡ some deal
    → start_arbitration deal user_id reason db ≡ ok db'
    → IsSound db'
start_arbitration-IsSound deal user_id reason db s found done =
    let (_, st, _, e) = start_arbitration-ok deal user_id reason db done in
    subst IsSound (sym e) (
      tell_once-IsSound _ _ _ _ (
        update_users-IsSound _ _ _ _
          (kept-IsSound deal _ db (same_terms deal) found (eligible-holds deal.status st) s)))

module _ (now : ℕ) (deal : Deal) (admin : User) (db : Db) (cur : Currency) (s : IsSound db)
    (found : get_deal deal.id db ≡ some deal)
    (paid_in : get_currency deal.currency_id db ≡ some cur)
    (running : holds_escrow deal.status ≡ true) where
  -- Who wins decides between the refund and the payment.
  rule-IsSound :
      (winner : Winner)
      → IsSound (
          rule winner cur.id
            (quantize_money deal.amount cur.decimals)
            (record deal {
              arbitration_resolved_by = some admin.id;
              arbitration_resolution = some winner;
              arbitration_resolved_at = some now;
              completed_at = some now;
            })
            db)
  unfolding rule
  rule-IsSound buyer = refunded-IsSound deal _ db cur (same_terms deal) found paid_in running refl s
  rule-IsSound seller =
      released-IsSound deal _ db cur (same_terms deal) found paid_in running refl s
  rule-IsSound other = released-IsSound deal _ db cur (same_terms deal) found paid_in running refl s

pub resolve_arbitration-IsSound :
    (now : ℕ) (deal : Deal) (admin : User) (winner : Winner) (db : Db) {db' : Db}
    → IsSound db
    → get_deal deal.id db ≡ some deal
    → resolve_arbitration now deal admin winner db ≡ ok db'
    → IsSound db'
resolve_arbitration-IsSound now deal admin winner db s found done =
    let (_, st, _, (cur, paid_in, e)) = resolve_arbitration-ok now deal admin winner db done in
    subst IsSound (sym e) (
      notify-IsSound _ _ _ _ (
        notify-IsSound _ _ _ _ (
          update_users-IsSound _ _ _ _ (
            update_users-IsSound _ _ _ _
              (rule-IsSound now deal admin db cur s found paid_in (ap holds_escrow st) winner)))))
