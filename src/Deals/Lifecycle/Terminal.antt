-- ===== src/Deals/Lifecycle/Terminal.antt =====
-- What a closed deal refuses (backend/app/services_deals.py).
use garant.Base.{ℕ, ◌≡◌, true, ok, arith}
use garant.Base.Text.{Text}
use garant.Schema.{Db, Deal, User, Winner, is_terminal}
use garant.Deals.Lifecycle.{
  accept_deal, decline_deal, finish_deal, request_cancel, revoke_cancel, accept_cancel,
}
use garant.Deals.Lifecycle.Outcomes.{
  accept_deal-ok, decline_deal-ok, finish_deal-ok, request_cancel-ok, revoke_cancel-ok,
  accept_cancel-ok,
}
use garant.Deals.Arbitration.{start_arbitration, resolve_arbitration}
use garant.Deals.Arbitration.Outcomes.{start_arbitration-ok, resolve_arbitration-ok}

module _ (now : ℕ) (deal : Deal) (user_id : ℕ) (db db' : Db)
    (closed : is_terminal deal.status ≡ true) where
  -- On a deal in a terminal status, none of accept_deal, decline_deal, finish_deal,
  -- request_cancel, revoke_cancel, accept_cancel, start_arbitration and resolve_arbitration
  -- succeeds.
  pub terminal-refused :
      (reason : Text) (admin : User) (winner : Winner)
      → (¬ (accept_deal now deal user_id db ≡ ok db'))
        × (¬ (decline_deal now deal user_id db ≡ ok db'))
        × (¬ (finish_deal now deal user_id db ≡ ok db'))
        × (¬ (request_cancel now deal user_id db ≡ ok db'))
        × (¬ (revoke_cancel deal user_id db ≡ ok db'))
        × (¬ (accept_cancel now deal user_id db ≡ ok db'))
        × (¬ (start_arbitration deal user_id reason db ≡ ok db'))
        × (¬ (resolve_arbitration now deal admin winner db ≡ ok db'))
  terminal-refused reason admin winner = (
    (λ h. let (_, st, _) = accept_deal-ok now deal user_id db h in ground arith),
    (λ h. let (_, st, _) = decline_deal-ok now deal user_id db h in ground arith),
    (λ h. let (_, st, _) = finish_deal-ok now deal user_id db h in ground arith),
    (λ h. let (_, st, _) = request_cancel-ok now deal user_id db h in ground arith),
    (λ h. let (st, _, _) = revoke_cancel-ok deal user_id db h in ground arith),
    (λ h. let (_, st, _, _) = accept_cancel-ok now deal user_id db h in ground arith),
    (λ h. let (_, st, _, _) = start_arbitration-ok deal user_id reason db h in ground arith),
    (λ h. let (_, st, _, _) = resolve_arbitration-ok now deal admin winner db h in ground arith),
  )
