-- ===== src/Admin/Actions/Done.antt =====
-- What a settlement by an admin that is done has done (backend/app/routers/admin/deals.py).
use garant.Base.{
  ℕ, ◌≡◌, sym, subst, true, Option, none, some, arith, if◌then◌else◌, Result, ok, ◌>>=◌, Bool-cases,
  inl, inr, >>=-eq-ok,
}
use garant.Money.{quantize_money}
use garant.Schema.{
  Deal, User, Currency, Error, buyer, seller, resolved_for_buyer, resolved_for_seller, get_deal,
  get_currency,
}
use garant.Admin.Approvals.{Desk, Approval, AdminAction}
use garant.Admin.Settlement.{release_locked_to_seller, refund_locked_to_buyer, split_locked}
use garant.Admin.Actions.{
  is_active_for_money_movement, clear_settlement, still_waits, finish_settlement, force_release,
  force_refund, split_deal, split_winner, split_status,
}
use garant.Admin.Actions.Outcomes.{asked_for, clear_settlement-ok, IsCleared, ensure-IsCleared}

-- The end of each settlement: the request that waits, or what is done.
abbrev answer :
    (Deal → Currency → Option Approval → Desk → Desk)
    → Deal × Currency × Option Approval × Desk
    → Result Error (Option Approval × Desk)
answer finish (deal, cur, a, d) =
    if still_waits a then ok (a, d) else ok (none, finish deal cur a d)

abbrev pub release_end : ℕ → User → Deal → Currency → Option Approval → Desk → Desk
release_end now admin deal cur a d =
    finish_settlement now admin a seller resolved_for_seller
      (release_locked_to_seller deal cur d.db.funds) deal deal.seller_id deal.buyer_id d

abbrev pub refund_end : ℕ → User → Deal → Currency → Option Approval → Desk → Desk
refund_end now admin deal cur a d =
    finish_settlement now admin a buyer resolved_for_buyer
      (refund_locked_to_buyer deal cur d.db.funds) deal deal.buyer_id deal.seller_id d

abbrev pub split_end : ℕ → ℕ → User → Deal → Currency → Option Approval → Desk → Desk
split_end percent now admin deal cur a d =
    finish_settlement now admin a (split_winner percent) (split_status percent)
      (split_locked percent deal cur d.db.funds) deal deal.buyer_id deal.seller_id d

module _ (threshold now : ℕ) (admin : User) (approval_id : Option ℕ) (deal_id : ℕ)
    (desk desk' : Desk) where
  -- The deal was active, the approval was there if one was needed, and `finish` is what was done.
  abbrev pub Settles :
      AdminAction → Option ℕ → (Deal → Currency → Option Approval → Desk → Desk) → Type 0
  Settles action percent finish =
      (deal : Deal) × (cur : Currency) × (a : Option Approval) × (get_deal deal_id desk.db
        ≡ some deal)
      × (is_active_for_money_movement deal.status ≡ true)
      × (get_currency deal.currency_id desk.db ≡ some cur)
      × IsCleared threshold deal cur action (quantize_money deal.amount cur.decimals)
          (asked_for threshold action percent admin approval_id deal_id desk deal cur) approval_id a
          desk
      × (desk' ≡ finish deal cur a desk)

  settled :
      (action : AdminAction) (percent : Option ℕ)
      (finish : Deal → Currency → Option Approval → Desk → Desk)
      → (clear_settlement threshold action percent admin approval_id deal_id desk >>= answer finish)
        ≡ ok (none, desk')
      → Settles action percent finish
  settled action percent finish h =
      let ((deal, cur, a, desk1), cleared, rest) =
        >>=-eq-ok (clear_settlement threshold action percent admin approval_id deal_id desk)
          (answer finish) h in
      let (found, active, paid_in, asked) =
        clear_settlement-ok threshold action percent admin approval_id deal_id desk deal cur a desk1
          cleared in
      elim (Bool-cases (still_waits a)) [
        | inl waits ↦ absurd (ground arith)
        | inr over ↦
            let (same, clear) =
              ensure-IsCleared threshold admin deal cur action _ _ desk approval_id a desk1 asked
                over in
            let last : finish deal cur a desk1 ≡ desk' = ground arith in
            (
              deal,
              cur,
              a,
              found,
              active,
              paid_in,
              clear,
              subst (λ (x : Desk). desk' ≡ finish deal cur a x) same (sym last),
            )
      ]

  pub force_release-done :
      force_release threshold now admin approval_id deal_id desk ≡ ok (none, desk')
      → Settles AdminAction.force_release none (release_end now admin)
  unfolding force_release
  force_release-done h = settled AdminAction.force_release none (release_end now admin) h

  pub force_refund-done :
      force_refund threshold now admin approval_id deal_id desk ≡ ok (none, desk')
      → Settles AdminAction.force_refund none (refund_end now admin)
  unfolding force_refund
  force_refund-done h = settled AdminAction.force_refund none (refund_end now admin) h

  pub split_deal-done :
      (percent : ℕ)
      → split_deal threshold now admin percent approval_id deal_id desk ≡ ok (none, desk')
      → Settles AdminAction.split (some percent) (split_end percent now admin)
  unfolding split_deal
  split_deal-done percent h =
      settled AdminAction.split (some percent) (split_end percent now admin) h
