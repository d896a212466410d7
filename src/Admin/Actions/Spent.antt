-- ===== src/Admin/Actions/Spent.antt =====
-- The rule of the second admin (backend/app/routers/admin/deals.py): who approves, and how often an
-- approval serves.
use garant.Base.{ℕ, ◌≡◌, refl, sym, subst, true, Option, none, some, arith, ok, inl, inr}
use garant.Base.Table.{get-put, get-key}
use garant.Money.{quantize_money}
use garant.Wallet.{Wallet}
use garant.Schema.{
  Deal, User, Currency, Winner, DealStatus, buyer, seller, resolved_for_buyer, resolved_for_seller,
  get_deal, get_currency,
}
use garant.Admin.Approvals.{
  Desk, Approval, ApprovalStatus, AdminAction, Payload, approval_key, get_approval, is_approved,
  requires_approval, mark_approval_executed, same_action,
}
use garant.Admin.Settlement.{release_locked_to_seller, refund_locked_to_buyer, split_locked}
use garant.Admin.Actions.{
  split_winner, split_status, finish_settlement, force_release, force_refund, split_deal,
}
use garant.Admin.Actions.Outcomes.{IsCleared}
use garant.Admin.Actions.Done.{
  release_end, refund_end, split_end, Settles, force_release-done, force_refund-done,
  split_deal-done,
}

-- A settlement that was done, of any of the three kinds.
pub data Settlement (threshold now : ℕ) (admin : User) (approval_id : Option ℕ) (deal_id : ℕ)
    (desk desk' : Desk) : AdminAction → Type 0 where
  releases :
      force_release threshold now admin approval_id deal_id desk ≡ ok (none, desk')
      → Settlement threshold now admin approval_id deal_id desk desk' AdminAction.force_release
  refunds :
      force_refund threshold now admin approval_id deal_id desk ≡ ok (none, desk')
      → Settlement threshold now admin approval_id deal_id desk desk' AdminAction.force_refund
  splits :
      (percent : ℕ)
      → split_deal threshold now admin percent approval_id deal_id desk ≡ ok (none, desk')
      → Settlement threshold now admin approval_id deal_id desk desk' AdminAction.split

finish-approvals :
    (now : ℕ) (admin : User) (a : Option Approval) (winner : Winner) (status : DealStatus)
    (funds : Wallet) (d : Deal) (first second : ℕ) (desk : Desk)
    → (finish_settlement now admin a winner status funds d first second desk).approvals
      ≡ (mark_approval_executed now a admin desk).approvals
unfolding finish_settlement mark_approval_executed
finish-approvals now admin none winner status funds d first second desk = refl
finish-approvals now admin (some a) winner status funds d first second desk = refl

module _ (now : ℕ) (admin : User) (d : Deal) (c : Currency) (a : Option Approval)
    (desk : Desk) where
  pub release_end-approvals :
      (release_end now admin d c a desk).approvals
      ≡ (mark_approval_executed now a admin desk).approvals
  release_end-approvals =
      finish-approvals now admin a seller resolved_for_seller
        (release_locked_to_seller d c desk.db.funds) d d.seller_id d.buyer_id desk

  pub refund_end-approvals :
      (refund_end now admin d c a desk).approvals
      ≡ (mark_approval_executed now a admin desk).approvals
  refund_end-approvals =
      finish-approvals now admin a buyer resolved_for_buyer
        (refund_locked_to_buyer d c desk.db.funds) d d.buyer_id d.seller_id desk

pub split_end-approvals :
    (percent now : ℕ) (admin : User) (d : Deal) (c : Currency) (a : Option Approval) (desk : Desk)
    → (split_end percent now admin d c a desk).approvals
      ≡ (mark_approval_executed now a admin desk).approvals
split_end-approvals percent now admin d c a desk =
    finish-approvals now admin a (split_winner percent) (split_status percent)
      (split_locked percent d c desk.db.funds) d d.buyer_id d.seller_id desk

-- The request that has served.
abbrev pub spent : ℕ → User → Approval → Approval
spent now admin x = record x {
  status = ApprovalStatus.executed;
  executed_by_id = some admin.id;
  executed_at = some now;
}

module _ (threshold now : ℕ) (admin : User) (approval_id : Option ℕ) (deal_id : ℕ)
    (desk desk' : Desk) where
  -- An approved request for this action on this deal was there, and has served.
  abbrev pub Spends : AdminAction → Type 0
  Spends action =
      (k : ℕ) × (x : Approval) × (approval_id ≡ some k)
      × (get_approval k desk ≡ some x)
      × (is_approved x.status ≡ true)
      × (x.target_id ≡ deal_id)
      × (same_action x.action action ≡ true)
      × (get_approval k desk' ≡ some (spent now admin x))

  marked :
      (k : ℕ) (x : Approval)
      → get_approval k desk ≡ some x
      → desk'.approvals ≡ (mark_approval_executed now (some x) admin desk).approvals
      → get_approval k desk' ≡ some (spent now admin x)
  unfolding mark_approval_executed
  marked k x got e = rw e (
      ground (
        arith,
        get-key approval_key k x desk.approvals got,
        get-put approval_key k (spent now admin x) desk.approvals,
      ))

  cleared-Spends :
      (deal : Deal) (cur : Currency) (action : AdminAction) (payload : Payload)
      (a : Option Approval)
      → deal.id ≡ deal_id
      → requires_approval threshold cur (quantize_money deal.amount cur.decimals) desk ≡ true
      → IsCleared threshold deal cur action
          (quantize_money deal.amount cur.decimals)
          payload
          approval_id
          a
          desk
      → desk'.approvals ≡ (mark_approval_executed now a admin desk).approvals
      → Spends action
  cleared-Spends deal cur action payload a key needed (inl (_, free)) e = absurd (ground arith)
  cleared-Spends deal cur action payload a key needed
        (inr (k, x, asked, it, got, good, target, act, _)) e =
      (
        k,
        x,
        asked,
        got,
        good,
        ground arith,
        act,
        marked k x got (
            subst
              (λ (o : Option Approval).
                desk'.approvals ≡ (mark_approval_executed now o admin desk).approvals)
              it e),
      )

module _ (threshold now : ℕ) (admin : User) (approval_id : Option ℕ) (deal_id : ℕ)
    (desk desk' : Desk) (deal : Deal) (cur : Currency)
    (found : get_deal deal_id desk.db ≡ some deal)
    (paid_in : get_currency deal.currency_id desk.db ≡ some cur)
    (needed : requires_approval threshold cur (quantize_money deal.amount cur.decimals) desk
      ≡ true) where
  Settles-Spends :
      (action : AdminAction) (percent : Option ℕ)
      (finish : Deal → Currency → Option Approval → Desk → Desk)
      → ((d : Deal) (c : Currency) (a : Option Approval)
          → (finish d c a desk).approvals ≡ (mark_approval_executed now a admin desk).approvals)
      → Settles threshold now admin approval_id deal_id desk desk' action percent finish
      → Spends threshold now admin approval_id deal_id desk desk' action
  Settles-Spends action percent finish law (d, c, a, there, _, priced, clear, last) =
      let it : d ≡ deal = ground arith in
      let same : c ≡ cur = ground arith in
      let needed' : requires_approval threshold c (quantize_money d.amount c.decimals) desk ≡ true =
        subst
          (λ (x : Deal).
            requires_approval threshold c (quantize_money x.amount c.decimals) desk ≡ true)
          (sym it)
          (subst
            (λ (y : Currency).
              requires_approval threshold y (quantize_money deal.amount y.decimals) desk ≡ true)
            (sym same) needed) in
      cleared-Spends threshold now admin approval_id deal_id desk desk' d c action _ a
        (get-key (λ (x : Deal). x.id) deal_id d desk.db.deals there) needed' clear
        (subst (λ (x : Desk). x.approvals ≡ (mark_approval_executed now a admin desk).approvals)
          (sym last) (law d c a))

  -- A settlement of any of the three kinds that is done although its amount requires an
  -- approval had an approved request with the given id, for this deal and this action, and
  -- leaves that request executed.
  pub Settlement-Spends :
      (action : AdminAction)
      → Settlement threshold now admin approval_id deal_id desk desk' action
      → Spends threshold now admin approval_id deal_id desk desk' action
  Settlement-Spends _ (releases h) =
      Settles-Spends AdminAction.force_release none (release_end now admin)
        (λ d c a. release_end-approvals now admin d c a desk)
        (force_release-done threshold now admin approval_id deal_id desk desk' h)
  Settlement-Spends _ (refunds h) =
      Settles-Spends AdminAction.force_refund none (refund_end now admin)
        (λ d c a. refund_end-approvals now admin d c a desk)
        (force_refund-done threshold now admin approval_id deal_id desk desk' h)
  Settlement-Spends _ (splits percent h) =
      Settles-Spends AdminAction.split (some percent) (split_end percent now admin)
        (λ d c a. split_end-approvals percent now admin d c a desk)
        (split_deal-done threshold now admin approval_id deal_id desk desk' percent h)
