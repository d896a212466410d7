-- ===== src/Admin/Actions/TwoAdmins.antt =====
-- No request for an approval passes on the word of one admin
-- (backend/app/routers/admin/deals.py).
use garant.Base.{
  ℕ, ◌≡◌, refl, sym, subst, Bool, true, false, not, ◌||◌, Option, none, some, arith, ◌==◌, ok,
  Option-cases, inl, inr,
}
use garant.Base.Table.{All, put, All-get, All-put, select, first_row}
use garant.Schema.{Deal, User, Currency}
use garant.Admin.Approvals.{
  Desk, Approval, ApprovalStatus, AdminAction, Payload, approval_key, get_approval, matches,
  find_or_request, new_approval, mark_approval_executed, approve_deal_approval,
  reject_deal_approval,
}
use garant.Admin.Actions.Outcomes.{IsCleared}
use garant.Admin.Actions.Done.{
  release_end, refund_end, split_end, Settles, force_release-done, force_refund-done,
  split_deal-done,
}
use garant.Admin.Actions.Spent.{
  Settlement, releases, refunds, splits, release_end-approvals, refund_end-approvals,
  split_end-approvals, spent,
}

-- Somebody approved, and it was not the one who asked, as far as the request still names that one.
abbrev pub other_admin : Option ℕ → Option ℕ → Bool
other_admin _ none = false
other_admin none (some a) = true
other_admin (some r) (some a) = not (r == a)

abbrev pub is_passed : ApprovalStatus → Bool
is_passed ApprovalStatus.approved = true
is_passed ApprovalStatus.executed = true
is_passed _ = false

-- A request that has passed was approved by another admin than asked for it.
abbrev pub is_checked : Approval → Bool
is_checked a = not (is_passed a.status) || other_admin a.requested_by_id a.approved_by_id

abbrev pub AllChecked : Desk → Type 0
AllChecked desk = All (λ (a : Approval). is_checked a ≡ true) desk.approvals

-- What the router does to the requests: it finds or makes one, answers one, and settles with one.
pub data AdminStep (threshold : ℕ) (desk : Desk) : Desk → Type 0 where
  requests :
      (admin : User) (deal : Deal) (action : AdminAction) (usd : Option ℕ) (payload : Payload)
      → AdminStep threshold desk (find_or_request admin deal action usd payload desk).1
  approves :
      (now k : ℕ) (admin : User) (desk' : Desk)
      → approve_deal_approval now k admin desk ≡ ok desk'
      → AdminStep threshold desk desk'
  rejects :
      (now k : ℕ) (admin : User) (desk' : Desk)
      → reject_deal_approval now k admin desk ≡ ok desk'
      → AdminStep threshold desk desk'
  settles :
      (now : ℕ) (admin : User) (approval_id : Option ℕ) (deal_id : ℕ) (action : AdminAction)
      (desk' : Desk)
      → Settlement threshold now admin approval_id deal_id desk desk' action
      → AdminStep threshold desk desk'

requested-AllChecked :
    (admin : User) (deal : Deal) (action : AdminAction) (usd : Option ℕ) (payload : Payload)
    (desk : Desk)
    → AllChecked desk
    → AllChecked (find_or_request admin deal action usd payload desk).1
unfolding find_or_request new_approval
requested-AllChecked admin deal action usd payload desk h =
    elim (Option-cases (first_row (select (matches action deal.id payload) desk.approvals))) [
      | inl nothing ↦
          rw (find_or_request, nothing)
            (All-put approval_key (λ (a : Approval). is_checked a ≡ true)
              (new_approval admin deal action usd payload desk) desk.approvals refl h)
      | inr (a, found) ↦ rw (find_or_request, found) h
    ]

approved-AllChecked :
    (now k : ℕ) (admin : User) (desk desk' : Desk)
    → AllChecked desk
    → approve_deal_approval now k admin desk ≡ ok desk'
    → AllChecked desk'
unfolding approve_deal_approval
approved-AllChecked now k admin desk desk' h e = elim (Option-cases (get_approval k desk)) [
  | inl missing ↦ absurd (ground arith)
  | inr (a, found) ↦
      let a' : Approval = record a {
        status = ApprovalStatus.approved;
        approved_by_id = some admin.id;
        approved_at = some now;
      } in
      let last : put approval_key a' desk.approvals ≡ desk'.approvals = ground arith in
      let other : is_checked a' ≡ true = ground arith in
      subst (All (λ (x : Approval). is_checked x ≡ true)) last
        (All-put approval_key (λ (x : Approval). is_checked x ≡ true) a' desk.approvals other h)
]

rejected-AllChecked :
    (now k : ℕ) (admin : User) (desk desk' : Desk)
    → AllChecked desk
    → reject_deal_approval now k admin desk ≡ ok desk'
    → AllChecked desk'
unfolding reject_deal_approval
rejected-AllChecked now k admin desk desk' h e = elim (Option-cases (get_approval k desk)) [
  | inl missing ↦ absurd (ground arith)
  | inr (a, found) ↦
      let a' : Approval = record a { status = ApprovalStatus.rejected; rejected_at = some now } in
      let last : put approval_key a' desk.approvals ≡ desk'.approvals = ground arith in
      subst (All (λ (x : Approval). is_checked x ≡ true)) last
        (All-put approval_key (λ (x : Approval). is_checked x ≡ true) a' desk.approvals refl h)
]

module _ (threshold now : ℕ) (admin : User) (approval_id : Option ℕ) (deal_id : ℕ)
    (desk desk' : Desk) (h : AllChecked desk) where
  marked-AllChecked :
      (deal : Deal) (cur : Currency) (action : AdminAction) (amount : ℕ) (payload : Payload)
      (a : Option Approval)
      → IsCleared threshold deal cur action amount payload approval_id a desk
      → AllChecked (mark_approval_executed now a admin desk)
  unfolding mark_approval_executed
  marked-AllChecked deal cur action amount payload a (inl (nothing, _)) = rw nothing h
  marked-AllChecked deal cur action amount payload a (inr (k, x, _, it, got, good, _, _, _)) =
      let was : is_checked x ≡ true =
        All-get approval_key (λ (y : Approval). is_checked y ≡ true) k x desk.approvals h got in
      let still : is_checked (spent now admin x) ≡ true = ground arith in
      rw it (
        All-put approval_key (λ (y : Approval). is_checked y ≡ true) (spent now admin x)
          desk.approvals still h)

  Settles-AllChecked :
      (action : AdminAction) (percent : Option ℕ)
      (finish : Deal → Currency → Option Approval → Desk → Desk)
      → ((d : Deal) (c : Currency) (a : Option Approval)
          → (finish d c a desk).approvals ≡ (mark_approval_executed now a admin desk).approvals)
      → Settles threshold now admin approval_id deal_id desk desk' action percent finish
      → AllChecked desk'
  Settles-AllChecked action percent finish law (d, c, a, _, _, _, clear, last) =
      subst AllChecked (sym last) (
        subst (All (λ (x : Approval). is_checked x ≡ true)) (sym (law d c a))
          (marked-AllChecked d c action _ _ a clear))

  Settlement-AllChecked :
      (action : AdminAction)
      → Settlement threshold now admin approval_id deal_id desk desk' action
      → AllChecked desk'
  Settlement-AllChecked _ (releases e) =
      Settles-AllChecked AdminAction.force_release none (release_end now admin)
        (λ d c a. release_end-approvals now admin d c a desk)
        (force_release-done threshold now admin approval_id deal_id desk desk' e)
  Settlement-AllChecked _ (refunds e) =
      Settles-AllChecked AdminAction.force_refund none (refund_end now admin)
        (λ d c a. refund_end-approvals now admin d c a desk)
        (force_refund-done threshold now admin approval_id deal_id desk desk' e)
  Settlement-AllChecked _ (splits percent e) =
      Settles-AllChecked AdminAction.split (some percent) (split_end percent now admin)
        (λ d c a. split_end-approvals percent now admin d c a desk)
        (split_deal-done threshold now admin approval_id deal_id desk desk' percent e)

pub data AdminReaches (threshold : ℕ) (desk : Desk) : Desk → Type 0 where
  stays : AdminReaches threshold desk desk
  steps :
      (desk1 desk2 : Desk)
      → AdminReaches threshold desk desk1
      → AdminStep threshold desk1 desk2
      → AdminReaches threshold desk desk2

step-AllChecked :
    (threshold : ℕ) (desk desk' : Desk)
    → AllChecked desk
    → AdminStep threshold desk desk'
    → AllChecked desk'
step-AllChecked threshold desk _ h (requests admin deal action usd payload) =
    requested-AllChecked admin deal action usd payload desk h
step-AllChecked threshold desk _ h (approves now k admin desk' e) =
    approved-AllChecked now k admin desk desk' h e
step-AllChecked threshold desk _ h (rejects now k admin desk' e) =
    rejected-AllChecked now k admin desk desk' h e
step-AllChecked threshold desk _ h (settles now admin approval_id deal_id action desk' e) =
    Settlement-AllChecked threshold now admin approval_id deal_id desk desk' h action e

-- From a desk on which every request for approval that is approved or executed has a user who
-- approved it, and another one than asked for it as far as the request still names that one,
-- through any sequence of the router's operations on the requests, that stays so.
pub AdminReaches-AllChecked :
    (threshold : ℕ) (desk desk' : Desk)
    → AllChecked desk
    → AdminReaches threshold desk desk'
    → AllChecked desk'
AdminReaches-AllChecked threshold desk _ h stays = h
AdminReaches-AllChecked threshold desk _ h (steps desk1 desk2 run last) =
    step-AllChecked threshold desk1 desk2 (AdminReaches-AllChecked threshold desk desk1 h run) last
