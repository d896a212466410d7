-- ===== src/Admin/Approvals.antt =====
-- The approvals of large settlements by a second admin: `AdminApprovalRequest` and
-- `CurrencyUsdRate` of backend/app/models.py, and `_ensure_approval_or_create`,
-- `_mark_approval_executed`, `approve_deal_approval` and `reject_deal_approval` of
-- backend/app/routers/admin/deals.py. All requests here are about deals. The threshold is a number
-- of units of 10 ^ -16 dollars, which is what a product of an amount and a rate is. The audit log
-- and the free text of a reason are left out.
use garant.Base.{
  ℕ, ◌+◌, ◌*◌, Bool, true, false, not, ◌&&◌, ◌||◌, Option, none, some, List, leb, ◌==◌,
  if◌then◌else◌, Result, ok, ◌>>=◌, ◌>>◌, raise_if, or_raise,
}
use garant.Base.Table.{get, put, select, first_row}
use garant.Base.Text.{Text, same_text}
use garant.Schema.{
  Db, Deal, User, Currency, Error, not_found, approval_not_pending, approval_not_approved,
  approval_mismatch, needs_second_admin,
}

pub data AdminAction : Type 0 where
  force_release force_refund split : AdminAction

pub data ApprovalStatus : Type 0 where
  pending approved rejected executed : ApprovalStatus

-- The payload: the currency, the amount, and for a split the buyer's part in hundredths of a
-- percent.
pub record Payload : Type 0 where
  pub currency : Text
  pub amount : ℕ
  pub buyer_percent : Option ℕ

pub record Approval : Type 0 where
  pub id : ℕ
  pub action : AdminAction
  pub target_id : ℕ
  pub status : ApprovalStatus
  pub requested_by_id : Option ℕ
  pub approved_by_id : Option ℕ
  pub executed_by_id : Option ℕ
  pub amount_usd_estimate : Option ℕ
  pub payload : Payload
  pub approved_at : Option ℕ
  pub executed_at : Option ℕ
  pub rejected_at : Option ℕ

pub record UsdRate : Type 0 where
  pub currency_id : ℕ
  pub usd_rate : ℕ

-- The tables that the admin's router works on.
pub record Desk : Type 0 where
  pub db : Db
  pub approvals : List Approval
  pub usd_rates : List UsdRate
  pub next_approval_id : ℕ

abbrev pub approval_key : Approval → ℕ
approval_key a = a.id

abbrev pub get_approval : ℕ → Desk → Option Approval
get_approval k desk = get approval_key k desk.approvals

abbrev pub put_approval : Approval → Desk → Desk
put_approval a desk = record desk { approvals = put approval_key a desk.approvals }

abbrev pub is_waiting : ApprovalStatus → Bool
is_waiting pending = true
is_waiting _ = false

abbrev pub is_approved : ApprovalStatus → Bool
is_approved approved = true
is_approved _ = false

abbrev pub same_action : AdminAction → AdminAction → Bool
same_action force_release force_release = true
same_action force_refund force_refund = true
same_action split split = true
same_action _ _ = false

abbrev pub same_option : Option ℕ → Option ℕ → Bool
same_option none none = true
same_option (some a) (some b) = a == b
same_option _ _ = false

unfoldable pub same_payload : Payload → Payload → Bool
same_payload p q =
    same_text p.currency q.currency
    && p.amount == q.amount
    && same_option p.buyer_percent q.buyer_percent

unfoldable pub estimate_usd : Currency → ℕ → Desk → Option ℕ
estimate_usd currency amount desk =
    elim (get (λ (r : UsdRate). r.currency_id) currency.id desk.usd_rates) [
      | none ↦ none
      | some rate ↦ some (amount * rate.usd_rate)
    ]

-- `amount_usd is None or amount_usd >= threshold`
abbrev pub reaches : ℕ → Option ℕ → Bool
reaches threshold none = true
reaches threshold (some amount_usd) = leb threshold amount_usd

-- `threshold > 0` and the amount reaches it.
unfoldable pub requires_approval : ℕ → Currency → ℕ → Desk → Bool
requires_approval threshold currency amount desk =
    not (threshold == 0) && reaches threshold (estimate_usd currency amount desk)

abbrev pub matches : AdminAction → ℕ → Payload → Approval → Bool
matches action deal_id payload a =
    same_action a.action action
    && a.target_id == deal_id
    && is_waiting a.status
    && same_payload a.payload payload

unfoldable pub new_approval : User → Deal → AdminAction → Option ℕ → Payload → Desk → Approval
new_approval admin deal action amount_usd payload desk = record {
  id = desk.next_approval_id;
  action = action;
  target_id = deal.id;
  status = pending;
  requested_by_id = some admin.id;
  approved_by_id = none;
  executed_by_id = none;
  amount_usd_estimate = amount_usd;
  payload = payload;
  approved_at = none;
  executed_at = none;
  rejected_at = none;
}

-- With no id given: the open request for the same thing, or a new one.
unfoldable pub find_or_request :
    User → Deal → AdminAction → Option ℕ → Payload → Desk → Approval × Desk
unfolding select
find_or_request admin deal action amount_usd payload desk =
    elim (first_row (select (matches action deal.id payload) desk.approvals)) [
      | some existing ↦ (existing, desk)
      | none ↦
          let approval = new_approval admin deal action amount_usd payload desk in
          (
            approval,
            put_approval approval (record desk { next_approval_id = desk.next_approval_id + 1 }),
          )
    ]

abbrev pub asked_by : Option ℕ → ℕ → Bool
asked_by none admin_id = false
asked_by (some k) admin_id = k == admin_id

abbrev pub is_none : Option ℕ → Bool
is_none none = true
is_none (some _) = false

-- With an id: the request, if it is approved and is for this.
unfoldable pub check_approval :
    User → Deal → AdminAction → Payload → ℕ → Desk → Result Error Approval
check_approval admin deal action payload approval_id desk = do
  approval ← or_raise (get_approval approval_id desk) not_found
  raise_if (not (is_approved approval.status)) approval_not_approved
  raise_if (not (approval.target_id == deal.id) || not (same_action approval.action action))
      approval_mismatch
  raise_if (not (same_payload approval.payload payload)) approval_mismatch
  raise_if (asked_by approval.requested_by_id admin.id && is_none approval.approved_by_id)
      needs_second_admin
  ok approval

unfoldable pub ensure_approval_or_create :
    ℕ
    → User
    → Deal
    → Currency
    → AdminAction
    → ℕ
    → Payload
    → Option ℕ
    → Desk
    → Result Error (Option Approval × Desk)
ensure_approval_or_create threshold admin deal currency action amount payload approval_id desk =
    if not (requires_approval threshold currency amount desk)
    then ok (none, desk)
    else elim approval_id [
      | none ↦
          let (approval, desk') =
            find_or_request admin deal action (estimate_usd currency amount desk) payload desk in
          ok (some approval, desk')
      | some k ↦
          check_approval admin deal action payload k desk >>= λ approval. ok (some approval, desk)
    ]

unfoldable pub mark_approval_executed : ℕ → Option Approval → User → Desk → Desk
mark_approval_executed now none admin desk = desk
mark_approval_executed now (some approval) admin desk =
    put_approval
      (record approval {
        status = executed;
        executed_by_id = some admin.id;
        executed_at = some now;
      })
      desk

unfoldable pub approve_deal_approval : ℕ → ℕ → User → Desk → Result Error Desk
approve_deal_approval now approval_id admin desk = do
  approval ← or_raise (get_approval approval_id desk) not_found
  raise_if (not (is_waiting approval.status)) approval_not_pending
  raise_if (asked_by approval.requested_by_id admin.id) needs_second_admin
  ok (
      put_approval
        (record approval {
          status = approved;
          approved_by_id = some admin.id;
          approved_at = some now;
        })
        desk)

unfoldable pub reject_deal_approval : ℕ → ℕ → User → Desk → Result Error Desk
reject_deal_approval now approval_id admin desk = do
  approval ← or_raise (get_approval approval_id desk) not_found
  raise_if (not (is_waiting approval.status)) approval_not_pending
  ok (put_approval (record approval { status = rejected; rejected_at = some now }) desk)
