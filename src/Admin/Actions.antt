-- ===== src/Admin/Actions.antt =====
-- The actions of an admin on a deal: backend/app/routers/admin/deals.py from
-- `_is_active_for_money_movement` on. A settlement answers with the request that waits for a second
-- admin, or with none once it is done. The messages and media of a deleted deal, the audit log and
-- the texts of notifications are left out.
pub mod Outcomes
pub mod Done
pub mod Spent
pub mod TwoAdmins
use garant.Base.{
  ℕ, ◌+◌, ◌-◌, Bool, true, false, not, ◌&&◌, ◌||◌, Option, none, some, List, [], ◌∷◌, map, leb,
  ◌==◌, if◌then◌else◌, Result, ok, err, ◌>>=◌, ◌>>◌, raise_if, or_raise,
}
use garant.Base.Table.{select}
use garant.Money.{quantize_money}
use garant.Wallet.{Wallet}
use garant.Schema.{
  Db, Deal, Deposit, User, Currency, DealStatus, Winner, buyer, seller, arbitration,
  pending_confirmation, in_progress, pending_cancellation, resolved_for_buyer, resolved_for_seller,
  is_terminal, Error, not_found, currency_vanished, not_active, wrong_status, not_arbiter, get_deal,
  get_currency, get_user, put_deal, with_funds, notify, deals, about_deal,
}
use garant.Deals.Status.{is_arbitration}
use garant.Withdrawals.Balance.{update_unrecorded}
use garant.Admin.Approvals.{
  Desk, Approval, AdminAction, Payload, ensure_approval_or_create, mark_approval_executed,
  is_waiting, same_option,
}
use garant.Admin.Settlement.{release_locked_to_seller, refund_locked_to_buyer, split_locked}

abbrev pub is_active_for_money_movement : DealStatus → Bool
is_active_for_money_movement pending_confirmation = true
is_active_for_money_movement in_progress = true
is_active_for_money_movement pending_cancellation = true
is_active_for_money_movement arbitration = true
is_active_for_money_movement _ = false

abbrev pub with_db : Db → Desk → Desk
with_db db desk = record desk { db = db }

-- `if deal.arbitration_resolved_at is None`
abbrev pub or_now : ℕ → Option ℕ → Option ℕ
or_now now none = some now
or_now now (some t) = some t

-- The deal after a settlement by an admin.
unfoldable pub settled_by : ℕ → User → Winner → DealStatus → Deal → Deal
settled_by now admin winner status deal = record deal {
  status = status;
  completed_at = some now;
  arbitration_resolved_by = some admin.id;
  arbitration_resolution = some winner;
  arbitration_resolved_at = or_now now deal.arbitration_resolved_at;
}

-- How the three settlements begin: the deal, the guard, the currency, and the approval.
unfoldable pub clear_settlement :
    ℕ
    → AdminAction
    → Option ℕ
    → User
    → Option ℕ
    → ℕ
    → Desk
    → Result Error (Deal × Currency × Option Approval × Desk)
clear_settlement threshold action buyer_percent admin approval_id deal_id desk = do
  deal ← or_raise (get_deal deal_id desk.db) not_found
  raise_if (not (is_active_for_money_movement deal.status)) not_active
  currency ← or_raise (get_currency deal.currency_id desk.db) currency_vanished
  let amount = quantize_money deal.amount currency.decimals
  let payload : Payload = record {
    currency = currency.code;
    amount = amount;
    buyer_percent = buyer_percent;
  }
  (approval, desk') ←
      ensure_approval_or_create threshold admin deal currency action amount payload approval_id desk
  ok (deal, currency, approval, desk')

-- `approval is not None and approval.status == "pending"`
abbrev pub still_waits : Option Approval → Bool
still_waits none = false
still_waits (some approval) = is_waiting approval.status

-- The funds, the deal, the approval and the two notifications, the winner's first.
unfoldable pub finish_settlement :
    ℕ → User → Option Approval → Winner → DealStatus → Wallet → Deal → ℕ → ℕ → Desk → Desk
finish_settlement now admin approval winner status funds deal first second desk =
    let db1 = put_deal (settled_by now admin winner status deal) (with_funds funds desk.db) in
    let db2 = notify first deals (about_deal deal.id) db1 in
    let db3 = notify second deals (about_deal deal.id) db2 in
    mark_approval_executed now approval admin (with_db db3 desk)

unfoldable pub force_release :
    ℕ → ℕ → User → Option ℕ → ℕ → Desk → Result Error (Option Approval × Desk)
force_release threshold now admin approval_id deal_id desk = do
  (deal, currency, approval, desk1) ←
      clear_settlement threshold AdminAction.force_release none admin approval_id deal_id desk
  if still_waits approval
      then ok (approval, desk1)
      else ok (
        none,
        finish_settlement now admin approval seller resolved_for_seller
            (release_locked_to_seller deal currency desk1.db.funds) deal deal.seller_id
            deal.buyer_id desk1,
      )

unfoldable pub force_refund :
    ℕ → ℕ → User → Option ℕ → ℕ → Desk → Result Error (Option Approval × Desk)
force_refund threshold now admin approval_id deal_id desk = do
  (deal, currency, approval, desk1) ←
      clear_settlement threshold AdminAction.force_refund none admin approval_id deal_id desk
  if still_waits approval
      then ok (approval, desk1)
      else ok (
        none,
        finish_settlement now admin approval buyer resolved_for_buyer
            (refund_locked_to_buyer deal currency desk1.db.funds) deal deal.buyer_id deal.seller_id
            desk1,
      )

abbrev pub split_winner : ℕ → Winner
split_winner buyer_percent = if leb 5000 buyer_percent then buyer else seller

abbrev pub split_status : ℕ → DealStatus
split_status buyer_percent =
    if leb 5000 buyer_percent then resolved_for_buyer else resolved_for_seller

-- `buyer_percent` is validated to lie between 0 and 100 percent.
unfoldable pub split_deal :
    ℕ → ℕ → User → ℕ → Option ℕ → ℕ → Desk → Result Error (Option Approval × Desk)
split_deal threshold now admin buyer_percent approval_id deal_id desk = do
  (deal, currency, approval, desk1) ←
      clear_settlement threshold AdminAction.split (some buyer_percent) admin approval_id deal_id
        desk
  if still_waits approval
      then ok (approval, desk1)
      else ok (
        none,
        finish_settlement now admin approval (split_winner buyer_percent)
            (split_status buyer_percent) (split_locked buyer_percent deal currency desk1.db.funds)
            deal deal.buyer_id deal.seller_id desk1,
      )

-- Opening an arbitration that is open is no error and changes nothing.
unfoldable pub force_arbitration : User → ℕ → Db → Result Error Db
force_arbitration admin deal_id db = do
  deal ← or_raise (get_deal deal_id db) not_found
  raise_if (is_terminal deal.status) wrong_status
  if is_arbitration deal.status
      then ok db
      else ok (
          notify deal.seller_id deals (about_deal deal.id) (
            notify deal.buyer_id deals (about_deal deal.id) (
              put_deal
                (record deal { status = arbitration; arbitration_initiator_id = some admin.id })
                db)))

-- The arbiter who is assigned, if one is given, exists and may rule.
unfoldable pub check_arbiter : Option ℕ → Db → Result Error (Unit {0})
check_arbiter none db = ok tt
check_arbiter (some arbiter_id) db = do
  arbiter ← or_raise (get_user arbiter_id db) not_found
  raise_if (not (arbiter.is_arbiter || arbiter.is_admin)) not_arbiter
  ok tt

abbrev pub tell_arbiter : Option ℕ → ℕ → Db → Db
tell_arbiter none deal_id db = db
tell_arbiter (some arbiter_id) deal_id db = notify arbiter_id deals (about_deal deal_id) db

unfoldable pub assign_arbiter : Option ℕ → ℕ → Db → Result Error Db
assign_arbiter arbiter_id deal_id db = do
  deal ← or_raise (get_deal deal_id db) not_found
  raise_if (not (is_arbitration deal.status)) wrong_status
  check_arbiter arbiter_id db
  if same_option deal.arbitration_resolved_by arbiter_id
      then ok db
      else ok (
          tell_arbiter arbiter_id deal.id
            (put_deal (record deal { arbitration_resolved_by = arbiter_id }) db))

-- The refund of a deletion writes no ledger entry.
unfoldable pub refund_deleted : Deal → Option Currency → Wallet → Wallet
refund_deleted deal none w = w
refund_deleted deal (some currency) w =
    let locked_pot = quantize_money deal.amount currency.decimals in
    if is_active_for_money_movement deal.status
    then update_unrecorded deal.buyer_id currency.id (λ a l. (a + locked_pot, l - locked_pot)) w
    else w

-- `ON DELETE SET NULL`
abbrev pub unlink : ℕ → Deposit → Deposit
unlink deal_id d =
    if same_option d.linked_deal_id (some deal_id) then record d { linked_deal_id = none } else d

unfoldable pub delete_deal : ℕ → Db → Result Error Db
unfolding select
delete_deal deal_id db = do
  deal ← or_raise (get_deal deal_id db) not_found
  let funds = refund_deleted deal (get_currency deal.currency_id db) db.funds
  let db1 = record (with_funds funds db) {
    deals = select (λ (d : Deal). not (d.id == deal_id)) db.deals;
    deposits = map (unlink deal_id) db.deposits;
  }
  ok (
      notify deal.seller_id deals (about_deal deal.id)
        (notify deal.buyer_id deals (about_deal deal.id) db1))
