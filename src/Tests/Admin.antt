-- ===== src/Tests/Admin.antt =====
-- Deals of `Tests.Deals` and `Tests.Topups`, settled by admins.
use garant.Base.{
  ℕ, ◌+◌, ◌-◌, ◌*◌, ◌^◌, ◌≤◌, ◌≡◌, ◌≢◌, refl, Bool, true, false, Option, none, some, [], ◌∷◌, ok,
  err, Result, arith,
}
use garant.Money.{quantize_money}
use garant.Wallet.{
  Wallet, row_of, update_balance, locked_of, deal_release_debit, deal_release_credit, from_deal,
}
use garant.Schema.{User, Currency, Error, get_deal, get_currency}
use garant.Admin.Approvals.{
  Desk, Approval, AdminAction, approve_deal_approval, find_or_request, requires_approval,
}
use garant.Admin.Settlement.{buyer_share_of}
use garant.Admin.Actions.{force_release, force_refund, split_deal, force_arbitration, delete_deal}
use garant.Admin.Actions.Spent.{releases, Spends, Settlement-Spends}
use garant.Admin.Actions.TwoAdmins.{AllChecked, stays, steps, approves, AdminReaches-AllChecked}
use garant.Solvency.AdminPays.{
  SettlesAs, force_release-settles, force_refund-settles, split_deal-settles,
}
use garant.Tests.World.{user, currency}
use garant.Tests.Deals.{value, deal1, db1, created-IsSound}

abbrev pub boss : User
boss = record (user 4 false) { is_admin = true }

abbrev chief : User
chief = record (user 5 false) { is_admin = true }

-- A dollar is worth a dollar.
abbrev desk : Desk
desk = record {
  db = db1;
  approvals = [];
  usd_rates = record { currency_id = 1; usd_rate = 10 ^ 8 } ∷ [];
  next_approval_id = 1;
}

pub found1 : get_deal 1 db1 ≡ some deal1
unfolding garant.Base.Table.get garant.Base.Table.put garant.Deals.Create.create_deal
    garant.Deals.Create.new_deal garant.Deposits.Invoice.get_currency_by_code
    garant.Money.is_unusable garant.Money.quantize_decimal garant.Deals.Escrow.debit
    garant.Wallet.lock_user_balance garant.Wallet.find_balance update_balance
    garant.Wallet.record_balance_ledger garant.Wallet.put_balance
found1 = refl

abbrev Answer : Type 0
Answer = Result Error (Option Approval × Desk)

abbrev desk_of : Answer → Desk
desk_of r = (value (none, desk) r).1

abbrev released : Answer
released = force_release 0 2000 boss none 1 desk

released-eq : released ≡ ok (none, desk_of released)
unfolding garant.Base.Table.get garant.Base.Table.put garant.Deals.Create.create_deal
    garant.Deals.Create.new_deal garant.Deposits.Invoice.get_currency_by_code
    garant.Money.is_unusable garant.Money.quantize_decimal garant.Deals.Escrow.debit
    garant.Wallet.lock_user_balance garant.Wallet.find_balance update_balance
    garant.Wallet.record_balance_ledger garant.Wallet.put_balance force_release
    garant.Admin.Actions.clear_settlement garant.Admin.Approvals.ensure_approval_or_create
    requires_approval
released-eq = refl

force_release-settles_example :
    SettlesAs 0 2000 boss none 1 desk
      (desk_of released)
      deal1
      created-IsSound
      found1
      deal1
      0
      deal1.amount
force_release-settles_example =
    force_release-settles 0 2000 boss none 1 desk (desk_of released) deal1 created-IsSound found1
      released-eq

abbrev refunded : Answer
refunded = force_refund 0 2000 boss none 1 desk

refunded-eq : refunded ≡ ok (none, desk_of refunded)
unfolding garant.Base.Table.get garant.Base.Table.put garant.Deals.Create.create_deal
    garant.Deals.Create.new_deal garant.Deposits.Invoice.get_currency_by_code
    garant.Money.is_unusable garant.Money.quantize_decimal garant.Deals.Escrow.debit
    garant.Wallet.lock_user_balance garant.Wallet.find_balance update_balance
    garant.Wallet.record_balance_ledger garant.Wallet.put_balance force_refund
    garant.Admin.Actions.clear_settlement garant.Admin.Approvals.ensure_approval_or_create
    requires_approval
refunded-eq = refl

force_refund-settles_example :
    SettlesAs 0 2000 boss none 1 desk
      (desk_of refunded)
      deal1
      created-IsSound
      found1
      deal1
      deal1.amount
      0
force_refund-settles_example =
    force_refund-settles 0 2000 boss none 1 desk (desk_of refunded) deal1 created-IsSound found1
      refunded-eq

abbrev split : Answer
split = split_deal 0 2000 boss 3333 none 1 desk

split-eq : split ≡ ok (none, desk_of split)
unfolding garant.Base.Table.get garant.Base.Table.put garant.Deals.Create.create_deal
    garant.Deals.Create.new_deal garant.Deposits.Invoice.get_currency_by_code
    garant.Money.is_unusable garant.Money.quantize_decimal garant.Deals.Escrow.debit
    garant.Wallet.lock_user_balance garant.Wallet.find_balance update_balance
    garant.Wallet.record_balance_ledger garant.Wallet.put_balance split_deal
    garant.Admin.Actions.clear_settlement garant.Admin.Approvals.ensure_approval_or_create
    requires_approval
split-eq = refl

split_deal-settles_example :
    (cur : Currency) × (get_currency deal1.currency_id desk.db ≡ some cur)
    × SettlesAs 0 2000 boss none 1 desk
        (desk_of split)
        deal1
        created-IsSound
        found1
        deal1
        (buyer_share_of deal1.amount 3333 cur)
        (deal1.amount - buyer_share_of deal1.amount 3333 cur)
split_deal-settles_example =
    split_deal-settles 0 2000 boss none 1 desk (desk_of split) deal1 created-IsSound found1 3333
      (omega arith) split-eq

-- Ten dollars need a second admin.
abbrev threshold : ℕ
threshold = 10 * 10 ^ 16

abbrev waiting : Desk
waiting = desk_of (force_release threshold 2000 boss none 1 desk)

abbrev allowed : Result Error Desk
allowed = approve_deal_approval 2100 1 chief waiting

abbrev desk2 : Desk
desk2 = value desk allowed

abbrev spending : Answer
spending = force_release threshold 2200 boss (some 1) 1 desk2

spending-eq : spending ≡ ok (none, desk_of spending)
unfolding garant.Base.Table.get garant.Base.Table.put garant.Deals.Create.create_deal
    garant.Deals.Create.new_deal garant.Deposits.Invoice.get_currency_by_code
    garant.Money.is_unusable garant.Money.quantize_decimal quantize_money garant.Deals.Escrow.debit
    garant.Wallet.lock_user_balance garant.Wallet.find_balance update_balance
    garant.Wallet.record_balance_ledger garant.Wallet.put_balance force_release
    garant.Admin.Actions.clear_settlement garant.Admin.Approvals.ensure_approval_or_create
    requires_approval garant.Admin.Approvals.check_approval garant.Admin.Approvals.estimate_usd
    find_or_request garant.Admin.Approvals.new_approval garant.Admin.Approvals.same_payload
    approve_deal_approval
spending-eq = refl

deal1-stored : get_deal 1 desk2.db ≡ some deal1
unfolding garant.Base.Table.get garant.Base.Table.put garant.Deals.Create.create_deal
    garant.Deals.Create.new_deal garant.Deposits.Invoice.get_currency_by_code
    garant.Money.is_unusable garant.Money.quantize_decimal quantize_money garant.Deals.Escrow.debit
    garant.Wallet.lock_user_balance garant.Wallet.find_balance update_balance
    garant.Wallet.record_balance_ledger garant.Wallet.put_balance force_release
    garant.Admin.Actions.clear_settlement garant.Admin.Approvals.ensure_approval_or_create
    requires_approval garant.Admin.Approvals.estimate_usd find_or_request
    garant.Admin.Approvals.new_approval approve_deal_approval
deal1-stored = refl

currency-stored : get_currency 1 desk2.db ≡ some currency
unfolding garant.Base.Table.get garant.Base.Table.put garant.Deals.Create.create_deal
    garant.Deals.Create.new_deal garant.Deposits.Invoice.get_currency_by_code
    garant.Money.is_unusable garant.Money.quantize_decimal quantize_money garant.Deals.Escrow.debit
    garant.Wallet.lock_user_balance garant.Wallet.find_balance update_balance
    garant.Wallet.record_balance_ledger garant.Wallet.put_balance force_release
    garant.Admin.Actions.clear_settlement garant.Admin.Approvals.ensure_approval_or_create
    requires_approval garant.Admin.Approvals.estimate_usd find_or_request
    garant.Admin.Approvals.new_approval approve_deal_approval
currency-stored = refl

needed :
    requires_approval threshold currency (quantize_money deal1.amount currency.decimals) desk2
    ≡ true
unfolding garant.Base.Table.get garant.Base.Table.put garant.Deals.Create.create_deal
    garant.Deals.Create.new_deal garant.Deposits.Invoice.get_currency_by_code
    garant.Money.is_unusable garant.Money.quantize_decimal quantize_money garant.Deals.Escrow.debit
    garant.Wallet.lock_user_balance garant.Wallet.find_balance update_balance
    garant.Wallet.record_balance_ledger garant.Wallet.put_balance force_release
    garant.Admin.Actions.clear_settlement garant.Admin.Approvals.ensure_approval_or_create
    requires_approval garant.Admin.Approvals.estimate_usd find_or_request
    garant.Admin.Approvals.new_approval approve_deal_approval
needed = refl

Settlement-Spends_example :
    Spends threshold 2200 boss (some 1) 1 desk2 (desk_of spending) AdminAction.force_release
unfolding garant.Deals.Create.create_deal garant.Deposits.Invoice.get_currency_by_code
    garant.Money.is_unusable garant.Money.quantize_decimal garant.Deals.Escrow.debit
    garant.Wallet.lock_user_balance garant.Wallet.find_balance update_balance
    garant.Wallet.record_balance_ledger garant.Wallet.put_balance garant.Deals.Create.new_deal
Settlement-Spends_example =
    Settlement-Spends threshold 2200 boss (some 1) 1 desk2 (desk_of spending) deal1 currency
      deal1-stored currency-stored needed AdminAction.force_release (releases spending-eq)

allowed-eq : allowed ≡ ok desk2
unfolding garant.Base.Table.get garant.Base.Table.put garant.Deals.Create.create_deal
    garant.Deals.Create.new_deal garant.Deposits.Invoice.get_currency_by_code
    garant.Money.is_unusable garant.Money.quantize_decimal quantize_money garant.Deals.Escrow.debit
    garant.Wallet.lock_user_balance garant.Wallet.find_balance update_balance
    garant.Wallet.record_balance_ledger garant.Wallet.put_balance force_release
    garant.Admin.Actions.clear_settlement garant.Admin.Approvals.ensure_approval_or_create
    requires_approval garant.Admin.Approvals.estimate_usd find_or_request
    garant.Admin.Approvals.new_approval approve_deal_approval
allowed-eq = refl

AdminReaches-AllChecked_example : AllChecked desk2
unfolding garant.Base.Table.get garant.Base.Table.put garant.Deals.Create.create_deal
    garant.Deals.Create.new_deal garant.Deposits.Invoice.get_currency_by_code
    garant.Money.is_unusable garant.Money.quantize_decimal quantize_money garant.Deals.Escrow.debit
    garant.Wallet.lock_user_balance garant.Wallet.find_balance update_balance
    garant.Wallet.record_balance_ledger garant.Wallet.put_balance force_release
    garant.Admin.Actions.clear_settlement garant.Admin.Approvals.ensure_approval_or_create
    requires_approval garant.Admin.Approvals.estimate_usd find_or_request
    garant.Admin.Approvals.new_approval
AdminReaches-AllChecked_example =
    AdminReaches-AllChecked threshold waiting desk2 (refl, tt)
      (steps waiting desk2 stays (approves 2100 1 chief desk2 allowed-eq))
