-- ===== src/Admin/Actions/Outcomes.antt =====
-- What a settlement by an admin has checked where it is done (backend/app/routers/admin/deals.py).
use garant.Base.{
  ℕ, ◌≡◌, refl, subst, true, false, Option, none, some, List, [], ◌∷◌, ◌⊎◌, Result-cases, arith, ok,
  Option-cases, Bool-cases, inl, inr,
}
use garant.Base.Table.{All, first_row, select}
use garant.Base.Keyed.{All-selected}
use garant.Money.{quantize_money}
use garant.Schema.{Deal, User, Currency, get_deal, get_currency}
use garant.Admin.Approvals.{
  Desk, Approval, AdminAction, Payload, ensure_approval_or_create, find_or_request, check_approval,
  matches, mark_approval_executed, is_waiting, is_approved, requires_approval, estimate_usd,
  new_approval, get_approval, same_action, same_payload,
}
use garant.Admin.Actions.{is_active_for_money_movement, clear_settlement, still_waits}

find_or_request-db :
    (admin : User) (deal : Deal) (action : AdminAction) (usd : Option ℕ) (payload : Payload)
    (desk : Desk)
    → (find_or_request admin deal action usd payload desk).1.db ≡ desk.db
unfolding find_or_request
find_or_request-db admin deal action usd payload desk =
    elim (Option-cases (first_row (select (matches action deal.id payload) desk.approvals))) [
      | inl nothing ↦ rw (find_or_request, nothing)
      | inr (a, found) ↦ rw (find_or_request, found)
    ]

first_row-All :
    (P : Approval → Type 0) (a : Approval) (xs : List Approval)
    → All P xs
    → first_row xs ≡ some a
    → P a
first_row-All P a [] h e = cc
first_row-All P a (x ∷ xs) h e = let it : x ≡ a = ground arith in subst P it h.0

-- With no id given the answer is a request that waits.
find_or_request-waits :
    (admin : User) (deal : Deal) (action : AdminAction) (usd : Option ℕ) (payload : Payload)
    (desk : Desk)
    → is_waiting (find_or_request admin deal action usd payload desk).0.status ≡ true
unfolding find_or_request new_approval
find_or_request-waits admin deal action usd payload desk =
    elim (Option-cases (first_row (select (matches action deal.id payload) desk.approvals))) [
      | inl nothing ↦ rw (find_or_request, nothing)
      | inr (a, found) ↦
          rw (find_or_request, found)
            (waiting_match a (
              first_row-All (λ x. matches action deal.id payload x ≡ true) a _
                (All-selected (matches action deal.id payload) desk.approvals) found))
    ]
  where
    waiting_match :
        (a : Approval) → matches action deal.id payload a ≡ true → is_waiting a.status ≡ true
    waiting_match a h = ground arith

pub mark-db :
    (now : ℕ) (a : Option Approval) (admin : User) (desk : Desk)
    → (mark_approval_executed now a admin desk).db ≡ desk.db
unfolding mark_approval_executed
mark-db now none admin desk = refl
mark-db now (some a) admin desk = refl

module _ (threshold : ℕ) (action : AdminAction) (percent : Option ℕ) (admin : User)
    (approval_id : Option ℕ) (deal_id : ℕ) (desk : Desk) where
  abbrev pub asked_for : Deal → Currency → Payload
  asked_for deal cur = record {
    currency = cur.code;
    amount = quantize_money deal.amount cur.decimals;
    buyer_percent = percent;
  }

  pub clear_settlement-ok :
      (deal : Deal) (cur : Currency) (a : Option Approval) (desk' : Desk)
      → clear_settlement threshold action percent admin approval_id deal_id desk
        ≡ ok (deal, cur, a, desk')
      → (get_deal deal_id desk.db ≡ some deal)
        × (is_active_for_money_movement deal.status ≡ true)
        × (get_currency deal.currency_id desk.db ≡ some cur)
        × (ensure_approval_or_create threshold admin deal cur action
              (quantize_money deal.amount cur.decimals)
              (asked_for deal cur)
              approval_id
              desk
            ≡ ok (a, desk'))
  unfolding clear_settlement
  clear_settlement-ok deal cur a desk' h = elim (Option-cases (get_deal deal_id desk.db)) [
    | inl missing ↦ absurd (ground arith)
    | inr (d, found) ↦ elim (Option-cases (get_currency d.currency_id desk.db)) [
      | inl unknown ↦ absurd (ground arith)
      | inr (c, priced) ↦ elim (Bool-cases (is_active_for_money_movement d.status)) [
        | inr over ↦ absurd (ground arith)
        | inl active ↦ ground arith
      ]
    ]
  ]

-- The approval with which a settlement goes ahead, and why there may be none.
abbrev pub IsCleared :
    ℕ → Deal → Currency → AdminAction → ℕ → Payload → Option ℕ → Option Approval → Desk → Type 0
IsCleared threshold deal cur action amount payload approval_id a desk =
    ((a ≡ none) × (requires_approval threshold cur amount desk ≡ false))
    ⊎ ((k : ℕ) × (x : Approval) × (approval_id ≡ some k)
        × (a ≡ some x)
        × (get_approval k desk ≡ some x)
        × (is_approved x.status ≡ true)
        × (x.target_id ≡ deal.id)
        × (same_action x.action action ≡ true)
        × (same_payload x.payload payload ≡ true))

module _ (threshold : ℕ) (admin : User) (deal : Deal) (cur : Currency) (action : AdminAction)
    (amount : ℕ) (payload : Payload) (desk : Desk) where
  check_approval-ok :
      (k : ℕ) (x : Approval)
      → check_approval admin deal action payload k desk ≡ ok x
      → (get_approval k desk ≡ some x)
        × (is_approved x.status ≡ true)
        × (x.target_id ≡ deal.id)
        × (same_action x.action action ≡ true)
        × (same_payload x.payload payload ≡ true)
  unfolding check_approval
  check_approval-ok k x h = ground arith

  pub ensure-IsCleared :
      (approval_id : Option ℕ) (a : Option Approval) (desk' : Desk)
      → ensure_approval_or_create threshold admin deal cur action amount payload approval_id desk
        ≡ ok (a, desk')
      → still_waits a ≡ false
      → (desk' ≡ desk) × IsCleared threshold deal cur action amount payload approval_id a desk
  unfolding ensure_approval_or_create
  ensure-IsCleared none a desk' h w =
      elim (Bool-cases (requires_approval threshold cur amount desk)) [
        | inl needed ↦ absurd (
            ground (
              arith,
              find_or_request-waits admin deal action (estimate_usd cur amount desk) payload desk,
            ))
        | inr free ↦ (ground arith, inl (ground arith, free))
      ]
  ensure-IsCleared (some k) a desk' h w =
      elim (Bool-cases (requires_approval threshold cur amount desk)) [
        | inl needed ↦ elim (Result-cases (check_approval admin deal action payload k desk)) [
          | inl (e, raised) ↦ absurd (ground arith)
          | inr (x, checked) ↦
              let (got, good, target, act, pay) = check_approval-ok k x checked in
              (ground arith, inr (k, x, refl, ground arith, got, good, target, act, pay))
        ]
        | inr free ↦ (ground arith, inl (ground arith, free))
      ]
