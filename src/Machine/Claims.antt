-- ===== src/Machine/Claims.antt =====
-- The life of a withdrawal (backend/app/services_wallet.py and
-- backend/app/routers/admin/withdrawals.py): which status leads to which, and what no operation
-- changes in a stored row. The stale sweep is among the steps, and so is anything that leaves the
-- table of withdrawals as it is.
use garant.Base.{
  ℕ, ◌≡◌, refl, sym, ◌∙◌, subst, Bool, true, false, none, some, List, [], ◌∷◌, arith, ◌==◌,
  Bool-cases, inl, inr,
}
use garant.Base.Table.{get, put, get-put}
use garant.Schema.{
  Db, User, Withdrawal, WithdrawStatus, withdrawal_key, notify, system, about_withdrawal,
}
use garant.Withdrawals.Transfer.{tell_all, queue_for_admins}
use garant.Solvency.Claims.{SameClaim, same_claim}

abbrev pub leads : WithdrawStatus → WithdrawStatus → Bool
leads WithdrawStatus.pending _ = true
leads WithdrawStatus.approved WithdrawStatus.approved = true
leads WithdrawStatus.approved WithdrawStatus.sent = true
leads WithdrawStatus.approved WithdrawStatus.rejected = true
leads WithdrawStatus.sent WithdrawStatus.sent = true
leads WithdrawStatus.rejected WithdrawStatus.rejected = true
leads _ _ = false

leads_refl : (a : WithdrawStatus) → leads a a ≡ true
leads_refl a = ground arith

leads_trans : (a b c : WithdrawStatus) → leads a b ≡ true → leads b c ≡ true → leads a c ≡ true
leads_trans a b c h k = ground arith

abbrev pub is_settled : WithdrawStatus → Bool
is_settled WithdrawStatus.sent = true
is_settled WithdrawStatus.rejected = true
is_settled _ = false

pub settled-leads : (a b : WithdrawStatus) → is_settled a ≡ true → leads a b ≡ true → b ≡ a
settled-leads a b h k = ground arith

-- Every withdrawal of `xs` is still in `ys`, under the same terms, at a status that it leads to.
abbrev pub Keeps : List Withdrawal → List Withdrawal → Type 0
Keeps xs ys =
    (k : ℕ) (x : Withdrawal)
    → get withdrawal_key k xs ≡ some x
    → (y : Withdrawal) × (get withdrawal_key k ys ≡ some y)
      × SameClaim x y
      × (leads x.status y.status ≡ true)

pub Keeps-refl : (xs : List Withdrawal) → Keeps xs xs
Keeps-refl xs k x h = (x, h, same_claim x, leads_refl x.status)

pub Keeps-trans : (xs ys zs : List Withdrawal) → Keeps xs ys → Keeps ys zs → Keeps xs zs
Keeps-trans xs ys zs p q k x h =
    let (y, g, (a0, a1, a2, a3, a4), f) = p k x h in
    let (z, g', (b0, b1, b2, b3, b4), f') = q k y g in
    (
      z,
      g',
      (b0 ∙ a0, b1 ∙ a1, b2 ∙ a2, b3 ∙ a3, b4 ∙ a4),
      leads_trans x.status y.status z.status f f',
    )

pub Keeps-eq : (xs ys : List Withdrawal) → ys ≡ xs → Keeps xs ys
Keeps-eq xs ys e = subst (Keeps xs) (sym e) (Keeps-refl xs)

-- Rewriting a stored row.
pub Keeps-put :
    (w w' : Withdrawal) (xs : List Withdrawal)
    → SameClaim w w'
    → get withdrawal_key w.id xs ≡ some w
    → leads w.status w'.status ≡ true
    → Keeps xs (put withdrawal_key w' xs)
Keeps-put w w' xs terms found f k x h = elim (Bool-cases (w'.id == k)) [
  | inl hit ↦
      let it : w ≡ x = ground (arith, terms.0) in
      let there : get withdrawal_key k (put withdrawal_key w' xs) ≡ some w' =
        ground (arith, get-put withdrawal_key k w' xs) in
      (
        w',
        there,
        subst (λ (y : Withdrawal). SameClaim y w') it terms,
        subst (λ (y : Withdrawal). leads y.status w'.status ≡ true) it f,
      )
  | inr miss ↦
      let there : get withdrawal_key k (put withdrawal_key w' xs) ≡ some x =
        ground (arith, get-put withdrawal_key k w' xs) in
      (x, there, same_claim x, leads_refl x.status)
]

-- A new row.
pub Keeps-insert :
    (w : Withdrawal) (xs : List Withdrawal)
    → get withdrawal_key w.id xs ≡ none
    → Keeps xs (put withdrawal_key w xs)
Keeps-insert w xs fresh k x h =
    let there : get withdrawal_key k (put withdrawal_key w xs) ≡ some x =
      ground (arith, get-put withdrawal_key k w xs) in
    (x, there, same_claim x, leads_refl x.status)

tell_all-withdrawals :
    (k : ℕ) (admins : List User) (db : Db) → (tell_all k admins db).withdrawals ≡ db.withdrawals
unfolding tell_all
tell_all-withdrawals k [] db = refl
tell_all-withdrawals k (u ∷ us) db =
    tell_all-withdrawals k us (notify u.id system (about_withdrawal k) db)

pub queue-withdrawals :
    (w : Withdrawal) (db : Db) → (queue_for_admins w db).withdrawals ≡ db.withdrawals
unfolding queue_for_admins
queue-withdrawals w db = tell_all-withdrawals w.id _ db
