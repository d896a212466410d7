-- ===== src/Machine.antt =====
-- The life of a deal as a state machine: the edges between statuses that
-- backend/app/services_deals.py takes, and what no operation changes in a stored deal.
pub mod LifeMoves
pub mod TopupMoves
pub mod SweepMoves
pub mod NewMoves
pub mod CreditMoves
pub mod Claims
pub mod ClaimMoves
pub mod Untouched
pub mod CreditSpares
pub mod ClaimDeals
pub mod Histories
pub mod StaleMoves
pub mod ClaimHistories
use garant.Base.{
  ℕ, ◌≡◌, refl, ◌∙◌, subst, Bool, true, false, some, none, List, arith, ◌==◌, if◌then◌else◌,
  Bool-cases, inl, inr,
}
use garant.Base.Table.{get, put, get-put, get-key}
use garant.Schema.{
  Deal, DealStatus, deal_key, is_terminal, cancelled, pending_confirmation, in_progress, completed,
  arbitration, resolved_for_buyer, resolved_for_seller, pending_cancellation,
  cancelled_for_inactivity, pending_topup,
}
use garant.Solvency.Steps.{SameTerms}

pub data Move : DealStatus → DealStatus → Type 0 where
  activated : Move pending_topup pending_confirmation
  given_up : Move pending_topup cancelled
  unpaid : Move pending_topup cancelled_for_inactivity
  taken_on : Move pending_confirmation in_progress
  turned_down : Move pending_confirmation cancelled
  unanswered : Move pending_confirmation cancelled_for_inactivity
  done : Move in_progress completed
  cancel_asked : Move in_progress pending_cancellation
  cancel_revoked : Move pending_cancellation in_progress
  cancel_agreed : Move pending_cancellation cancelled
  disputed : Move in_progress arbitration
  cancel_disputed : Move pending_cancellation arbitration
  won_by_buyer : Move arbitration resolved_for_buyer
  won_by_seller : Move arbitration resolved_for_seller

-- Any number of moves.
pub data Follows (a : DealStatus) : DealStatus → Type 0 where
  same : Follows a a
  moves : (b c : DealStatus) → Follows a b → Move b c → Follows a c

pub Follows-trans : (a b c : DealStatus) → Follows a b → Follows b c → Follows a c
Follows-trans a b _ p same = p
Follows-trans a b _ p (moves d c q m) = moves d c (Follows-trans a b d p q) m

pub once : (a b : DealStatus) → Move a b → Follows a b
once a b m = moves a b same m

from_terminal : (a b : DealStatus) → Move a b → is_terminal a ≡ false
from_terminal _ _ activated = refl
from_terminal _ _ given_up = refl
from_terminal _ _ unpaid = refl
from_terminal _ _ taken_on = refl
from_terminal _ _ turned_down = refl
from_terminal _ _ unanswered = refl
from_terminal _ _ done = refl
from_terminal _ _ cancel_asked = refl
from_terminal _ _ cancel_revoked = refl
from_terminal _ _ cancel_agreed = refl
from_terminal _ _ disputed = refl
from_terminal _ _ cancel_disputed = refl
from_terminal _ _ won_by_buyer = refl
from_terminal _ _ won_by_seller = refl

-- Nothing follows a terminal status.
pub Follows-terminal : (a b : DealStatus) → is_terminal a ≡ true → Follows a b → b ≡ a
Follows-terminal a _ t same = refl
Follows-terminal a _ t (moves b c p m) =
    let stayed : b ≡ a = Follows-terminal a b t p in
    let open_end : is_terminal b ≡ false = from_terminal b c m in absurd (ground arith)

-- Every deal of `xs` is still in `ys`, under the same terms, at a status that follows.
abbrev pub Evolves : List Deal → List Deal → Type 0
Evolves xs ys =
    (k : ℕ) (x : Deal)
    → get deal_key k xs ≡ some x
    → (y : Deal) × (get deal_key k ys ≡ some y) × SameTerms x y × Follows x.status y.status

pub Evolves-refl : (xs : List Deal) → Evolves xs xs
Evolves-refl xs k x h = (x, h, (refl, refl, refl, refl, refl), same)

pub Evolves-trans : (xs ys zs : List Deal) → Evolves xs ys → Evolves ys zs → Evolves xs zs
Evolves-trans xs ys zs p q k x h =
    let (y, g, (a0, a1, a2, a3, a4), f) = p k x h in
    let (z, g', (b0, b1, b2, b3, b4), f') = q k y g in
    (
      z,
      g',
      (b0 ∙ a0, b1 ∙ a1, b2 ∙ a2, b3 ∙ a3, b4 ∙ a4),
      Follows-trans x.status y.status z.status f f',
    )

-- Rewriting a stored deal.
pub Evolves-put :
    (d d' : Deal) (xs : List Deal)
    → SameTerms d d'
    → get deal_key d.id xs ≡ some d
    → Follows d.status d'.status
    → Evolves xs (put deal_key d' xs)
Evolves-put d d' xs terms found f k x h = elim (Bool-cases (d'.id == k)) [
  | inl hit ↦
      let it : d ≡ x = ground (arith, terms.0) in
      let there : get deal_key k (put deal_key d' xs) ≡ some d' =
        ground (arith, get-put deal_key k d' xs) in
      (
        d',
        there,
        subst (λ (y : Deal). SameTerms y d') it terms,
        subst (λ (y : Deal). Follows y.status d'.status) it f,
      )
  | inr miss ↦
      let there : get deal_key k (put deal_key d' xs) ≡ some x =
        ground (arith, get-put deal_key k d' xs) in
      (x, there, (refl, refl, refl, refl, refl), same)
]

-- A new deal.
pub Evolves-insert :
    (d : Deal) (xs : List Deal) → get deal_key d.id xs ≡ none → Evolves xs (put deal_key d xs)
Evolves-insert d xs fresh k x h =
    let there : get deal_key k (put deal_key d xs) ≡ some x =
      ground (arith, get-put deal_key k d xs) in
    (x, there, (refl, refl, refl, refl, refl), same)
