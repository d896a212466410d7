-- ===== src/Solvency/Payouts.antt =====
-- What the buyer and the seller of a deal get when it ends (backend/app/services_deals.py).
use garant.Base.{
  ℕ, ◌+◌, ◌≤◌, ◌≡◌, sym, ap, subst, Bool, true, false, some, arith, ◌==◌, if◌then◌else◌, ok,
}
use garant.Base.Table.{get-key}
use garant.Wallet.{amount_of, locked_of}
use garant.Wallet.Total.{total}
use garant.Schema.{Db, Deal, User, Currency, Winner, buyer, seller, other, get_deal, get_currency}
use garant.Deals.Status.{holds_escrow}
use garant.Deals.Escrow.Effect.{
  amount_of-refund_principal, amount_of-release_to, locked_of-refund_principal,
  locked_of-release_to,
}
use garant.Deals.Escrow.Books.{refund_principal-total, release_to-total}
use garant.Deals.Lifecycle.{decline_deal, finish_deal, accept_cancel}
use garant.Deals.Lifecycle.Outcomes.{
  principal, refunded, released, decline_deal-ok, finish_deal-ok, accept_cancel-ok,
}
use garant.Deals.Arbitration.{resolve_arbitration, rule, winner_of}
use garant.Deals.Arbitration.Outcomes.{resolve_arbitration-ok}
use garant.Solvency.{IsSound}
use garant.Solvency.Steps.{escrow_covered, amount_exact}
use garant.Solvency.Closing.{same_terms}

-- `payee` has the whole principal of the deal on top, the buyer has it locked no longer, and
-- every currency has the funds that it had.
abbrev pub Pays : ℕ → Deal → Db → Db → Type 0
Pays payee d db db' =
    (amount_of payee d.currency_id db'.funds ≡ amount_of payee d.currency_id db.funds + d.amount)
    × (locked_of d.buyer_id d.currency_id db'.funds + d.amount
        ≡ locked_of d.buyer_id d.currency_id db.funds)
    × ((k : ℕ) → total k db'.funds ≡ total k db.funds)

module _ (d : Deal) (cur : Currency) (db : Db) (s : IsSound db) (found : get_deal d.id db ≡ some d)
    (paid_in : get_currency d.currency_id db ≡ some cur)
    (running : holds_escrow d.status ≡ true) where
  exact : principal d cur ≡ d.amount
  exact = amount_exact db d d (same_terms d) found cur paid_in s

  keyed : cur.id ≡ d.currency_id
  keyed = get-key (λ (c : Currency). c.id) d.currency_id cur db.currencies paid_in

  covered : d.amount ≤ locked_of d.buyer_id d.currency_id db.funds
  covered = escrow_covered db d d (same_terms d) found s.backed running

  pub refunded-Pays : Pays d.buyer_id d db (refunded d cur db)
  refunded-Pays =
      rw (keyed, exact)
        (
          ground (
            arith,
            amount_of-refund_principal d.buyer_id d.currency_id d.amount db.funds d.buyer_id
                d.currency_id,
          ),
          ground (
            arith,
            covered,
            locked_of-refund_principal d.buyer_id d.currency_id d.amount db.funds d.buyer_id
                d.currency_id,
          ),
          λ k. refund_principal-total k d.buyer_id d.currency_id d.amount db.funds covered,
        )

  pub released-Pays : Pays d.seller_id d db (released d cur db)
  released-Pays =
      rw (keyed, exact)
        (
          ground (
            arith,
            amount_of-release_to d.buyer_id d.seller_id d.currency_id d.amount d.amount db.funds
                d.seller_id d.currency_id,
          ),
          ground (
            arith,
            covered,
            locked_of-release_to d.buyer_id d.seller_id d.currency_id d.amount d.amount db.funds
                d.buyer_id d.currency_id,
          ),
          λ k. ground (
            arith,
            release_to-total d.buyer_id d.seller_id d.currency_id d.amount d.amount db.funds k
                covered,
          ),
        )

if-Pays :
    (payee : ℕ) (d : Deal) (db : Db) (b : Bool) (x y : Db)
    → Pays payee d db x
    → Pays payee d db y
    → Pays payee d db (if b then x else y)
if-Pays payee d db true x y p q = p
if-Pays payee d db false x y p q = q

module _ (now : ℕ) (d : Deal) (user_id : ℕ) (db : Db) {db' : Db} (s : IsSound db)
    (found : get_deal d.id db ≡ some d) where
  -- In a sound database, where decline_deal succeeds on a stored deal, the buyer has the whole
  -- principal back, and the total of every currency is unchanged.
  pub decline_deal-Pays : decline_deal now d user_id db ≡ ok db' → Pays d.buyer_id d db db'
  decline_deal-Pays done =
      let (_, st, (cur, paid_in, e)) = decline_deal-ok now d user_id db done in
      subst (Pays d.buyer_id d db) (sym e)
        (refunded-Pays d cur db s found paid_in (ap holds_escrow st))

  -- In a sound database, where accept_cancel succeeds on a stored deal, the buyer has the
  -- whole principal back, and the total of every currency is unchanged.
  pub accept_cancel-Pays : accept_cancel now d user_id db ≡ ok db' → Pays d.buyer_id d db db'
  accept_cancel-Pays done =
      let (_, st, _, (cur, paid_in, e)) = accept_cancel-ok now d user_id db done in
      subst (Pays d.buyer_id d db) (sym e) (
        if-Pays d.buyer_id d db (d.seller_id == d.buyer_id) _ _
          (refunded-Pays d cur db s found paid_in (ap holds_escrow st))
          (refunded-Pays d cur db s found paid_in (ap holds_escrow st)))

  -- In a sound database, where finish_deal succeeds on a stored deal, the seller has the whole
  -- principal on top, the buyer's locked part is lower by it, and the total of every currency
  -- is unchanged.
  pub finish_deal-Pays : finish_deal now d user_id db ≡ ok db' → Pays d.seller_id d db db'
  finish_deal-Pays done =
      let (_, st, (cur, paid_in, e)) = finish_deal-ok now d user_id db done in
      subst (Pays d.seller_id d db) (sym e)
        (released-Pays d cur db s found paid_in (ap holds_escrow st))

-- In a sound database, where resolve_arbitration succeeds on a stored deal, the winner has the
-- whole principal on top, the buyer's locked part is lower by it, and the total of every
-- currency is unchanged.
pub resolve_arbitration-Pays :
    (now : ℕ) (d : Deal) (admin : User) (winner : Winner) (db : Db) {db' : Db}
    → IsSound db
    → get_deal d.id db ≡ some d
    → resolve_arbitration now d admin winner db ≡ ok db'
    → Pays (winner_of winner d) d db db'
unfolding rule
resolve_arbitration-Pays now d admin buyer db s found done =
    let (_, st, _, (cur, paid_in, e)) = resolve_arbitration-ok now d admin buyer db done in
    subst (Pays d.buyer_id d db) (sym e)
      (refunded-Pays d cur db s found paid_in (ap holds_escrow st))
resolve_arbitration-Pays now d admin seller db s found done =
    let (_, st, _, (cur, paid_in, e)) = resolve_arbitration-ok now d admin seller db done in
    subst (Pays d.seller_id d db) (sym e)
      (released-Pays d cur db s found paid_in (ap holds_escrow st))
resolve_arbitration-Pays now d admin other db s found done =
    let (_, st, _, (cur, paid_in, e)) = resolve_arbitration-ok now d admin other db done in
    subst (Pays d.seller_id d db) (sym e)
      (released-Pays d cur db s found paid_in (ap holds_escrow st))
