-- ===== src/Withdrawals/Amount/Whole.antt =====
-- With a whole number of units, the updates by a `Decimal` are the ones by a number of units.
use garant.Base.{ℕ, ◌+◌, ◌-◌, ◌≡◌, refl, ap, arith, ltb, ◌==◌, Option-cases, inl, inr}
use garant.Base.Int.{sub_ℕ}
use garant.Wallet.{
  Wallet, Event, Source, find_balance, lock_user_balance, update_balance, record_balance_ledger,
}
use garant.Withdrawals.Balance.{update_existing}
use garant.Withdrawals.Amount.{
  Amount, Column, whole, IsExact, plus, minus, delta, equals, is_below, exceeds, update_decimal,
  update_decimal_existing,
}

module _ (column : Column) (exact : IsExact column) where
  pub plus-whole : (x y : ℕ) → plus x (whole y) ≡ whole (x + y)
  plus-whole x y = ap whole (omega arith)

  pub minus-whole : (x y : ℕ) → minus x (whole y) ≡ whole (x - y)
  minus-whole x y = ap whole (omega arith)

  pub is_below-whole : (x y : ℕ) → is_below (whole x) y ≡ ltb x y
  is_below-whole x y = ap (λ n. ltb x n) (omega arith)

  pub exceeds-whole : (x y : ℕ) → exceeds (whole x) y ≡ ltb y x
  exceeds-whole x y = ap (λ n. ltb n x) (omega arith)

  delta-whole : (x before : ℕ) → delta column (whole x) before ≡ sub_ℕ x before
  unfolding delta
  delta-whole x before = ground (arith, exact (x - before), exact (before - x))

  equals-whole : (x y : ℕ) → equals (whole x) y ≡ (x == y)
  unfolding equals
  equals-whole x y = ap (λ n. x == n) (omega arith)

  pub update_decimal-whole :
      (u c : ℕ) (change : ℕ → ℕ → Amount × Amount) (change' : ℕ → ℕ → ℕ × ℕ) (event : Event)
      (source : Source) (w : Wallet)
      → ((a l : ℕ) → change a l ≡ (whole (change' a l).0, whole (change' a l).1))
      → update_decimal column u c change event source w ≡ update_balance u c change' event source w
  unfolding update_decimal update_balance record_balance_ledger
  update_decimal-whole u c change change' event source w same =
      let bal = (lock_user_balance u c w).0 in
      let a' = (change' bal.amount bal.locked).0 in
      let l' = (change' bal.amount bal.locked).1 in
      rw
        (
          same bal.amount bal.locked,
          equals-whole a' bal.amount,
          equals-whole l' bal.locked,
          delta-whole a' bal.amount,
          delta-whole l' bal.locked,
          exact a',
          exact l',
        )
        refl

  pub update_decimal_existing-whole :
      (u c : ℕ) (change : ℕ → ℕ → Amount × Amount) (change' : ℕ → ℕ → ℕ × ℕ) (event : Event)
      (source : Source) (w : Wallet)
      → ((a l : ℕ) → change a l ≡ (whole (change' a l).0, whole (change' a l).1))
      → update_decimal_existing column u c change event source w
        ≡ update_existing u c change' event source w
  unfolding update_decimal_existing update_existing
  update_decimal_existing-whole u c change change' event source w same =
      elim (Option-cases (find_balance u c w.balances)) [
        | inl missing ↦ rw (update_decimal_existing, update_existing, missing) refl
        | inr (bal, there) ↦
            rw (update_decimal_existing, update_existing, there)
              (update_decimal-whole u c change change' event source w same)
      ]
