-- ===== src/Withdrawals/Effect.antt =====
-- What a change of a row that may be missing leaves (backend/app/services_wallet.py and
-- backend/app/routers/admin/withdrawals.py).
use garant.Base.{ℕ, ◌+◌, ◌≡◌, true, ◌&&◌, none, arith, ◌==◌, if◌then◌else◌, Option-cases, inl, inr}
use garant.Wallet.{Wallet, Event, Source, find_balance, amount_of, locked_of}
use garant.Wallet.Rows.{amount_of-update_balance, locked_of-update_balance}
use garant.Wallet.Ledger.{IsReconciled, is_balance_event, update_balance-IsReconciled}
use garant.Wallet.Total.{total, held_by, total-update_balance}
use garant.Withdrawals.Balance.{update_existing}

module _ (u c : ℕ) (change : ℕ → ℕ → ℕ × ℕ) (ev : Event) (src : Source) (w : Wallet) where
  missing-zero : find_balance u c w.balances ≡ none → (amount_of u c w ≡ 0) × (locked_of u c w ≡ 0)
  unfolding amount_of locked_of
  missing-zero h = ground arith

  -- A missing row counts as zeros, which the change leaves.
  pub locked_of-update_existing :
      (j k : ℕ)
      → (change 0 0).1 ≡ 0
      → locked_of j k (update_existing u c change ev src w) ≡ (
          if u == j && c == k
          then (change (amount_of u c w) (locked_of u c w)).1
          else locked_of j k w)
  unfolding update_existing locked_of amount_of
  locked_of-update_existing j k h = elim (Option-cases (find_balance u c w.balances)) [
    | inl missing ↦
        rw (update_existing, missing, (missing-zero missing).0, (missing-zero missing).1)
          (ground (arith, missing-zero missing))
    | inr (b, found) ↦
        rw (update_existing, found) (locked_of-update_balance u c change ev src w j k)
  ]

  pub amount_of-update_existing :
      (j k : ℕ)
      → (find_balance u c w.balances ≡ none → (change 0 0).0 ≡ 0)
      → amount_of j k (update_existing u c change ev src w) ≡ (
          if u == j && c == k
          then (change (amount_of u c w) (locked_of u c w)).0
          else amount_of j k w)
  unfolding update_existing amount_of locked_of
  amount_of-update_existing j k h = elim (Option-cases (find_balance u c w.balances)) [
    | inl missing ↦
        rw (update_existing, missing, (missing-zero missing).0, (missing-zero missing).1)
          (ground (arith, missing-zero missing, h missing))
    | inr (b, found) ↦
        rw (update_existing, found) (amount_of-update_balance u c change ev src w j k)
  ]

  pub update_existing-IsReconciled :
      is_balance_event ev ≡ true
      → IsReconciled w
      → IsReconciled (update_existing u c change ev src w)
  unfolding update_existing garant.Wallet.Ledger.replayed_amount amount_of
      garant.Wallet.Ledger.replayed_locked locked_of
  update_existing-IsReconciled counted r = elim (Option-cases (find_balance u c w.balances)) [
    | inl missing ↦ rw (update_existing, missing) r
    | inr (b, found) ↦
        rw (update_existing, found) (update_balance-IsReconciled u c change ev src w counted r)
  ]

  pub update_existing-total :
      (k : ℕ)
      → (find_balance u c w.balances ≡ none → (change 0 0).0 + (change 0 0).1 ≡ 0)
      → total k (update_existing u c change ev src w) + (if c == k then held_by u c w else 0)
        ≡ total k w
          + (if c == k
              then (change (amount_of u c w) (locked_of u c w)).0
                + (change (amount_of u c w) (locked_of u c w)).1
              else 0)
  unfolding update_existing amount_of locked_of
  update_existing-total k h = elim (Option-cases (find_balance u c w.balances)) [
    | inl missing ↦
        rw (update_existing, missing, (missing-zero missing).0, (missing-zero missing).1)
          (ground (arith, missing-zero missing, h missing))
    | inr (b, found) ↦ rw (update_existing, found) (total-update_balance k u c change ev src w)
  ]
