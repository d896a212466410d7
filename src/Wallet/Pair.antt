-- ===== src/Wallet/Pair.antt =====
-- Two rows of a currency that are settled together: both are locked in the order of the user ids,
-- both are written, and then both changes are recorded. The releases and splits of
-- backend/app/services_deals.py and backend/app/routers/admin/deals.py have this shape.
use garant.Base.{ℕ, ◌+◌, ◌≡◌, ◌≢◌, ◌∙◌, refl, true, ◌&&◌, arith, leb, ◌==◌, if◌then◌else◌}
use garant.Base.Int.{pos, +ℤ-sub_ℕ}
use garant.Wallet.{
  Wallet, Balance, Event, Source, lock_user_balance, save_balance, record_balance_ledger, row_of,
  amount_of, locked_of,
}
use garant.Wallet.Rows.{
  lock_user_balance-row, amount_of-lock_user_balance, locked_of-lock_user_balance,
  amount_of-save_balance, locked_of-save_balance, amount_of-record, locked_of-record,
}
use garant.Wallet.Ledger.{
  IsReconciled, is_balance_event, replayed_amount, replayed_locked, record-replayed_amount,
  record-replayed_locked,
}
use garant.Wallet.Total.{
  total, held_by, lock_user_balance-total, save_balance-total, record_balance_ledger-total,
}

-- A row with a new `amount` and `locked`.
abbrev pub rewritten : (ℕ → ℕ → ℕ × ℕ) → Balance → Balance
rewritten change bal = record bal {
  amount = (change bal.amount bal.locked).0;
  locked = (change bal.amount bal.locked).1;
}

module _ (a b c : ℕ) (change_a change_b : ℕ → ℕ → ℕ × ℕ) (ev_a ev_b : Event) (src : Source)
    (w : Wallet) where
  unfoldable pub both_locked : Wallet
  both_locked =
      (lock_user_balance (if leb a b then b else a) c
        (lock_user_balance (if leb a b then a else b) c w).1).1

  unfoldable pub first_written : Wallet
  first_written = save_balance (rewritten change_a (row_of a c both_locked)) both_locked

  unfoldable pub both_written : Wallet
  both_written = save_balance (rewritten change_b (row_of b c first_written)) first_written

  unfoldable pub settle_pair : Wallet
  unfolding both_locked first_written both_written
  settle_pair =
      record_balance_ledger (row_of b c both_written) (amount_of b c both_locked)
        (locked_of b c both_locked) ev_b src
        (record_balance_ledger (row_of a c both_written) (amount_of a c both_locked)
          (locked_of a c both_locked) ev_a src both_written)

  settle_pair_lem :
      settle_pair
      ≡ record_balance_ledger
          (row_of b c both_written)
          (amount_of b c both_locked)
          (locked_of b c both_locked)
          ev_b
          src
          (record_balance_ledger
            (row_of a c both_written)
            (amount_of a c both_locked)
            (locked_of a c both_locked)
            ev_a
            src
            both_written)
  unfolding settle_pair both_locked first_written both_written
  settle_pair_lem = refl

  amount_of-both_locked : (j k : ℕ) → amount_of j k both_locked ≡ amount_of j k w
  unfolding both_locked
  amount_of-both_locked j k = rw (amount_of-lock_user_balance, amount_of-lock_user_balance)

  locked_of-both_locked : (j k : ℕ) → locked_of j k both_locked ≡ locked_of j k w
  unfolding both_locked
  locked_of-both_locked j k = rw (locked_of-lock_user_balance, locked_of-lock_user_balance)

  amount_of-first_written :
      (j k : ℕ)
      → amount_of j k first_written ≡ (
          if a == j && c == k
          then (change_a (amount_of a c w) (locked_of a c w)).0
          else amount_of j k w)
  unfolding first_written
  amount_of-first_written j k = rw (
    amount_of-save_balance j k,
    amount_of-both_locked a c,
    locked_of-both_locked a c,
    amount_of-both_locked j k,
  )

  locked_of-first_written :
      (j k : ℕ)
      → locked_of j k first_written ≡ (
          if a == j && c == k
          then (change_a (amount_of a c w) (locked_of a c w)).1
          else locked_of j k w)
  unfolding first_written
  locked_of-first_written j k = rw (
    locked_of-save_balance j k,
    amount_of-both_locked a c,
    locked_of-both_locked a c,
    locked_of-both_locked j k,
  )

  module _ (distinct : a ≢ b) where
    amount_of-other : amount_of b c first_written ≡ amount_of b c w
    amount_of-other = ground (arith, amount_of-first_written b c)

    locked_of-other : locked_of b c first_written ≡ locked_of b c w
    locked_of-other = ground (arith, locked_of-first_written b c)

    amount_of-both_written :
        (j k : ℕ)
        → amount_of j k both_written ≡ (
            if b == j && c == k
            then (change_b (amount_of b c w) (locked_of b c w)).0
            else if a == j && c == k
            then (change_a (amount_of a c w) (locked_of a c w)).0
            else amount_of j k w)
    unfolding both_written
    amount_of-both_written j k =
        rw (
          amount_of-save_balance j k,
          amount_of-other,
          locked_of-other,
          amount_of-first_written j k,
        )

    locked_of-both_written :
        (j k : ℕ)
        → locked_of j k both_written ≡ (
            if b == j && c == k
            then (change_b (amount_of b c w) (locked_of b c w)).1
            else if a == j && c == k
            then (change_a (amount_of a c w) (locked_of a c w)).1
            else locked_of j k w)
    unfolding both_written
    locked_of-both_written j k =
        rw (
          locked_of-save_balance j k,
          amount_of-other,
          locked_of-other,
          locked_of-first_written j k,
        )

    -- What the settlement leaves in every row.
    pub amount_of-settle_pair :
        (j k : ℕ)
        → amount_of j k settle_pair ≡ (
            if b == j && c == k
            then (change_b (amount_of b c w) (locked_of b c w)).0
            else if a == j && c == k
            then (change_a (amount_of a c w) (locked_of a c w)).0
            else amount_of j k w)
    amount_of-settle_pair j k =
        rw (settle_pair_lem, amount_of-record, amount_of-record) (amount_of-both_written j k)

    pub locked_of-settle_pair :
        (j k : ℕ)
        → locked_of j k settle_pair ≡ (
            if b == j && c == k
            then (change_b (amount_of b c w) (locked_of b c w)).1
            else if a == j && c == k
            then (change_a (amount_of a c w) (locked_of a c w)).1
            else locked_of j k w)
    locked_of-settle_pair j k =
        rw (settle_pair_lem, locked_of-record, locked_of-record) (locked_of-both_written j k)

    both_written-entries : both_written.entries ≡ w.entries
    unfolding both_locked first_written both_written
    both_written-entries =
        (lock_user_balance-row (if leb a b then b else a) c _).4
        ∙ (lock_user_balance-row (if leb a b then a else b) c w).4

    module _ (counted_a : is_balance_event ev_a ≡ true)
        (counted_b : is_balance_event ev_b ≡ true) where
      settle_pair-Reconciles_amount :
          (j k : ℕ)
          → replayed_amount j k w.entries ≡ pos (amount_of j k w)
          → replayed_amount j k settle_pair.entries ≡ pos (amount_of j k settle_pair)
      settle_pair-Reconciles_amount j k r =
          rw
            (
              amount_of-settle_pair j k,
              settle_pair_lem,
              record-replayed_amount (row_of b c both_written) _ _ ev_b src _ counted_b j k,
              record-replayed_amount (row_of a c both_written) _ _ ev_a src _ counted_a j k,
              amount_of-both_written a c,
              amount_of-both_written b c,
              amount_of-both_locked a c,
              amount_of-both_locked b c,
              both_written-entries,
            )
            (ground (
              arith,
              +ℤ-sub_ℕ (replayed_amount j k w.entries) (amount_of b c w)
                  (change_b (amount_of b c w) (locked_of b c w)).0,
              +ℤ-sub_ℕ (replayed_amount j k w.entries) (amount_of a c w)
                  (change_a (amount_of a c w) (locked_of a c w)).0,
            ))

      settle_pair-Reconciles_locked :
          (j k : ℕ)
          → replayed_locked j k w.entries ≡ pos (locked_of j k w)
          → replayed_locked j k settle_pair.entries ≡ pos (locked_of j k settle_pair)
      settle_pair-Reconciles_locked j k r =
          rw
            (
              locked_of-settle_pair j k,
              settle_pair_lem,
              record-replayed_locked (row_of b c both_written) _ _ ev_b src _ counted_b j k,
              record-replayed_locked (row_of a c both_written) _ _ ev_a src _ counted_a j k,
              locked_of-both_written a c,
              locked_of-both_written b c,
              locked_of-both_locked a c,
              locked_of-both_locked b c,
              both_written-entries,
            )
            (ground (
              arith,
              +ℤ-sub_ℕ (replayed_locked j k w.entries) (locked_of b c w)
                  (change_b (amount_of b c w) (locked_of b c w)).1,
              +ℤ-sub_ℕ (replayed_locked j k w.entries) (locked_of a c w)
                  (change_a (amount_of a c w) (locked_of a c w)).1,
            ))

      pub settle_pair-IsReconciled : IsReconciled w → IsReconciled settle_pair
      settle_pair-IsReconciled r j k =
          (settle_pair-Reconciles_amount j k (r j k).0, settle_pair-Reconciles_locked j k (r j k).1)

    first_written-total :
        (k : ℕ)
        → total k first_written + (if c == k then held_by a c w else 0)
          ≡ total k w
            + (if c == k
                then (change_a (amount_of a c w) (locked_of a c w)).0
                  + (change_a (amount_of a c w) (locked_of a c w)).1
                else 0)
    unfolding first_written both_locked
    first_written-total k = ground (
      arith,
      save_balance-total k (rewritten change_a (row_of a c both_locked)) both_locked,
      lock_user_balance-total k (if leb a b then b else a) c
          (lock_user_balance (if leb a b then a else b) c w).1,
      lock_user_balance-total k (if leb a b then a else b) c w,
      amount_of-both_locked a c,
      locked_of-both_locked a c,
    )

    -- A settlement changes the total of its currency by what it changes in its two rows.
    pub total-settle_pair :
        (k : ℕ)
        → total k settle_pair + (if c == k then held_by a c w + held_by b c w else 0)
          ≡ total k w
            + (if c == k
                then (change_a (amount_of a c w) (locked_of a c w)).0
                  + (change_a (amount_of a c w) (locked_of a c w)).1
                  + (change_b (amount_of b c w) (locked_of b c w)).0
                  + (change_b (amount_of b c w) (locked_of b c w)).1
                else 0)
    unfolding both_written
    total-settle_pair k =
        rw (settle_pair_lem, record_balance_ledger-total, record_balance_ledger-total)
          (ground (
            arith,
            save_balance-total k (rewritten change_b (row_of b c first_written)) first_written,
            first_written-total k,
            amount_of-other,
            locked_of-other,
          ))
