-- ===== src/Solvency/Claims.antt =====
-- What a change of one withdrawal does to the invariant.
use garant.Base.{
  ℕ, ◌+◌, ◌-◌, ◌≤◌, ◌<◌, ◌≡◌, refl, sym, subst, true, false, none, some, arith, ◌==◌, if◌then◌else◌,
  ◌&&◌,
}
use garant.Base.Table.{
  get, put, sum_by, sum_by-put, sum_by-put_new, le-sum_by, All-get, All-put, All-map, get_fresh,
}
use garant.Base.Keyed.{Distinct-put}
use garant.Wallet.{Wallet, locked_of}
use garant.Wallet.Ledger.{IsReconciled}
use garant.Schema.{Db, Withdrawal, get_withdrawal, put_withdrawal, with_funds, withdrawal_key}
use garant.Withdrawals.Request.{insert_withdrawal}
use garant.Solvency.{withdrawal_share, is_open, IsBacked, IsSound}

-- `w'` is `w` with its status and stamp rewritten.
abbrev pub SameClaim : Withdrawal → Withdrawal → Type 0
SameClaim w w' =
    (w'.id ≡ w.id)
    × (w'.user_id ≡ w.user_id)
    × (w'.currency_id ≡ w.currency_id)
    × (w'.amount ≡ w.amount)
    × (w'.address ≡ w.address)

pub same_claim : (w : Withdrawal) → SameClaim w w
same_claim w = (refl, refl, refl, refl, refl)

module _ (db : Db) (w : Withdrawal) (found : get_withdrawal w.id db ≡ some w) where
  -- What the owner of an open withdrawal has locked covers it.
  pub withdrawal_covered :
      IsBacked db → is_open w.status ≡ true → w.amount ≤ locked_of w.user_id w.currency_id db.funds
  withdrawal_covered b h = ground (
    arith,
    b w.user_id w.currency_id,
    le-sum_by withdrawal_key (withdrawal_share w.user_id w.currency_id) w.id w db.withdrawals found,
  )

  module _ (w' : Withdrawal) (same : SameClaim w w') where
    pub share-put :
        (u c : ℕ)
        → sum_by (withdrawal_share u c) (put withdrawal_key w' db.withdrawals)
            + withdrawal_share u c w
          ≡ sum_by (withdrawal_share u c) db.withdrawals + withdrawal_share u c w'
    share-put u c =
        sum_by-put withdrawal_key (withdrawal_share u c) w' w db.withdrawals
          (subst (λ (k : ℕ). get withdrawal_key k db.withdrawals ≡ some w) (sym same.0) found)

    -- A step of a stored withdrawal together with a change of its owner's row.
    pub claimed-IsSound :
        (funds : Wallet)
        → ((u c : ℕ)
            → locked_of u c funds + withdrawal_share u c w
              ≡ locked_of u c db.funds + withdrawal_share u c w')
        → IsReconciled funds
        → IsSound db
        → IsSound (put_withdrawal w' (with_funds funds db))
    claimed-IsSound funds law r s = record {
      backed = λ u c. omega (arith, law u c, s.backed u c, share-put u c);
      reconciled = r;
      deals_sound = s.deals_sound;
      deals_keyed = s.deals_keyed;
      currencies_keyed = s.currencies_keyed;
      withdrawals_keyed = Distinct-put withdrawal_key w' db.withdrawals s.withdrawals_keyed;
      withdrawals_sound =
          All-put withdrawal_key (λ (x : Withdrawal). x.id < db.next_withdrawal_id) w'
            db.withdrawals
            (rw same.0 (
              All-get withdrawal_key (λ (x : Withdrawal). x.id < db.next_withdrawal_id) w.id w
                db.withdrawals s.withdrawals_sound found))
            s.withdrawals_sound;
    }

    -- A step that closes the withdrawal and unlocks its amount.
    pub closed-IsSound :
        (funds : Wallet)
        → is_open w.status ≡ true
        → is_open w'.status ≡ false
        → ((u c : ℕ)
            → locked_of u c funds ≡ (
                if w.user_id == u && w.currency_id == c
                then locked_of w.user_id w.currency_id db.funds - w.amount
                else locked_of u c db.funds))
        → IsReconciled funds
        → IsSound db
        → IsSound (put_withdrawal w' (with_funds funds db))
    closed-IsSound funds h h' law r s =
        claimed-IsSound funds (λ u c. ground (arith, law u c, withdrawal_covered s.backed h, same))
          r s

    -- A step that leaves it open and touches no row.
    pub still_open-IsSound :
        is_open w.status ≡ is_open w'.status → IsSound db → IsSound (put_withdrawal w' db)
    still_open-IsSound h s = claimed-IsSound db.funds (λ u c. ground (arith, same)) s.reconciled s

-- A new withdrawal together with what it locks.
pub claimed_new-IsSound :
    (db : Db) (w : Withdrawal) (funds : Wallet)
    → w.id ≡ db.next_withdrawal_id
    → ((u c : ℕ) → locked_of u c funds ≡ locked_of u c db.funds + withdrawal_share u c w)
    → IsReconciled funds
    → IsSound db
    → IsSound (insert_withdrawal w (with_funds funds db))
claimed_new-IsSound db w funds new law r s = record {
  backed = λ u c. omega (
    arith,
    law u c,
    s.backed u c,
    sum_by-put_new withdrawal_key (withdrawal_share u c) w db.withdrawals fresh,
  );
  reconciled = r;
  deals_sound = s.deals_sound;
  deals_keyed = s.deals_keyed;
  currencies_keyed = s.currencies_keyed;
  withdrawals_keyed = Distinct-put withdrawal_key w db.withdrawals s.withdrawals_keyed;
  withdrawals_sound =
      All-put withdrawal_key (λ (x : Withdrawal). x.id < db.next_withdrawal_id + 1) w db.withdrawals
        (omega (arith, new))
        (All-map (λ (x : Withdrawal). x.id < db.next_withdrawal_id)
          (λ (x : Withdrawal). x.id < db.next_withdrawal_id + 1) db.withdrawals
          (λ a h. omega (arith, h)) s.withdrawals_sound);
}
  where
    fresh : get withdrawal_key w.id db.withdrawals ≡ none
    fresh =
        rw new (get_fresh withdrawal_key db.next_withdrawal_id db.withdrawals s.withdrawals_sound)
