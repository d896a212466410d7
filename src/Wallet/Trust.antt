-- ===== src/Wallet/Trust.antt =====
-- The ledger entries of trust deposits: `record_synthetic_ledger` of backend/app/services_ledger.py
-- writes one for a balance that is kept on the user and not in a balance row.
use garant.Base.{ℕ, ◌≡◌, arith}
use garant.Wallet.{
  Wallet, Source, record_synthetic_ledger, deposit_trust_credit, amount_of, locked_of,
}
use garant.Wallet.Ledger.{IsReconciled, replayed_amount, replayed_locked}

module _ (u c a b : ℕ) (src : Source) (w : Wallet) where
  -- A trust entry is no part of what the rows reconcile with.
  pub trust-locked_of :
      (j k : ℕ)
      → locked_of j k (record_synthetic_ledger u c a b deposit_trust_credit src w) ≡ locked_of j k w
  unfolding record_synthetic_ledger locked_of
  trust-locked_of j k = ground arith

  trust-amount_of :
      (j k : ℕ)
      → amount_of j k (record_synthetic_ledger u c a b deposit_trust_credit src w) ≡ amount_of j k w
  unfolding record_synthetic_ledger amount_of
  trust-amount_of j k = ground arith

  trust-replayed_amount :
      (j k : ℕ)
      → replayed_amount j k (record_synthetic_ledger u c a b deposit_trust_credit src w).entries
        ≡ replayed_amount j k w.entries
  unfolding record_synthetic_ledger replayed_amount
  trust-replayed_amount j k = ground arith

  trust-replayed_locked :
      (j k : ℕ)
      → replayed_locked j k (record_synthetic_ledger u c a b deposit_trust_credit src w).entries
        ≡ replayed_locked j k w.entries
  unfolding record_synthetic_ledger replayed_locked
  trust-replayed_locked j k = ground arith

  pub trust-IsReconciled :
      IsReconciled w → IsReconciled (record_synthetic_ledger u c a b deposit_trust_credit src w)
  trust-IsReconciled r j k =
      rw
        (
          trust-replayed_amount j k,
          trust-replayed_locked j k,
          trust-amount_of j k,
          trust-locked_of j k,
        )
        (r j k)
