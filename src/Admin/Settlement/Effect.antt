-- ===== src/Admin/Settlement/Effect.antt =====
-- What the three settlements leave in the rows, the ledger and the totals.
use garant.Base.{ℕ, ◌+◌, ◌-◌, ◌≤◌, ◌≡◌, ◌≢◌, refl, ◌&&◌, some, arith, ◌==◌, if◌then◌else◌}
use garant.Money.{quantize_money}
use garant.Wallet.{
  Wallet, amount_of, locked_of, admin_force_release_debit, admin_force_release_credit,
  admin_force_refund, admin_split_buyer, admin_split_seller, from_deal,
}
use garant.Wallet.Rows.{amount_of-update_balance, locked_of-update_balance}
use garant.Wallet.Ledger.{IsReconciled, update_balance-IsReconciled}
use garant.Wallet.Total.{total, total-update_balance}
use garant.Wallet.Pair.{
  amount_of-settle_pair, locked_of-settle_pair, settle_pair-IsReconciled, total-settle_pair,
}
use garant.Schema.{Deal, Currency}
use garant.Admin.Settlement.{
  release_locked_to_seller, refund_locked_to_buyer, split_locked, buyer_share_of,
}

module _ (d : Deal) (cur : Currency) (w : Wallet) where
  abbrev pub pot : ℕ
  pot = quantize_money d.amount cur.decimals

  -- All three take the pot out of the buyer's locked part and leave the rest locked.
  abbrev pub Unlocks : Wallet → Type 0
  Unlocks w' =
      (u c : ℕ)
      → locked_of u c w' ≡ (
          if d.buyer_id == u && cur.id == c
          then locked_of d.buyer_id cur.id w - pot
          else locked_of u c w)

  -- The buyer gets `x` and the seller `y`, and no total changes.
  abbrev pub Shares : ℕ → ℕ → Wallet → Type 0
  Shares x y w' =
      (amount_of d.buyer_id cur.id w' ≡ amount_of d.buyer_id cur.id w + x)
      × (amount_of d.seller_id cur.id w' ≡ amount_of d.seller_id cur.id w + y)
      × ((k : ℕ) → total k w' ≡ total k w)

  pub refund-Unlocks : Unlocks (refund_locked_to_buyer d cur w)
  unfolding refund_locked_to_buyer
  refund-Unlocks u c =
      locked_of-update_balance d.buyer_id cur.id (λ a l. (a + pot, l - pot)) admin_force_refund
        (from_deal (some d.id)) w u c

  pub refund-IsReconciled : IsReconciled w → IsReconciled (refund_locked_to_buyer d cur w)
  unfolding refund_locked_to_buyer
  refund-IsReconciled r =
      update_balance-IsReconciled d.buyer_id cur.id _ admin_force_refund (from_deal (some d.id)) w
        refl r

  module _ (distinct : d.buyer_id ≢ d.seller_id) where
    pub refund-Shares :
        pot ≤ locked_of d.buyer_id cur.id w → Shares pot 0 (refund_locked_to_buyer d cur w)
    unfolding refund_locked_to_buyer
    refund-Shares covered = (
      ground (
        arith,
        amount_of-update_balance d.buyer_id cur.id (λ a l. (a + pot, l - pot)) admin_force_refund
            (from_deal (some d.id)) w d.buyer_id cur.id,
      ),
      ground (
        arith,
        amount_of-update_balance d.buyer_id cur.id (λ a l. (a + pot, l - pot)) admin_force_refund
            (from_deal (some d.id)) w d.seller_id cur.id,
      ),
      λ k. ground (
        arith,
        total-update_balance k d.buyer_id cur.id (λ a l. (a + pot, l - pot)) admin_force_refund
            (from_deal (some d.id)) w,
      ),
    )

    pub release-Unlocks : Unlocks (release_locked_to_seller d cur w)
    unfolding release_locked_to_seller
    release-Unlocks u c = ground (
      arith,
      locked_of-settle_pair d.buyer_id d.seller_id cur.id (λ a l. (a, l - pot))
          (λ a l. (a + pot, l)) admin_force_release_debit admin_force_release_credit
          (from_deal (some d.id)) w distinct u c,
    )

    pub release-IsReconciled : IsReconciled w → IsReconciled (release_locked_to_seller d cur w)
    unfolding release_locked_to_seller
    release-IsReconciled r =
        settle_pair-IsReconciled d.buyer_id d.seller_id cur.id (λ a l. (a, l - pot))
          (λ a l. (a + pot, l)) admin_force_release_debit admin_force_release_credit
          (from_deal (some d.id)) w distinct refl refl r

    pub release-Shares :
        pot ≤ locked_of d.buyer_id cur.id w → Shares 0 pot (release_locked_to_seller d cur w)
    unfolding release_locked_to_seller
    release-Shares covered = (
      ground (
        arith,
        amount_of-settle_pair d.buyer_id d.seller_id cur.id (λ a l. (a, l - pot))
            (λ a l. (a + pot, l)) admin_force_release_debit admin_force_release_credit
            (from_deal (some d.id)) w distinct d.buyer_id cur.id,
      ),
      ground (
        arith,
        amount_of-settle_pair d.buyer_id d.seller_id cur.id (λ a l. (a, l - pot))
            (λ a l. (a + pot, l)) admin_force_release_debit admin_force_release_credit
            (from_deal (some d.id)) w distinct d.seller_id cur.id,
      ),
      λ k. ground (
        arith,
        total-settle_pair d.buyer_id d.seller_id cur.id (λ a l. (a, l - pot)) (λ a l. (a + pot, l))
            admin_force_release_debit admin_force_release_credit (from_deal (some d.id)) w distinct
            k,
      ),
    )

    module _ (percent : ℕ) where
      abbrev pub share : ℕ
      share = buyer_share_of pot percent cur

      pub split-Unlocks : Unlocks (split_locked percent d cur w)
      unfolding split_locked
      split-Unlocks u c = ground (
        arith,
        locked_of-settle_pair d.buyer_id d.seller_id cur.id (λ a l. (a + share, l - pot))
            (λ a l. (a + (pot - share), l)) admin_split_buyer admin_split_seller
            (from_deal (some d.id)) w distinct u c,
      )

      pub split-IsReconciled : IsReconciled w → IsReconciled (split_locked percent d cur w)
      unfolding split_locked
      split-IsReconciled r =
          settle_pair-IsReconciled d.buyer_id d.seller_id cur.id (λ a l. (a + share, l - pot))
            (λ a l. (a + (pot - share), l)) admin_split_buyer admin_split_seller
            (from_deal (some d.id)) w distinct refl refl r

      pub split-Shares :
          share ≤ pot
          → pot ≤ locked_of d.buyer_id cur.id w
          → Shares share (pot - share) (split_locked percent d cur w)
      unfolding split_locked
      split-Shares within covered = (
        ground (
          arith,
          amount_of-settle_pair d.buyer_id d.seller_id cur.id (λ a l. (a + share, l - pot))
              (λ a l. (a + (pot - share), l)) admin_split_buyer admin_split_seller
              (from_deal (some d.id)) w distinct d.buyer_id cur.id,
        ),
        ground (
          arith,
          amount_of-settle_pair d.buyer_id d.seller_id cur.id (λ a l. (a + share, l - pot))
              (λ a l. (a + (pot - share), l)) admin_split_buyer admin_split_seller
              (from_deal (some d.id)) w distinct d.seller_id cur.id,
        ),
        λ k. ground (
          arith,
          total-settle_pair d.buyer_id d.seller_id cur.id (λ a l. (a + share, l - pot))
              (λ a l. (a + (pot - share), l)) admin_split_buyer admin_split_seller
              (from_deal (some d.id)) w distinct k,
        ),
      )
