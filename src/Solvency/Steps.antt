-- ===== src/Solvency/Steps.antt =====
-- What a change of one deal does to the invariant.
use garant.Base.{
  ℕ, ◌+◌, ◌-◌, ◌≤◌, ◌≡◌, ◌≢◌, sym, subst, subst₂, true, false, ◌&&◌, some, arith, ◌==◌,
  if◌then◌else◌,
}
use garant.Base.Table.{get, put, sum_by, All, sum_by-put, le-sum_by, All-get, All-put}
use garant.Money.{quantize_money}
use garant.Money.Quantize.{IsAligned, quantize_money_aligned}
use garant.Wallet.{Wallet, locked_of}
use garant.Schema.{Db, Deal, Currency, get_currency, get_deal, put_deal, with_funds, deal_key}
use garant.Deals.Status.{holds_escrow}
use garant.Solvency.{escrow_share, IsBacked, DealIsSound, IsSound}

-- `d'` is `d` with its status and stamps rewritten.
abbrev pub SameTerms : Deal → Deal → Type 0
SameTerms d d' =
    (d'.id ≡ d.id)
    × (d'.buyer_id ≡ d.buyer_id)
    × (d'.seller_id ≡ d.seller_id)
    × (d'.currency_id ≡ d.currency_id)
    × (d'.amount ≡ d.amount)

module _ (db : Db) (d d' : Deal) (same : SameTerms d d') (found : get_deal d.id db ≡ some d) where
  pub share-put :
      (u c : ℕ)
      → sum_by (escrow_share u c) (put deal_key d' db.deals) + escrow_share u c d
        ≡ sum_by (escrow_share u c) db.deals + escrow_share u c d'
  share-put u c =
      sum_by-put deal_key (escrow_share u c) d' d db.deals
        (subst (λ (k : ℕ). get deal_key k db.deals ≡ some d) (sym same.0) found)

  -- What the buyer of a running deal has locked covers the deal.
  pub escrow_covered :
      IsBacked db
      → holds_escrow d.status ≡ true
      → d.amount ≤ locked_of d.buyer_id d.currency_id db.funds
  escrow_covered b h = ground (
    arith,
    b d.buyer_id d.currency_id,
    le-sum_by deal_key (escrow_share d.buyer_id d.currency_id) d.id d db.deals found,
  )

  -- A step that keeps the escrow and touches no row.
  pub kept-IsBacked :
      holds_escrow d.status ≡ holds_escrow d'.status → IsBacked db → IsBacked (put_deal d' db)
  kept-IsBacked h b u c = ground (arith, b u c, share-put u c)

  -- A step that ends the escrow and unlocks the principal.
  pub unlocked-IsBacked :
      (w : Wallet)
      → holds_escrow d.status ≡ true
      → holds_escrow d'.status ≡ false
      → ((u c : ℕ)
          → locked_of u c w ≡ (
              if d.buyer_id == u && d.currency_id == c
              then locked_of d.buyer_id d.currency_id db.funds - d.amount
              else locked_of u c db.funds))
      → IsBacked db
      → IsBacked (put_deal d' (with_funds w db))
  unlocked-IsBacked w h h' law b u c =
      ground (arith, law u c, b u c, share-put u c, escrow_covered b h)

  pub deal-IsSound : IsSound db → DealIsSound db.next_deal_id db.currencies d
  deal-IsSound s =
      All-get deal_key (DealIsSound db.next_deal_id db.currencies) d.id d db.deals s.deals_sound
        found

  pub put-deals_sound :
      IsSound db → All (DealIsSound db.next_deal_id db.currencies) (put deal_key d' db.deals)
  put-deals_sound s =
      All-put deal_key (DealIsSound db.next_deal_id db.currencies) d' db.deals
        (
          subst₂ (λ (b c : ℕ). b ≢ c) (sym same.1) (sym same.2) (deal-IsSound s).0,
          rw same.0 (deal-IsSound s).1,
          λ cur e. subst (IsAligned cur.decimals) (sym same.4) (
              (deal-IsSound s).2 cur (
                subst (λ (k : ℕ). get (λ (x : Currency). x.id) k db.currencies ≡ some cur) same.3
                  e)),
        )
        s.deals_sound

  -- The amount that the code works with is the amount that is stored.
  pub amount_exact :
      (cur : Currency)
      → get_currency d.currency_id db ≡ some cur
      → IsSound db
      → quantize_money d.amount cur.decimals ≡ d.amount
  amount_exact cur e s = quantize_money_aligned d.amount cur.decimals ((deal-IsSound s).2 cur e)
