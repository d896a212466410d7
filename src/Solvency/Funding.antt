-- ===== src/Solvency/Funding.antt =====
-- What funding a deal does to the invariant: a new deal, and a deal whose escrow changes with the
-- buyer's row.
use garant.Base.{ℕ, ◌+◌, ◌<◌, ◌≡◌, ◌≢◌, none, some, arith}
use garant.Base.Table.{get, sum_by-put_new, All-put, All-map, get_fresh, All-first_row-select}
use garant.Base.Keyed.{Distinct-put}
use garant.Base.Text.{Text}
use garant.Money.Quantize.{IsAligned}
use garant.Wallet.{Wallet, locked_of}
use garant.Wallet.Ledger.{IsReconciled}
use garant.Schema.{
  Db, Deal, Deposit, Currency, get_currency, get_deal, put_deal, put_deposit, with_funds, deal_key,
}
use garant.Deals.Create.{insert_deal}
use garant.Deposits.Invoice.{get_currency_by_code}
use garant.Solvency.{escrow_share, DealIsSound, IsSound}
use garant.Solvency.Steps.{SameTerms, share-put, put-deals_sound}

-- A currency found by its code is the one that its id finds.
pub get_currency_by_code-keyed :
    (wanted : Text) (db : Db) (cur : Currency)
    → IsSound db
    → get_currency_by_code wanted db ≡ some cur
    → get_currency cur.id db ≡ some cur
unfolding get_currency_by_code
get_currency_by_code-keyed wanted db cur s e =
    All-first_row-select (λ (c : Currency). get_currency c.id db ≡ some c) _ cur db.currencies
      s.currencies_keyed e

pub with_funds-IsSound :
    (w : Wallet) (db : Db)
    → ((u c : ℕ) → locked_of u c w ≡ locked_of u c db.funds)
    → IsReconciled w
    → IsSound db
    → IsSound (with_funds w db)
with_funds-IsSound w db law r s = record {
  backed = λ u c. rw (law u c) (s.backed u c);
  reconciled = r;
  deals_sound = s.deals_sound;
  withdrawals_sound = s.withdrawals_sound;
  withdrawals_keyed = s.withdrawals_keyed;
  currencies_keyed = s.currencies_keyed;
  deals_keyed = s.deals_keyed;
}

pub put_deposit-IsSound : (d : Deposit) (db : Db) → IsSound db → IsSound (put_deposit d db)
put_deposit-IsSound d db s = record {
  backed = s.backed;
  reconciled = s.reconciled;
  deals_sound = s.deals_sound;
  withdrawals_sound = s.withdrawals_sound;
  withdrawals_keyed = s.withdrawals_keyed;
  currencies_keyed = s.currencies_keyed;
  deals_keyed = s.deals_keyed;
}

pub next_deposit-IsSound :
    (n : ℕ) (db : Db) → IsSound db → IsSound (record db { next_deposit_id = n })
next_deposit-IsSound n db s = record {
  backed = s.backed;
  reconciled = s.reconciled;
  deals_sound = s.deals_sound;
  withdrawals_sound = s.withdrawals_sound;
  withdrawals_keyed = s.withdrawals_keyed;
  currencies_keyed = s.currencies_keyed;
  deals_keyed = s.deals_keyed;
}

-- A step of a stored deal together with a change of its buyer's row.
pub moved-IsSound :
    (db : Db) (d d' : Deal) (w : Wallet)
    → SameTerms d d'
    → get_deal d.id db ≡ some d
    → ((u c : ℕ)
        → locked_of u c w + escrow_share u c d ≡ locked_of u c db.funds + escrow_share u c d')
    → IsReconciled w
    → IsSound db
    → IsSound (put_deal d' (with_funds w db))
moved-IsSound db d d' w same found law r s = record {
  backed = λ u c. omega (arith, law u c, s.backed u c, share-put db d d' same found u c);
  reconciled = r;
  deals_sound = put-deals_sound db d d' same found s;
  withdrawals_sound = s.withdrawals_sound;
  withdrawals_keyed = s.withdrawals_keyed;
  currencies_keyed = s.currencies_keyed;
  deals_keyed = Distinct-put deal_key d' db.deals s.deals_keyed;
}

module _ (db : Db) (d : Deal) (w : Wallet) (new : d.id ≡ db.next_deal_id) (s : IsSound db) where
  pub fresh : get deal_key d.id db.deals ≡ none
  fresh = rw new (
      get_fresh deal_key db.next_deal_id db.deals (
        All-map (DealIsSound db.next_deal_id db.currencies) (λ (x : Deal). x.id < db.next_deal_id)
          db.deals (λ a h. h.1) s.deals_sound))

  -- A new deal together with what it locks.
  pub inserted-IsSound :
      d.buyer_id ≢ d.seller_id
      → ((cur : Currency)
          → get_currency d.currency_id db ≡ some cur
          → IsAligned cur.decimals d.amount)
      → ((u c : ℕ) → locked_of u c w ≡ locked_of u c db.funds + escrow_share u c d)
      → IsReconciled w
      → IsSound (insert_deal d (with_funds w db))
  inserted-IsSound parties aligned law r = record {
    backed = λ u c.
        omega (
          arith,
          law u c,
          s.backed u c,
          sum_by-put_new deal_key (escrow_share u c) d db.deals fresh,
        );
    reconciled = r;
    deals_sound =
        All-put deal_key (DealIsSound (db.next_deal_id + 1) db.currencies) d db.deals
          (parties, omega (arith, new), aligned)
          (All-map (DealIsSound db.next_deal_id db.currencies)
            (DealIsSound (db.next_deal_id + 1) db.currencies) db.deals
            (λ a h. (h.0, omega (arith, h.1), h.2)) s.deals_sound);
    withdrawals_sound = s.withdrawals_sound;
    withdrawals_keyed = s.withdrawals_keyed;
    currencies_keyed = s.currencies_keyed;
    deals_keyed = Distinct-put deal_key d db.deals s.deals_keyed;
  }
