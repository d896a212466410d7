-- ===== src/Deals/Topup/Covers.antt =====
-- The invoice for a top-up asks for enough (backend/app/services_deals.py).
use garant.Base.{ℕ, ◌+◌, ◌-◌, ◌≡◌, Bool, true, false, arith, if◌then◌else◌}
use garant.Money.{quantize_money}
use garant.Money.Quantize.{
  IsAligned, quantize_money-IsAligned, quantize_money_aligned, add-IsAligned, sub-IsAligned,
  zero-IsAligned,
}
use garant.Schema.{Deal, Currency}
use garant.Deals.Create.{max}
use garant.Deals.Topup.{commission_due, remaining_total}

max_zero : (x : ℕ) → max 0 x ≡ x
max_zero x = ground arith

module _ (deal : Deal) (cur : Currency) (balance : ℕ)
    (aligned : IsAligned cur.decimals balance) where
  amt : ℕ
  amt = quantize_money deal.amount cur.decimals

  due-IsAligned : IsAligned cur.decimals (commission_due deal cur)
  unfolding commission_due
  due-IsAligned = pick deal.commission_paid
    where
      pick :
          (b : Bool)
          → IsAligned cur.decimals
              (if b then 0 else quantize_money deal.commission_amount cur.decimals)
      pick true = zero-IsAligned cur.decimals
      pick false = quantize_money-IsAligned deal.commission_amount cur.decimals

  -- The invoice asks for exactly the gap and the commission that is due.
  pub remaining_total-eq :
      remaining_total deal cur balance
      ≡ (quantize_money deal.amount cur.decimals - balance) + commission_due deal cur
  unfolding remaining_total amt
  remaining_total-eq = rw max_zero (
      quantize_money_aligned (amt - balance + commission_due deal cur) cur.decimals (
        add-IsAligned (amt - balance) (commission_due deal cur) cur.decimals
          (sub-IsAligned amt balance cur.decimals
            (quantize_money-IsAligned deal.amount cur.decimals) aligned)
          due-IsAligned))
