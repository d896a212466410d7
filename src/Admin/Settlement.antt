-- ===== src/Admin/Settlement.antt =====
-- The three ways in which an admin ends an escrow: `_release_locked_to_seller`,
-- `_refund_locked_to_buyer` and `_split_locked` of backend/app/routers/admin/deals.py.
pub mod Effect
use garant.Base.{ℕ, ◌+◌, ◌-◌, some}
use garant.Money.{quantize_money, commission_of}
use garant.Wallet.{
  Wallet, update_balance, admin_force_release_debit, admin_force_release_credit, admin_force_refund,
  admin_split_buyer, admin_split_seller, from_deal,
}
use garant.Wallet.Pair.{settle_pair}
use garant.Schema.{Deal, Currency}

unfoldable pub release_locked_to_seller : Deal → Currency → Wallet → Wallet
release_locked_to_seller deal currency w =
    let locked = quantize_money deal.amount currency.decimals in
    let payout = locked in
    settle_pair deal.buyer_id deal.seller_id currency.id (λ a l. (a, l - locked))
      (λ a l. (a + payout, l)) admin_force_release_debit admin_force_release_credit
      (from_deal (some deal.id)) w

unfoldable pub refund_locked_to_buyer : Deal → Currency → Wallet → Wallet
refund_locked_to_buyer deal currency w =
    let locked = quantize_money deal.amount currency.decimals in
    let refunded = locked in
    update_balance deal.buyer_id currency.id (λ a l. (a + refunded, l - locked)) admin_force_refund
      (from_deal (some deal.id)) w

-- `quantize_money(amt * buyer_percent / 100)`; the percent is a number of hundredths.
abbrev pub buyer_share_of : ℕ → ℕ → Currency → ℕ
buyer_share_of amt buyer_percent currency = commission_of amt buyer_percent currency.decimals

unfoldable pub split_locked : ℕ → Deal → Currency → Wallet → Wallet
split_locked buyer_percent deal currency w =
    let amt = quantize_money deal.amount currency.decimals in
    let buyer_share = buyer_share_of amt buyer_percent currency in
    let seller_share = amt - buyer_share in
    settle_pair deal.buyer_id deal.seller_id currency.id (λ a l. (a + buyer_share, l - amt))
      (λ a l. (a + seller_share, l)) admin_split_buyer admin_split_seller (from_deal (some deal.id))
      w
