-- ===== src/Solvency/AdminPays.antt =====
-- The settlements of backend/app/routers/admin/deals.py as a whole: the invariant, and what the
-- parties get.
use garant.Base.{
  ℕ, ◌+◌, ◌-◌, ◌≤◌, ◌≡◌, refl, sym, subst, true, false, Option, none, some, arith, ok,
}
use garant.Money.Quantize.{commission_of-le, quantize_money-IsAligned}
use garant.Wallet.{Wallet, amount_of, locked_of}
use garant.Wallet.Ledger.{IsReconciled}
use garant.Wallet.Total.{total}
use garant.Schema.{
  Db, Deal, User, Currency, Winner, DealStatus, resolved_for_buyer, resolved_for_seller, get_deal,
  get_currency, put_deal, with_funds, notify, deals, about_deal, buyer, seller,
}
use garant.Deals.Status.{holds_escrow}
use garant.Admin.Approvals.{Desk, Approval}
use garant.Admin.Settlement.{
  release_locked_to_seller, refund_locked_to_buyer, split_locked, buyer_share_of,
}
use garant.Admin.Settlement.Effect.{
  Unlocks, Shares, pot, share, release-Unlocks, release-IsReconciled, release-Shares,
  refund-Unlocks, refund-IsReconciled, refund-Shares, split-Unlocks, split-IsReconciled,
  split-Shares,
}
use garant.Admin.Actions.{
  settled_by, finish_settlement, force_release, force_refund, split_deal, split_winner,
  split_status,
}
use garant.Admin.Actions.Outcomes.{mark-db}
use garant.Admin.Actions.Done.{force_release-done, force_refund-done, split_deal-done}
use garant.Solvency.{IsSound}
use garant.Solvency.Closing.{notify-IsSound, same_terms}
use garant.Solvency.AdminSteps.{
  active-holds, stored_deal, exact, keyed, pot_covered, two_parties, settled-IsSound,
}

finish-db :
    (now : ℕ) (admin : User) (a : Option Approval) (winner : Winner) (status : DealStatus)
    (funds : Wallet) (d : Deal) (first second : ℕ) (desk : Desk)
    → (finish_settlement now admin a winner status funds d first second desk).db
      ≡ notify second deals (about_deal d.id) (
          notify first deals
            (about_deal d.id)
            (put_deal (settled_by now admin winner status d) (with_funds funds desk.db)))
unfolding finish_settlement
finish-db now admin a winner status funds d first second desk = mark-db now a admin _

-- The buyer has `x` and the seller `y` of the deal's amount on top, the buyer has the amount
-- locked no longer, and every currency has the funds that it had.
abbrev pub Divides : ℕ → ℕ → Deal → Db → Db → Type 0
Divides x y d db db' =
    (x + y ≡ d.amount)
    × (amount_of d.buyer_id d.currency_id db'.funds
        ≡ amount_of d.buyer_id d.currency_id db.funds + x)
    × (amount_of d.seller_id d.currency_id db'.funds
        ≡ amount_of d.seller_id d.currency_id db.funds + y)
    × (locked_of d.buyer_id d.currency_id db'.funds + d.amount
        ≡ locked_of d.buyer_id d.currency_id db.funds)
    × ((k : ℕ) → total k db'.funds ≡ total k db.funds)

split_over : (percent : ℕ) → holds_escrow (split_status percent) ≡ false
split_over percent = ground arith

module _ (now : ℕ) (admin : User) (a : Option Approval) (d : Deal) (cur : Currency) (desk : Desk)
    (s : IsSound desk.db) (found : get_deal d.id desk.db ≡ some d)
    (paid_in : get_currency d.currency_id desk.db ≡ some cur)
    (running : holds_escrow d.status ≡ true) (winner : Winner) (status : DealStatus)
    (over : holds_escrow status ≡ false) (w : Wallet) (first second : ℕ)
    (law : Unlocks d cur desk.db.funds w) where
  abbrev finished : Desk
  finished = finish_settlement now admin a winner status w d first second desk

  finished-IsSound : IsReconciled w → IsSound finished.db
  unfolding settled_by
  finished-IsSound r =
      subst IsSound (sym (finish-db now admin a winner status w d first second desk)) (
        notify-IsSound _ _ _ _ (
          notify-IsSound _ _ _ _ (
            settled-IsSound d cur desk.db s found paid_in running
              (settled_by now admin winner status d) w (same_terms d) over law r)))

  finished-Divides :
      (x y : ℕ)
      → x + y ≡ pot d cur desk.db.funds
      → Shares d cur desk.db.funds x y w
      → Divides x y d desk.db finished.db
  finished-Divides x y whole (got_x, got_y, kept) =
      subst (Divides x y d desk.db)
        (sym (finish-db now admin a winner status w d first second desk))
        (
          ground (arith, whole, exact d cur desk.db s found paid_in running),
          subst (λ (c : ℕ). amount_of d.buyer_id c w ≡ amount_of d.buyer_id c desk.db.funds + x)
              same got_x,
          subst (λ (c : ℕ). amount_of d.seller_id c w ≡ amount_of d.seller_id c desk.db.funds + y)
              same got_y,
          ground (
            arith,
            law d.buyer_id d.currency_id,
            same,
            exact d cur desk.db s found paid_in running,
            pot_covered d cur desk.db s found paid_in running,
          ),
          kept,
        )
    where
      same : cur.id ≡ d.currency_id
      same = keyed d cur desk.db s found paid_in running

module _ (threshold now : ℕ) (admin : User) (approval_id : Option ℕ) (deal_id : ℕ)
    (desk desk' : Desk) (d : Deal) (s : IsSound desk.db)
    (stored : get_deal deal_id desk.db ≡ some d) where
  -- The settlement is sound and divides the amount as `x` and `y`.
  abbrev pub SettlesAs : Deal → ℕ → ℕ → Type 0
  SettlesAs e x y = IsSound desk'.db × Divides x y e desk.db desk'.db

  -- In a sound database, where force_release is done on a stored deal, the database stays
  -- sound, the seller has the whole amount on top, the buyer has it locked no longer, and the
  -- total of every currency is unchanged.
  pub force_release-settles :
      force_release threshold now admin approval_id deal_id desk ≡ ok (none, desk')
      → SettlesAs d 0 d.amount
  force_release-settles h =
      let (e, cur, a, there, active, paid_in, _, last) =
        force_release-done threshold now admin approval_id deal_id desk desk' h in
      let it : e ≡ d = ground arith in
      let found = stored_deal deal_id e desk.db there in
      let running = active-holds e.status active in
      let apart = two_parties e cur desk.db s found paid_in running in
      let w : Wallet = release_locked_to_seller e cur desk.db.funds in
      let law = release-Unlocks e cur desk.db.funds apart in
      let sound =
        finished-IsSound now admin a e cur desk s found paid_in running seller resolved_for_seller
          refl w e.seller_id e.buyer_id law
          (release-IsReconciled e cur desk.db.funds apart s.reconciled) in
      let divides =
        finished-Divides now admin a e cur desk s found paid_in running seller resolved_for_seller
          refl w e.seller_id e.buyer_id law 0 (pot e cur desk.db.funds) (omega arith)
          (release-Shares e cur desk.db.funds apart
            (pot_covered e cur desk.db s found paid_in running)) in
      subst (λ (z : Deal). SettlesAs z 0 z.amount) it
        (subst (λ (z : Desk). IsSound z.db × Divides 0 e.amount e desk.db z.db) (sym last)
          (
            sound,
            subst
                (λ (n : ℕ).
                  Divides 0 n e desk.db
                    (finish_settlement now admin a seller resolved_for_seller w e e.seller_id
                      e.buyer_id desk).db)
                (exact e cur desk.db s found paid_in running) divides,
          ))

  -- In a sound database, where force_refund is done on a stored deal, the database stays
  -- sound, the buyer has the whole amount back, and the total of every currency is unchanged.
  pub force_refund-settles :
      force_refund threshold now admin approval_id deal_id desk ≡ ok (none, desk')
      → SettlesAs d d.amount 0
  force_refund-settles h =
      let (e, cur, a, there, active, paid_in, _, last) =
        force_refund-done threshold now admin approval_id deal_id desk desk' h in
      let it : e ≡ d = ground arith in
      let found = stored_deal deal_id e desk.db there in
      let running = active-holds e.status active in
      let apart = two_parties e cur desk.db s found paid_in running in
      let w : Wallet = refund_locked_to_buyer e cur desk.db.funds in
      let law = refund-Unlocks e cur desk.db.funds in
      let sound =
        finished-IsSound now admin a e cur desk s found paid_in running buyer resolved_for_buyer
          refl w e.buyer_id e.seller_id law
          (refund-IsReconciled e cur desk.db.funds s.reconciled) in
      let divides =
        finished-Divides now admin a e cur desk s found paid_in running buyer resolved_for_buyer
          refl w e.buyer_id e.seller_id law (pot e cur desk.db.funds) 0 (omega arith)
          (refund-Shares e cur desk.db.funds apart
            (pot_covered e cur desk.db s found paid_in running)) in
      subst (λ (z : Deal). SettlesAs z z.amount 0) it
        (subst (λ (z : Desk). IsSound z.db × Divides e.amount 0 e desk.db z.db) (sym last)
          (
            sound,
            subst
                (λ (n : ℕ).
                  Divides n 0 e desk.db
                    (finish_settlement now admin a buyer resolved_for_buyer w e e.buyer_id
                      e.seller_id desk).db)
                (exact e cur desk.db s found paid_in running) divides,
          ))

  -- In a sound database, where split_deal is done with at most 100 percent for the buyer, the
  -- database stays sound, the buyer gets the rounded share and the seller the rest of the
  -- whole amount, the buyer has it locked no longer, and the total of every currency is
  -- unchanged.
  pub split_deal-settles :
      (percent : ℕ)
      → percent ≤ 10000
      → split_deal threshold now admin percent approval_id deal_id desk ≡ ok (none, desk')
      → (cur : Currency) × (get_currency d.currency_id desk.db ≡ some cur)
        × SettlesAs d
            (buyer_share_of d.amount percent cur)
            (d.amount - buyer_share_of d.amount percent cur)
  split_deal-settles percent legal h =
      let (e, cur, a, there, active, paid_in, _, last) =
        split_deal-done threshold now admin approval_id deal_id desk desk' percent h in
      let it : e ≡ d = ground arith in
      let found = stored_deal deal_id e desk.db there in
      let running = active-holds e.status active in
      let apart = two_parties e cur desk.db s found paid_in running in
      let w : Wallet = split_locked percent e cur desk.db.funds in
      let law = split-Unlocks e cur desk.db.funds apart percent in
      let within : share e cur desk.db.funds apart percent ≤ pot e cur desk.db.funds =
        commission_of-le (pot e cur desk.db.funds) percent cur.decimals
          (quantize_money-IsAligned e.amount cur.decimals) legal in
      let sound =
        finished-IsSound now admin a e cur desk s found paid_in running (split_winner percent)
          (split_status percent) (split_over percent) w e.buyer_id e.seller_id law
          (split-IsReconciled e cur desk.db.funds apart percent s.reconciled) in
      let divides =
        finished-Divides now admin a e cur desk s found paid_in running (split_winner percent)
          (split_status percent) (split_over percent) w e.buyer_id e.seller_id law
          (share e cur desk.db.funds apart percent)
          (pot e cur desk.db.funds - share e cur desk.db.funds apart percent)
          (omega (arith, within))
          (split-Shares e cur desk.db.funds apart percent within
            (pot_covered e cur desk.db s found paid_in running)) in
      (
        cur,
        subst (λ (z : Deal). get_currency z.currency_id desk.db ≡ some cur) it paid_in,
        subst
            (λ (z : Deal).
              SettlesAs z (buyer_share_of z.amount percent cur)
                (z.amount - buyer_share_of z.amount percent cur))
            it
            (subst
              (λ (z : Desk).
                IsSound z.db
                × Divides (buyer_share_of e.amount percent cur)
                    (e.amount - buyer_share_of e.amount percent cur) e desk.db z.db)
              (sym last)
              (
                sound,
                subst
                    (λ (n : ℕ).
                      Divides (buyer_share_of n percent cur) (n - buyer_share_of n percent cur) e
                        desk.db
                        (finish_settlement now admin a (split_winner percent) (split_status percent)
                          w e e.buyer_id e.seller_id desk).db)
                    (exact e cur desk.db s found paid_in running) divides,
              )),
      )
