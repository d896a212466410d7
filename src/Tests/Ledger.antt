-- ===== src/Tests/Ledger.antt =====
-- The results on the balance rows, their ledger and closed deals at concrete states.
use garant.Base.{ℕ, ◌+◌, ◌≡◌, ◌≢◌, ◌≤◌, refl, ok, arith, if◌then◌else◌, ◌==◌}
use garant.Wallet.{
  Wallet, update_balance, amount_of, locked_of, deposit_wallet_credit, from_deposit,
}
use garant.Wallet.Ledger.{IsReconciled, update_balance-IsReconciled}
use garant.Wallet.Total.{total}
use garant.Schema.{Deal, buyer, completed}
use garant.Deals.Escrow.{release_to}
use garant.Deals.Escrow.Effect.{moved_to_locked}
use garant.Deals.Escrow.Books.{release_to-total}
use garant.Deals.Lifecycle.{
  accept_deal, decline_deal, finish_deal, request_cancel, revoke_cancel, accept_cancel,
}
use garant.Deals.Arbitration.{start_arbitration, resolve_arbitration}
use garant.Deals.Lifecycle.Terminal.{terminal-refused}
use garant.Tests.World.{start, start_wallet, start-IsSound, judge, usdt, dollars}
use garant.Tests.Deals.{no_deal}

update_balance-IsReconciled_example :
    IsReconciled
      (update_balance 2 1 (λ a l. (a + 5, l)) deposit_wallet_credit (from_deposit 3) start_wallet)
update_balance-IsReconciled_example =
    update_balance-IsReconciled 2 1 (λ a l. (a + 5, l)) deposit_wallet_credit (from_deposit 3)
      start_wallet refl start-IsSound.reconciled

one_two : ◌≢◌ {A = ℕ} 1 2
one_two = omega arith

abbrev held : Wallet
held = moved_to_locked 1 1 (dollars 30) start_wallet

held_locked : locked_of 1 1 held ≡ dollars 30
unfolding locked_of garant.Wallet.find_balance update_balance garant.Wallet.record_balance_ledger
    garant.Wallet.lock_user_balance garant.Wallet.put_balance
held_locked = refl

covered : dollars 30 ≤ locked_of 1 1 held
covered = omega (arith, held_locked)

release_to-total_example :
    total 1 (release_to 1 2 1 (dollars 30) (dollars 30) held) + (if 1 == 1 then dollars 30 else 0)
    ≡ total 1 held + (if 1 == 1 then dollars 30 else 0)
release_to-total_example = release_to-total 1 2 1 (dollars 30) (dollars 30) held 1 covered

abbrev closed : Deal
closed = record no_deal { status = completed }

terminal-refused_example :
    (¬ (accept_deal 9 closed 1 start ≡ ok start))
    × (¬ (decline_deal 9 closed 1 start ≡ ok start))
    × (¬ (finish_deal 9 closed 1 start ≡ ok start))
    × (¬ (request_cancel 9 closed 1 start ≡ ok start))
    × (¬ (revoke_cancel closed 1 start ≡ ok start))
    × (¬ (accept_cancel 9 closed 1 start ≡ ok start))
    × (¬ (start_arbitration closed 1 usdt start ≡ ok start))
    × (¬ (resolve_arbitration 9 closed judge buyer start ≡ ok start))
terminal-refused_example = terminal-refused 9 closed 1 start start refl usdt judge buyer
