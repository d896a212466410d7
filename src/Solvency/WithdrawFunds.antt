-- ===== src/Solvency/WithdrawFunds.antt =====
-- What a decision does to the funds of a withdrawal's owner
-- (backend/app/routers/admin/withdrawals.py).
use garant.Base.{
  ℕ, ◌+◌, ◌-◌, ◌≤◌, ◌≡◌, refl, sym, ◌∙◌, ap, subst, true, some, none, arith, ◌==◌, if◌then◌else◌,
}
use garant.Base.Table.{get-put}
use garant.Wallet.{
  withdrawal_lock, find_balance, amount_of, locked_of, withdrawal_sent, withdrawal_reject,
  from_withdrawal,
}
use garant.Wallet.Total.{total}
use garant.Schema.{Db, Withdrawal, WithdrawStatus, get_withdrawal, withdrawal_key}
use garant.Deposits.Invoice.{Config}
use garant.Withdrawals.Effect.{
  locked_of-update_existing, amount_of-update_existing, update_existing-total,
}
use garant.Withdrawals.Transfer.{TransferReply, decided}
use garant.Withdrawals.Decide.{
  reject, mark_sent, done, is_approved, send, give_back, decide, decide_withdrawal,
}
use garant.Base.{Option, ok}
use garant.Base.Text.{Text}
use garant.Schema.{User, Currency}
use garant.Wallet.Rows.{amount_of-update_balance, locked_of-update_balance}
use garant.Withdrawals.Address.{MatchReply}
use garant.Withdrawals.Amount.{Column, whole, IsExact}
use garant.Withdrawals.Transfer.Whole.{request_withdrawal-whole}
use garant.Withdrawals.Request.{request_withdrawal, new_withdrawal}
use garant.Withdrawals.Request.Outcomes.{request_units-ok, locked_for}
use garant.Solvency.WithdrawSteps.{request_units-IsSound}
use garant.Solvency.{IsSound, is_open}
use garant.Solvency.Claims.{withdrawal_covered}
use garant.Solvency.WithdrawSteps.{stored_row}

-- The amount has left the owner's locked part, and the currency's total is lower by it.
abbrev pub Leaves : Withdrawal → Db → Db → Type 0
Leaves w db db' =
    (amount_of w.user_id w.currency_id db'.funds ≡ amount_of w.user_id w.currency_id db.funds)
    × (locked_of w.user_id w.currency_id db'.funds + w.amount
        ≡ locked_of w.user_id w.currency_id db.funds)
    × ((k : ℕ)
        → total k db'.funds + (if w.currency_id == k then w.amount else 0) ≡ total k db.funds)

-- The amount is back in the owner's spendable part, and every total is what it was.
abbrev pub Returns : Withdrawal → Db → Db → Type 0
Returns w db db' =
    (amount_of w.user_id w.currency_id db'.funds
      ≡ amount_of w.user_id w.currency_id db.funds + w.amount)
    × (locked_of w.user_id w.currency_id db'.funds + w.amount
        ≡ locked_of w.user_id w.currency_id db.funds)
    × ((k : ℕ) → total k db'.funds ≡ total k db.funds)

module _ (now : ℕ) (w : Withdrawal) (db : Db) (s : IsSound db)
    (found : get_withdrawal w.id db ≡ some w) (running : is_open w.status ≡ true) where
  covered : w.amount ≤ locked_of w.user_id w.currency_id db.funds
  covered = withdrawal_covered db w found s.backed running

  -- A row that covers a positive amount is there.
  missing-nothing : find_balance w.user_id w.currency_id db.funds.balances ≡ none → w.amount ≡ 0
  unfolding locked_of
  missing-nothing h = ground (arith, covered)

  pub send-Leaves : Leaves w db (send now w db)
  unfolding send
  send-Leaves = (
    ground (
      arith,
      amount_of-update_existing w.user_id w.currency_id (λ a l. (a, l - w.amount)) withdrawal_sent
          (from_withdrawal w.id) db.funds w.user_id w.currency_id (λ _. refl),
    ),
    ground (
      arith,
      covered,
      locked_of-update_existing w.user_id w.currency_id (λ a l. (a, l - w.amount)) withdrawal_sent
          (from_withdrawal w.id) db.funds w.user_id w.currency_id (omega arith),
    ),
    λ k. ground (
      arith,
      covered,
      update_existing-total w.user_id w.currency_id (λ a l. (a, l - w.amount)) withdrawal_sent
          (from_withdrawal w.id) db.funds k (λ _. omega arith),
    ),
  )

  pub give_back-Returns : Returns w db (give_back now w db)
  unfolding give_back
  give_back-Returns = (
    ground (
      arith,
      amount_of-update_existing w.user_id w.currency_id (λ a l. (a + w.amount, l - w.amount))
          withdrawal_reject (from_withdrawal w.id) db.funds w.user_id w.currency_id
          (λ h. omega (arith, missing-nothing h)),
    ),
    ground (
      arith,
      covered,
      locked_of-update_existing w.user_id w.currency_id (λ a l. (a + w.amount, l - w.amount))
          withdrawal_reject (from_withdrawal w.id) db.funds w.user_id w.currency_id (omega arith),
    ),
    λ k. ground (
      arith,
      covered,
      update_existing-total w.user_id w.currency_id (λ a l. (a + w.amount, l - w.amount))
          withdrawal_reject (from_withdrawal w.id) db.funds k
          (λ h. omega (arith, missing-nothing h)),
    ),
  )

-- The status with which the row of `w` is stored.
abbrev pub EndsAs : WithdrawStatus → Withdrawal → Db → Type 0
EndsAs st w db = (w' : Withdrawal) × (get_withdrawal w.id db ≡ some w') × (w'.status ≡ st)

module _ (config : Config) (reply : TransferReply) (meanwhile : Db → Db) (now k : ℕ)
    (w : Withdrawal) (db db' : Db) (s : IsSound db) (found : get_withdrawal k db ≡ some w) where
  -- In a sound database, where marking a withdrawal as sent is done, the row was approved, its
  -- amount has left the owner's locked part and the total of its currency and of no other, and
  -- the row ends sent.
  pub mark_sent-Leaves :
      decide_withdrawal mark_sent config reply meanwhile now k db ≡ done db'
      → (w.status ≡ WithdrawStatus.approved) × Leaves w db db' × EndsAs WithdrawStatus.sent w db'
  unfolding decide_withdrawal decide send
  mark_sent-Leaves h =
      let due : is_approved w.status ≡ true = ground arith in
      let last : send now w db ≡ db' = ground arith in
      (
        ground arith,
        subst (Leaves w db) last (send-Leaves now w db s (stored_row k w db found) (ground arith)),
        subst (EndsAs WithdrawStatus.sent w) last (
          decided now WithdrawStatus.sent w,
          ground (
            arith,
            get-put withdrawal_key w.id (decided now WithdrawStatus.sent w) db.withdrawals,
          ),
          refl,
        ),
      )

  -- In a sound database, where a rejection is done, the withdrawal was open, its amount is
  -- back in the owner's spendable part and out of the locked one, the total of every currency
  -- is unchanged, and the row ends rejected.
  pub reject-Returns :
      decide_withdrawal reject config reply meanwhile now k db ≡ done db'
      → (is_open w.status ≡ true) × Returns w db db' × EndsAs WithdrawStatus.rejected w db'
  unfolding decide_withdrawal decide give_back
  reject-Returns h =
      let running : is_open w.status ≡ true = ground arith in
      let last : give_back now w db ≡ db' = ground arith in
      (
        running,
        subst (Returns w db) last (give_back-Returns now w db s (stored_row k w db found) running),
        subst (EndsAs WithdrawStatus.rejected w) last (
          decided now WithdrawStatus.rejected w,
          ground (
            arith,
            get-put withdrawal_key w.id (decided now WithdrawStatus.rejected w) db.withdrawals,
          ),
          refl,
        ),
      )

-- From a sound database, where a withdrawal of a whole number of units, which the columns
-- store as it is, is requested and then rejected, the owner's spendable and locked amounts are
-- as they were.
pub request-reject :
    (column : Column) (exact : IsExact column) (config : Config) (match : MatchReply)
    (asked_at now : ℕ) (user : User) (wanted : Text) (amount : ℕ) (raw : Option Text)
    (reply : TransferReply) (meanwhile : Db → Db) (cur : Currency) (w : Withdrawal)
    (db db1 db2 : Db)
    → IsSound db
    → request_withdrawal column config match asked_at user wanted (whole amount) raw db
      ≡ ok (cur, w, db1)
    → decide_withdrawal reject config reply meanwhile now w.id db1 ≡ done db2
    → (amount_of user.id cur.id db2.funds ≡ amount_of user.id cur.id db.funds)
      × (locked_of user.id cur.id db2.funds ≡ locked_of user.id cur.id db.funds)
unfolding new_withdrawal
request-reject column exact config match asked_at now user wanted amount raw reply meanwhile cur w
      db db1 db2 s requested h =
    let asked =
      sym (request_withdrawal-whole column exact config match asked_at user wanted amount raw db)
      ∙ requested in
    let (_, _, enough, _, _, we, e) =
      request_units-ok config match asked_at user wanted amount raw db cur w db1 asked in
    let s1 : IsSound db1 =
      request_units-IsSound config match asked_at user wanted amount raw db cur w db1 s asked in
    let found : get_withdrawal w.id db1 ≡ some w =
      subst (λ (x : Db). get_withdrawal w.id x ≡ some w) (sym e)
        (ground (arith, get-put withdrawal_key w.id w db.withdrawals)) in
    let (_, (back, unlocked, _), _) =
      reject-Returns config reply meanwhile now w.id w db1 db2 s1 found h in
    let owner : w.user_id ≡ user.id = ap (λ (x : Withdrawal). x.user_id) we in
    let coin : w.currency_id ≡ cur.id = ap (λ (x : Withdrawal). x.currency_id) we in
    let worth : w.amount ≡ amount = ap (λ (x : Withdrawal). x.amount) we in
    let funds1 : db1.funds ≡ locked_for user cur amount db = ap (λ (x : Db). x.funds) e in
    (
      ground (
        arith,
        back,
        enough,
        owner,
        coin,
        worth,
        ap (amount_of user.id cur.id) funds1,
        amount_of-update_balance user.id cur.id (λ a l. (a - amount, l + amount)) withdrawal_lock
            (from_withdrawal db.next_withdrawal_id) db.funds user.id cur.id,
      ),
      ground (
        arith,
        unlocked,
        owner,
        coin,
        worth,
        ap (locked_of user.id cur.id) funds1,
        locked_of-update_balance user.id cur.id (λ a l. (a - amount, l + amount)) withdrawal_lock
            (from_withdrawal db.next_withdrawal_id) db.funds user.id cur.id,
      ),
    )
