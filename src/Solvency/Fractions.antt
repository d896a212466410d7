-- ===== src/Solvency/Fractions.antt =====
-- What a request of a fraction of a unit does (backend/app/services_wallet.py): the columns round
-- one by one.
use garant.Base.{
  ℕ, ◌+◌, ◌-◌, ◌*◌, ◌^◌, ◌≤◌, ◌≡◌, refl, sym, ap, subst, ◌∙◌, false, Option, none, some, arith, ok,
  ◌==◌, ◌&&◌, Option-cases, Bool-cases, inl, inr,
}
use garant.Base.Text.{Text}
use garant.Base.Table.{get-put}
use garant.Wallet.{
  Wallet, Event, Source, lock_user_balance, update_balance, record_balance_ledger, amount_of,
  locked_of, find_balance, withdrawal_lock, withdrawal_reject, from_withdrawal,
}
use garant.Wallet.Rows.{lock_user_balance-row, amount_of-update_balance, locked_of-update_balance}
use garant.Schema.{Db, User, Currency, Withdrawal, with_funds, get_withdrawal, withdrawal_key}
use garant.Deposits.Invoice.{Config, get_currency_by_code}
use garant.Withdrawals.Address.{MatchReply, clean_address}
use garant.Withdrawals.Amount.{Amount, Column, plus, minus, exceeds, equals, update_decimal}
use garant.Withdrawals.Effect.{locked_of-update_existing, amount_of-update_existing}
use garant.Withdrawals.Request.{request_withdrawal, new_withdrawal, insert_withdrawal}
use garant.Withdrawals.Transfer.{TransferReply}
use garant.Withdrawals.Decide.{reject, done, give_back, decide, decide_withdrawal}

abbrev pub tenths : ℕ → Amount
tenths d = record { digits = d; places = 1 }

-- `x` units and a half.
abbrev pub and_half : ℕ → Amount
and_half x = tenths (10 * x + 5)

-- The column rounds a half up, as Numeric does for a positive value.
abbrev pub RoundsUp : Column → Type 0
RoundsUp column = (x : ℕ) → column (and_half x) ≡ x + 1

module _ (column : Column) (u c : ℕ) (change : ℕ → ℕ → Amount × Amount) (event : Event)
    (source : Source) (w : Wallet) where
  abbrev rounded : ℕ → ℕ → ℕ × ℕ
  rounded a l = (column (change a l).0, column (change a l).1)

  update_decimal-balances :
      (update_decimal column u c change event source w).balances
      ≡ (update_balance u c rounded event source w).balances
  unfolding update_decimal update_balance record_balance_ledger
  update_decimal-balances =
      let bal = (lock_user_balance u c w).0 in
      let a' = (change bal.amount bal.locked).0 in
      let l' = (change bal.amount bal.locked).1 in
      let moved = Bool-cases (equals a' bal.amount && equals l' bal.locked) in
      let changed = Bool-cases (column a' == bal.amount && column l' == bal.locked) in
      elim moved [
        | inl p ↦ elim changed [ inl q ↦ rw (p, q) refl | inr q ↦ rw (p, q) refl ]
        | inr p ↦ elim changed [ inl q ↦ rw (p, q) refl | inr q ↦ rw (p, q) refl ]
      ]

  pub amount_of-update_decimal :
      (j k : ℕ)
      → amount_of j k (update_decimal column u c change event source w)
        ≡ amount_of j k (update_balance u c rounded event source w)
  unfolding amount_of
  amount_of-update_decimal j k =
      ap (λ bs. elim (find_balance j k bs) [ some b ↦ b.amount | none ↦ 0 ]) update_decimal-balances

  pub locked_of-update_decimal :
      (j k : ℕ)
      → locked_of j k (update_decimal column u c change event source w)
        ≡ locked_of j k (update_balance u c rounded event source w)
  unfolding locked_of
  locked_of-update_decimal j k =
      ap (λ bs. elim (find_balance j k bs) [ some b ↦ b.locked | none ↦ 0 ]) update_decimal-balances

module _ (column : Column) (config : Config) (match : MatchReply) (asked_at : ℕ) (user : User)
    (wanted : Text) (amount : Amount) (raw : Option Text) (db : Db) (cur : Currency)
    (w : Withdrawal) (db' : Db) where
  abbrev locked_decimal : Wallet
  locked_decimal =
      update_decimal column user.id cur.id (λ a l. (minus a amount, plus l amount)) withdrawal_lock
        (from_withdrawal db.next_withdrawal_id) db.funds

  request_withdrawal-ok :
      request_withdrawal column config match asked_at user wanted amount raw db ≡ ok (cur, w, db')
      → (exceeds amount (amount_of user.id cur.id db.funds) ≡ false)
        × (w ≡ new_withdrawal asked_at user cur (column amount) (clean_address raw) db)
        × (db' ≡ insert_withdrawal w (with_funds locked_decimal db))
  unfolding request_withdrawal new_withdrawal
  request_withdrawal-ok h = elim (Option-cases (get_currency_by_code wanted db)) [
    | inl missing ↦ absurd (ground arith)
    | inr (c, found) ↦ ground (arith, lock_user_balance-row user.id c.id db.funds)
  ]

and_half-le : (a x : ℕ) → exceeds (and_half x) a ≡ false → x ≤ a
and_half-le a x fits = let few : 10 * x + 5 ≤ a * 10 ^ 1 = ground arith in omega arith

module _ (column : Column) (up : RoundsUp column) where
  minus-and_half :
      (a x : ℕ) → exceeds (and_half x) a ≡ false → column (minus a (and_half x)) ≡ a - x
  minus-and_half a x fits =
      let few : 10 * x + 5 ≤ a * 10 ^ 1 = ground arith in
      let same : minus a (and_half x) ≡ and_half (a - x - 1) = ap tenths (omega arith) in
      let stored = up (a - x - 1) in
      let less : x + 1 ≤ a = omega arith in ap column same ∙ stored ∙ omega arith

  plus-and_half : (l x : ℕ) → column (plus l (and_half x)) ≡ l + x + 1
  plus-and_half l x =
      let same : plus l (and_half x) ≡ and_half (l + x) = ap tenths (omega arith) in
      ap column same ∙ up (l + x)

missing-nothing : (u c : ℕ) (w : Wallet) → find_balance u c w.balances ≡ none → locked_of u c w ≡ 0
unfolding locked_of
missing-nothing u c w h = rw (locked_of, h) refl

module _ (now : ℕ) (w : Withdrawal) (db : Db)
    (covered : w.amount ≤ locked_of w.user_id w.currency_id db.funds) where
  returned-amount :
      amount_of w.user_id w.currency_id (give_back now w db).funds
      ≡ amount_of w.user_id w.currency_id db.funds + w.amount
  unfolding give_back
  returned-amount = ground (
    arith,
    amount_of-update_existing w.user_id w.currency_id (λ a l. (a + w.amount, l - w.amount))
        withdrawal_reject (from_withdrawal w.id) db.funds w.user_id w.currency_id
        (λ h. omega (arith, covered, missing-nothing w.user_id w.currency_id db.funds h)),
  )

  returned-locked :
      locked_of w.user_id w.currency_id (give_back now w db).funds
      ≡ locked_of w.user_id w.currency_id db.funds - w.amount
  unfolding give_back
  returned-locked = ground (
    arith,
    locked_of-update_existing w.user_id w.currency_id (λ a l. (a + w.amount, l - w.amount))
        withdrawal_reject (from_withdrawal w.id) db.funds w.user_id w.currency_id (omega arith),
  )

rejected :
    (config : Config) (reply : TransferReply) (meanwhile : Db → Db) (now k : ℕ) (w : Withdrawal)
    (db db' : Db)
    → get_withdrawal k db ≡ some w
    → decide_withdrawal reject config reply meanwhile now k db ≡ done db'
    → give_back now w db ≡ db'
unfolding decide_withdrawal decide
rejected config reply meanwhile now k w db db' found h = ground arith

-- Where the columns round a half up, a withdrawal of a whole number of units and a half that
-- is requested and then rejected leaves the owner with one unit more to spend and the same
-- locked amount.
pub request-reject-gains :
    (column : Column) (up : RoundsUp column) (config : Config) (match : MatchReply)
    (asked_at now : ℕ) (user : User) (wanted : Text) (x : ℕ) (raw : Option Text)
    (reply : TransferReply) (meanwhile : Db → Db) (cur : Currency) (w : Withdrawal)
    (db db1 db2 : Db)
    → request_withdrawal column config match asked_at user wanted (and_half x) raw db
      ≡ ok (cur, w, db1)
    → decide_withdrawal reject config reply meanwhile now w.id db1 ≡ done db2
    → (amount_of user.id cur.id db2.funds ≡ amount_of user.id cur.id db.funds + 1)
      × (locked_of user.id cur.id db2.funds ≡ locked_of user.id cur.id db.funds)
unfolding new_withdrawal
request-reject-gains column up config match asked_at now user wanted x raw reply meanwhile cur w db
      db1 db2 asked h =
    let (enough, we, e) =
      request_withdrawal-ok column config match asked_at user wanted (and_half x) raw db cur w db1
        asked in
    let a = amount_of user.id cur.id db.funds in
    let l = locked_of user.id cur.id db.funds in
    let found : get_withdrawal w.id db1 ≡ some w =
      subst (λ (y : Db). get_withdrawal w.id y ≡ some w) (sym e)
        (ground (arith, get-put withdrawal_key w.id w db.withdrawals)) in
    let owner : w.user_id ≡ user.id = ap (λ (y : Withdrawal). y.user_id) we in
    let coin : w.currency_id ≡ cur.id = ap (λ (y : Withdrawal). y.currency_id) we in
    let worth : w.amount ≡ x + 1 = ap (λ (y : Withdrawal). y.amount) we ∙ up x in
    let change : ℕ → ℕ → Amount × Amount = λ n m. (minus n (and_half x), plus m (and_half x)) in
    let src = from_withdrawal db.next_withdrawal_id in
    let left : amount_of user.id cur.id db1.funds ≡ a - x =
      ap (λ (y : Db). amount_of user.id cur.id y.funds) e
      ∙ amount_of-update_decimal column user.id cur.id change withdrawal_lock src db.funds user.id
          cur.id
      ∙ ground (
        arith,
        amount_of-update_balance user.id cur.id
            (λ n m. (column (minus n (and_half x)), column (plus m (and_half x)))) withdrawal_lock
            src db.funds user.id cur.id,
        minus-and_half column up a x enough,
      ) in
    let held : locked_of user.id cur.id db1.funds ≡ l + x + 1 =
      ap (λ (y : Db). locked_of user.id cur.id y.funds) e
      ∙ locked_of-update_decimal column user.id cur.id change withdrawal_lock src db.funds user.id
          cur.id
      ∙ ground (
        arith,
        locked_of-update_balance user.id cur.id
            (λ n m. (column (minus n (and_half x)), column (plus m (and_half x)))) withdrawal_lock
            src db.funds user.id cur.id,
        plus-and_half column up l x,
      ) in
    let covered : w.amount ≤ locked_of w.user_id w.currency_id db1.funds =
      ground (arith, owner, coin, worth, held) in
    let last = rejected config reply meanwhile now w.id w db1 db2 found h in
    let few = and_half-le a x enough in
    (
      ground (
        arith,
        owner,
        coin,
        worth,
        left,
        few,
        returned-amount now w db1 covered,
        ap (λ (y : Db). amount_of user.id cur.id y.funds) last,
      ),
      ground (
        arith,
        owner,
        coin,
        worth,
        held,
        returned-locked now w db1 covered,
        ap (λ (y : Db). locked_of user.id cur.id y.funds) last,
      ),
    )
