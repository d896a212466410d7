-- ===== src/Lib.antt =====
-- The escrow core of the Garant backend: wallets, deposits, withdrawals and deals.
--
-- The program. Buyers and sellers of a Telegram marketplace hold balances in several currencies.
-- A deal locks its principal in the buyer's row and ends by a refund to the buyer or a payment to
-- the seller. Balances are filled by invoices of two payment providers, CryptoBot and Crystalpay,
-- whose webhooks and polls credit the deposits. A deal that the balance does not cover waits for
-- such an invoice (`pending_topup`). Every change of a row is recorded in a ledger.
--
-- The files:
--   * Base: names, Boolean tests, results of fallible code, tables, integers and text.
--   * Money: backend/app/money.py, `_commission` and `_resolve_commission_rate`.
--   * Wallet: balance rows (`lock_user_balance`) and the ledger (backend/app/services_ledger.py).
--     Wallet/Ledger is the reconciliation, Wallet/Total the funds of a currency over all rows.
--   * Schema: the tables of backend/app/models.py as one state `Db`, and the errors.
--   * Deposits/Invoice, Credit, Webhook: deposits of backend/app/services_wallet.py and the handlers
--     of backend/app/services_payments.py.
--   * Deals/Status, Escrow, Create, Topup, Lifecycle, Arbitration, Sweep:
--     backend/app/services_deals.py, one function for each function there, under its name without
--     a leading underscore. `complete_deal_topup_payment` is cut into its branches, `settle_…`;
--     a sweep is its SELECT and a function for one turn of its loop.
--   * Withdrawals/Address, Amount, Request, Transfer, Stale: `create_withdrawal` in its phases, and
--     `sweep_stale_withdrawals`, of backend/app/services_wallet.py; Withdrawals/Decide is
--     `decide_withdrawal` of backend/app/routers/admin/withdrawals.py.
--   * Admin/Approvals, Settlement, Actions: backend/app/routers/admin/deals.py. The state there is
--     `Desk`: the database with the requests for approval and the dollar rates. Wallet/Pair is the
--     settlement of two rows that the releases and the split share.
--   * Solvency: the invariant that holds the wallet, the deals and the withdrawals together, one
--     file for what each group of operations does to it, and Runs, which puts the operations into
--     one step relation.
--   * Machine: the edges between the statuses of a deal and of a withdrawal, and what each operation
--     does along them.
--   * RateLimit: the limiter in memory of backend/app/rate_limit.py, on the bucket of one scope and
--     key. It meets the rest of the program only in that a refused request does not reach it.
--   * Tests: a small database, runs on it, and the results applied to them.
--
-- State and errors. A service function takes the database and returns the one that it commits, or
-- the exception that it raises, after which the session rolls back. Functions that two transactions
-- could run at once take row locks, so the model runs them one after the other; a deal is passed in
-- as the row that the lock read, and theorems about one say so (`get_deal d.id db ≡ some d`).
-- `settle_…`, the sweeps, the webhooks, the decisions and the admin's actions read their rows
-- themselves. Where the code commits, calls CryptoBot and goes on, the other transactions of that
-- time are a function `meanwhile` of the database, or a run of the step relation. Where a session
-- that holds a row reads it again without `populate_existing`, the model tests the status that the
-- session holds: in the third phase of an approval and in the stale sweep. Solvency/Races and
-- Machine/StaleMoves are about what follows. The step relation supposes that the refund of a failed
-- transfer and the third phase of an approval find the row as they left it, and it has neither the
-- stale sweep, which writes no ledger entry, nor the admin's settlements.
--
-- Numbers. Money is a natural number of units of 10 ^ -8, the last place of the Numeric(28, 8)
-- columns; `max(0, x - y)` is subtraction that stops at 0. A currency has at most eight decimals;
-- above eight, the step is one unit. The precision of the decimal context is not modelled.
-- Percentages are hundredths of a percent. Timestamps and windows are numbers of seconds. The
-- requested amount of a deal is a decimal fraction of any length, or infinite, or not a number. The
-- requested amount of a withdrawal (Withdrawals/Amount) is a positive decimal fraction of any length,
-- which the code does not quantise. Solvency/Fractions is about half a unit; the other theorems about
-- requests take a whole number of units, for which Withdrawals/Transfer/Whole reduces the functions
-- to the same on units (`request_units` and so on). An amount that a provider reports is a number of
-- units, or missing. The limiter counts in nanoseconds. There is no fuel: every loop runs over the
-- rows of a list.
--
-- Parameters. What a provider answers to the request for an invoice (`InvoiceReply`) and to a poll
-- (`PollReply`), to a transfer (`TransferReply`) and to the question for transfers
-- (`TransfersReply`), what the child process that matches a regular expression reports
-- (`MatchReply`), the clock, the configuration and the payloads of the webhooks are arguments, and
-- no theorem supposes anything of them, but that the monotonic clock of the limiter does not run
-- back. How a Numeric(28, 8) column rounds is a parameter, `Column`, which stores a whole number of
-- units as it is (`IsExact`). Ids of invoices are numbers.
--
-- Left out. Free text, links and the delivery of notifications after the commit (the inserted rows
-- are kept, without their text). `purpose` and `provider` are closed types, so the branches for an
-- unknown string have no counterpart, and so have the guards on columns that are NOT NULL.
-- So are admin notes and the audit log, and the messages and media of a deleted deal. The product
-- of an amount and a dollar rate is taken as exact. The dollar threshold is a natural number of units
-- of 10 ^ -16. The providers' clients, the HTTP layer, the bot, the rest of the administration, PINs,
-- and the frontend are not modelled, nor are the limiter's dictionary of buckets and its Redis script.
pub mod Base
pub mod Money
pub mod Wallet
pub mod Schema
pub mod Deposits
pub mod Deals
pub mod Withdrawals
pub mod RateLimit
pub mod Admin
pub mod Solvency
pub mod Machine
pub mod Tests
