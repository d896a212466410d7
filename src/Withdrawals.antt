-- ===== src/Withdrawals.antt =====
-- Withdrawals: backend/app/services_wallet.py and backend/app/routers/admin/withdrawals.py.
pub mod Address
pub mod Amount
pub mod Balance
pub mod Effect
pub mod Request
pub mod Transfer
pub mod Decide
pub mod Stale
