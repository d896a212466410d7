-- ===== src/Tests.antt =====
-- Concrete runs of the services, and the results applied to them.
pub mod World
pub mod Money
pub mod Deals
pub mod Ledger
pub mod Topups
pub mod Withdrawals
pub mod Fractions
pub mod Admin
pub mod AdminRisks
pub mod RateLimit
