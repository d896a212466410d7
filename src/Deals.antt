-- ===== src/Deals.antt =====
-- backend/app/services_deals.py: the life of a deal and its escrow.
pub mod Status
pub mod Escrow
pub mod Lifecycle
pub mod Arbitration
pub mod Create
pub mod Topup
pub mod Sweep
