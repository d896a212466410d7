-- ===== src/Deposits.antt =====
-- backend/app/services_wallet.py: deposit invoices, their payment and their expiry.
pub mod Invoice
pub mod Credit
pub mod Webhook
