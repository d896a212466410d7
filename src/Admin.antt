-- ===== src/Admin.antt =====
-- What an admin does with deals: backend/app/routers/admin/deals.py.
pub mod Approvals
pub mod Settlement
pub mod Actions
