-- ===== src/Abuse.antt =====
-- The hosted abuse controls: backend/app/services/abuse.py.
pub mod Budgets
pub mod Caps
pub mod Hosts
mod Tests
