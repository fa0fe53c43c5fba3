-- ===== src/Entitlements.antt =====
-- What an account may use: backend/app/services/entitlements.py.
pub mod Quotas
pub mod Allowance
pub mod Limits
pub mod Concurrent
pub mod Screen
mod Tests
