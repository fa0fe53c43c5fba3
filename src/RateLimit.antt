-- ===== src/RateLimit.antt =====
-- Rate limiting: backend/app/utils/ratelimit.py.
pub mod Window
pub mod Cap
mod Tests
