-- ===== src/Fetch.antt =====
-- Server-side fetches: backend/app/utils/ssrf.py.
pub mod Guard
pub mod Hops
mod Tests
