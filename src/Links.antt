-- ===== src/Links.antt =====
-- The signed links of mails: backend/app/utils/signed_links.py and unsubscribe.py.
pub mod Signed
pub mod Parts
pub mod Validity
mod Tests
