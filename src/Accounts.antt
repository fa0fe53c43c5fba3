-- ===== src/Accounts.antt =====
-- Accounts and sessions: backend/app/api/auth.py, with backend/app/services/registration.py,
-- backend/app/services/email_verification.py and backend/app/api/session_cookies.py.
pub mod Tokens
pub mod Samples
mod Tests
pub mod Registration
pub mod Replies
pub mod SignIn
pub mod Sessions
pub mod Guard
pub mod Screen
pub mod Calls
pub mod Absent
pub mod Grants
pub mod SingleUse
pub mod RoundTrip
pub mod Protection
pub mod Types
pub mod Registry
pub mod Views
pub mod Admission
pub mod Refinement
