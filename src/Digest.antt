-- ===== src/Digest.antt =====
-- The digest: backend/app/services/digest.
pub mod Sections
pub mod Creators
pub mod Passes
pub mod Guarantees
pub mod Bounds
pub mod Topics
pub mod Filling
pub mod Stories
pub mod Cards
pub mod Candidates
pub mod Assembly
pub mod Placing
pub mod Surfacing
pub mod Prompts
pub mod Learning
pub mod Summaries
mod Tests
mod BuildTests
