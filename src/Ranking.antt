-- ===== src/Ranking.antt =====
-- Ranking: backend/app/services/ranking.
pub mod Interleaving
pub mod Draft
pub mod Picks
pub mod Rounds
pub mod TeamDraft
pub mod Fairness
pub mod Outcome
pub mod Report
mod Tests
