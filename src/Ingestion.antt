-- ===== src/Ingestion.antt =====
-- Feed polling: backend/app/services/ingestion and backend/app/workers/tasks/ingest_feeds.py.
pub mod Schedule
pub mod Poll
pub mod Bounds
pub mod Health
pub mod Feeds
pub mod Sharing
pub mod Items
pub mod Dedup
pub mod Caps
pub mod BitCount
pub mod Novelty
pub mod Distinct
pub mod Fresh
pub mod Dispatch
pub mod Takedown
pub mod Blocking
pub mod Filing
pub mod Poller
pub mod Statuses
pub mod Uniqueness
pub mod FeedPoll
pub mod FeedRun
pub mod ProQuery
pub mod Priority
pub mod Charges
mod Samples
mod PollTests
mod ItemTests
mod Tests
