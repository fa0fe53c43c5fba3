-- ===== src/Billing.antt =====
-- Hosted billing: backend/app/services/billing and the tasks that read it.
pub mod Account
pub mod Events
pub mod Replay
pub mod Ordering
pub mod Deliveries
pub mod Access
pub mod Pausing
pub mod Notice
pub mod Json
pub mod Lemonsqueezy
pub mod Paddle
pub mod Razorpay
pub mod Webhook
pub mod Redelivery
mod WebhookTests
mod Tests
