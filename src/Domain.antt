-- ===== src/Domain.antt =====
-- internal/domain: entities, value objects and the state machine.
pub mod Errors
pub mod Channel
pub mod Status
pub mod Recipient
pub mod Notification
pub mod Log
pub mod Delivery
pub mod Batch
