-- ===== src/Delivery.antt =====
-- internal/delivery: composing, sending and retrying emails.
pub mod Backoff
pub mod Classify
pub mod Message
pub mod Worker
pub mod Sender
