-- ===== src/SenderQueue.antt =====
-- src/sender_queue: messages wait until their recipients are in the epochs that they are for.
pub mod Interface
pub mod Deferral
pub mod Delivery
pub mod Instance
pub mod Release
pub mod Queued
pub mod Invariant
pub mod Kept
pub mod HoneyBadger
mod Tests
