-- ===== src/HoneyBadger.antt =====
-- src/honey_badger: in each epoch the nodes agree on a batch of contributions.
pub mod Schedule
pub mod Content
pub mod Decryption
pub mod Epoch
pub mod Output
pub mod Instance
pub mod Builder
pub mod Numbered
pub mod Batches
pub mod History
pub mod Encryption
pub mod Contributions
mod Tests
