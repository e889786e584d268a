-- ===== src/Broadcast.antt =====
-- src/broadcast: a proposer's value reaches every node.
pub mod Merkle
pub mod Coding
pub mod Payload
pub mod Instance
pub mod Decoding
pub mod Once
pub mod History
pub mod Recovery
mod Tests
mod RecoveryTests
