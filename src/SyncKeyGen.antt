-- ===== src/SyncKeyGen.antt =====
-- src/sync_key_gen.rs: the key generation. Public is about what all nodes know alike, Values and
-- Handled about the values that a node holds, Ciphertexts and Honest about correct nodes.
pub mod Instance
pub mod Handlers
pub mod Public
pub mod Values
pub mod Handled
pub mod Ciphertexts
pub mod Honest
mod Tests
