-- ===== src/BinaryAgreement.antt =====
-- src/binary_agreement: the nodes agree on one bit.
pub mod BoolSet
pub mod BoolMultimap
pub mod Faults
pub mod SbvBroadcast
pub mod Content
pub mod Instance
pub mod Handlers
pub mod Latch
pub mod Decision
pub mod Decides
mod Tests
