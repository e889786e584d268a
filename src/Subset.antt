-- ===== src/Subset.antt =====
-- src/subset: the nodes agree on a set of their contributions.
pub mod Proposal
pub mod Instance
pub mod Once
pub mod Accounts
pub mod History
mod Tests
