-- ===== src/DynamicHoneyBadger.antt =====
-- src/dynamic_honey_badger: the validators vote for changes of the network.
pub mod Change
pub mod Votes
pub mod Winner
pub mod Ballot
mod Tests
