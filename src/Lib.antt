-- ===== src/Lib.antt =====
-- A model of the consensus algorithms of this crate, with the theorems that hold of them.
--
-- Each algorithm is a deterministic state machine: a method takes an input or a message and
-- returns a Step, which holds outputs, messages to send and reports of faults. A model of a
-- method is a function from the state to an outcome (a value, an error, a panic, or fuel that
-- ran out) and the state after it, in the notation of Prelude/Effects. An error keeps the
-- changes made before it, as in the source.
--
-- The parts, from the bottom up:
-- - src/util.rs, src/fault_log.rs, src/messaging.rs, src/traits.rs, src/network_info.rs: Util,
--   FaultLog, Messaging, Traits, NetworkInfo (record and functions under the names of the
--   source; NetworkInfo/Quorums is about sets of N - f nodes).
-- - src/threshold_sign.rs: ThresholdSign. It is the coin of Binary Agreement.
--   ThresholdSign/Signatures is about its outputs.
-- - src/threshold_decrypt.rs: ThresholdDecrypt; ThresholdDecrypt/Plaintext is about its outputs.
-- - src/binary_agreement/: BinaryAgreement. BoolSet and BoolMultimap are the data of
--   sbv_broadcast.rs, which is SbvBroadcast; Content holds the messages and the queue of a
--   future epoch, Instance the state, and Handlers the methods of binary_agreement.rs. Latch,
--   Decision and Decides are about its decision.
-- - src/broadcast/: Broadcast. Merkle is merkle.rs; Coding, Payload and Instance are
--   broadcast.rs: the code, the framing of a value in shards, and the instance. Decoding and
--   Recovery are about decoding, Once and History about what is sent.
-- - src/subset/: Subset. Proposal is proposal_state.rs with the messages and errors; Instance is
--   subset.rs; Once, Accounts and History are about the outputs.
-- - src/honey_badger/: HoneyBadger. Schedule is params.rs, Content the messages, errors and
--   batches, Decryption and Epoch are epoch_state.rs, Output the batch of an epoch, Instance
--   honey_badger.rs, Builder builder.rs. Numbered, Batches and History are about the numbers of
--   the batches, Contributions about what is in them, Encryption about the encryption schedule.
-- - src/sender_queue/ and Step::defer_messages of src/traits.rs: SenderQueue. Interface is what
--   it asks of an algorithm, Deferral is defer_messages, Instance is mod.rs, and HoneyBadger is
--   honey_badger.rs. Delivery, Release, Queued, Invariant and Kept are about what is sent, kept
--   and released.
-- - src/dynamic_honey_badger/: DynamicHoneyBadger. Change is change.rs and Votes is votes.rs;
--   Winner and Ballot are about the counting of votes.
-- - src/sync_key_gen.rs: SyncKeyGen. Instance has the state and the queries, Handlers `new` and
--   the handlers of parts and acknowledgements; Public is about what all nodes know alike,
--   Values and Handled are about the values that a node holds, Ciphertexts and Honest about
--   correct nodes.
-- - src/transaction_queue.rs: TransactionQueue.
-- HoneyBadger runs one Subset for each open epoch and one ThresholdDecrypt for each contribution
-- of it; SenderQueue wraps an algorithm such as HoneyBadger. Subset runs one Broadcast and one
-- BinaryAgreement for each validator; BinaryAgreement runs one SbvBroadcast and in every third
-- epoch one ThresholdSign.
--
-- Node IDs are numbers; a BTreeMap is an association list in the order of its keys, a BTreeSet
-- an ordered list, a byte string a list of numbers. Numbers of type u64, u32 and u8 wrap as
-- written out in the definitions; usize is unbounded, and where its subtraction would be below
-- zero the model panics. The indices of nodes to which SyncKeyGen adds one are positions among
-- the keys, far below 2^64, and do not wrap.
--
-- Parameters, since their code is not in this repository: the threshold cryptography (Crypto),
-- SHA-3, the Reed-Solomon code (Broadcast/Coding), the serialization of a session ID for the
-- coin, bincode and the encryption under a random source (HoneyBadger/Content,
-- DynamicHoneyBadger/Votes, SyncKeyGen/Instance), the polynomials and commitments of the key
-- generation (SyncKeyGen/Instance), and the random choice of transactions. What a theorem needs
-- of them is a record of laws among its hypotheses.
--
-- Fuel: methods that call each other are modelled by open recursion, closed by fuel. In
-- SbvBroadcast three rounds are enough, since a nested call finds its value sent; in Broadcast,
-- ThresholdSign and ThresholdDecrypt two, since the nested call finds its flag set.
-- BinaryAgreement takes the fuel as an argument: each epoch that ends within a call, and each
-- message that a node sends to itself, takes one unit. HoneyBadger's try_output_batches has one
-- more unit than there are open epochs, since each round removes one.
--
-- Not modelled: logging and formatting, random test messages, the random sources, the state
-- machine of DynamicHoneyBadger (its eras, key generation messages and restarts),
-- QueueingHoneyBadger, and the sender queue's wrappers for these two.
pub mod Prelude
pub mod Util
pub mod FaultLog
pub mod Messaging
pub mod Traits
pub mod Crypto
pub mod NetworkInfo
pub mod Samples
pub mod ThresholdSign
pub mod ThresholdDecrypt
pub mod BinaryAgreement
pub mod Broadcast
pub mod Subset
pub mod HoneyBadger
pub mod SenderQueue
pub mod DynamicHoneyBadger
pub mod TransactionQueue
pub mod SyncKeyGen
