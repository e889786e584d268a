-- ===== src/HoneyBadger/Output.antt =====
-- src/honey_badger/epoch_state.rs: the batch of an epoch, once its contributions are decrypted.
use hbbft.Prelude.{ℕ, Option, none, some, List, [], ◌∷◌}
use hbbft.Prelude.BTreeMap.{BTreeMap, get, insert}
use hbbft.Prelude.BTreeSet.{BTreeSet}
use hbbft.FaultLog.{NodeId, FaultLog, append}
use hbbft.Crypto.{Crypto}
use hbbft.Broadcast.Coding.{ReedSolomon}
use hbbft.HoneyBadger.Content.{Codec, FaultKind, batch_deserialization_failed, Batch}
use hbbft.HoneyBadger.Decryption.{DecryptionState, ongoing, complete}
use hbbft.HoneyBadger.Epoch.{EpochState, accepted_ids}

module _ {C : Crypto} where
  -- The plaintexts of the accepted proposers, once all of them are there.
  unfoldable pub plaintexts :
      BTreeSet → BTreeMap (DecryptionState C) → Option (List (NodeId × List ℕ))
  plaintexts [] m = some []
  plaintexts (id ∷ ids) m = elim (get m id) [
    | some (complete pt) ↦ elim (plaintexts ids m) [
      | some rest ↦ some ((id, pt) ∷ rest)
      | none ↦ none
    ]
    | some (ongoing td) ↦ none
    | none ↦ none
  ]

  unfoldable pub deserialize_into :
      (B : Codec C)
      → List (NodeId × List ℕ)
      → Batch B.Contribution
      → FaultLog FaultKind
      → Batch B.Contribution × FaultLog FaultKind
  deserialize_into B [] batch log = (batch, log)
  deserialize_into B ((id, plaintext) ∷ rest) batch log = elim (B.deserialize plaintext) [
    | some contrib ↦
        deserialize_into B rest
          (record batch { contributions = insert id contrib batch.contributions }) log
    | none ↦ deserialize_into B rest batch (append log id batch_deserialization_failed)
  ]

  unfoldable pub try_output_batch :
      {R : ReedSolomon} (B : Codec C)
      → EpochState C R
      → Option (Batch B.Contribution × FaultLog FaultKind)
  try_output_batch B s = elim (accepted_ids s.subset) [
    | none ↦ none
    | some ids ↦ elim (plaintexts ids s.decryption) [
      | none ↦ none
      | some found ↦
          some (deserialize_into B found (record { epoch = s.epoch; contributions = [] }) [])
    ]
  ]
