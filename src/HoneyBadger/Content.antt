-- ===== src/HoneyBadger/Content.antt =====
-- src/honey_badger/message.rs, src/honey_badger/error.rs, src/honey_badger/batch.rs: what an
-- instance sends, reports and outputs; and what it takes from elsewhere about contributions.
use hbbft.Prelude.{ℕ, ◌+◌, ◌⊎◌, Bool, Option, List, [], ◌∷◌, ◌++◌, length, all, map}
use hbbft.Prelude.BTreeMap.{BTreeMap, values}
use hbbft.FaultLog.{NodeId}
use hbbft.Traits
use hbbft.Crypto.{Crypto}
use hbbft.Subset.Proposal as Subset
use hbbft.ThresholdDecrypt as Td

-- The type of contributions with its serialization by the crate `bincode`, whose reasons for a
-- failed deserialization nothing reads, and the encryption under a random source.
pub record Codec (C : Crypto) : Type 1 where
  pub Contribution : Type 0
  pub BincodeError : Type 0
  pub Rng : Type 0
  pub serialize : Contribution → BincodeError ⊎ List ℕ
  pub deserialize : List ℕ → Option Contribution
  pub serialize_ciphertext : C.Ciphertext → BincodeError ⊎ List ℕ
  pub deserialize_ciphertext : List ℕ → Option C.Ciphertext
  pub encrypt_with_rng : C.PublicKey → Rng → List ℕ → C.Ciphertext

-- `EpochId`: the session of a Subset instance.
pub record EpochId : Type 0 where
  pub hb_id : ℕ
  pub epoch : ℕ

pub data MessageContent (C : Crypto) : Type 0 where
  subset : Subset.Message C → MessageContent C
  decryption_share : NodeId → Td.Message C → MessageContent C

pub record Message (C : Crypto) : Type 0 where
  pub epoch : ℕ
  pub content : MessageContent C

abbrev pub with_epoch : {C : Crypto} → MessageContent C → ℕ → Message C
with_epoch content epoch = record { epoch = epoch; content = content }

pub data Error (C : Crypto) (B : Codec C) : Type 0 where
  propose_bincode : B.BincodeError → Error C B
  create_subset : Subset.Error C → Error C B
  input_subset : Subset.Error C → Error C B
  handle_subset_message : Subset.Error C → Error C B
  threshold_decrypt : Td.Error C → Error C B
  unknown_sender : Error C B

pub data FaultKind : Type 0 where
  unexpected_decryption_share : FaultKind
  deserialize_ciphertext_failed : FaultKind
  invalid_ciphertext_fault : FaultKind
  unexpected_hb_message_epoch : FaultKind
  batch_deserialization_failed : FaultKind
  subset_fault : Subset.FaultKind → FaultKind
  decryption_fault : Td.FaultKind → FaultKind

pub record Batch (A : Type 0) : Type 0 where
  pub epoch : ℕ
  pub contributions : BTreeMap A

sum : List ℕ → ℕ
sum [] = 0
sum (n ∷ ns) = n + sum ns

-- The transactions of contributions that are vectors of them: `iter` and `into_tx_iter`, `len`
-- and `is_empty`.
module _ {T : Type 0} where
  flatten : List (List T) → List T
  flatten [] = []
  flatten (xs ∷ xss) = xs ++ flatten xss

  no_elements : List T → Bool
  no_elements [] = Bool.true
  no_elements (x ∷ xs) = Bool.false

  unfoldable pub iter : Batch (List T) → List T
  unfolding flatten
  iter b = flatten (values b.contributions)

  unfoldable pub batch_len : Batch (List T) → ℕ
  unfolding sum
  batch_len b = sum (map length (values b.contributions))

  unfoldable pub is_empty : Batch (List T) → Bool
  unfolding no_elements
  is_empty b = all no_elements (values b.contributions)

abbrev pub Step : (C : Crypto) → (B : Codec C) → Type 0
Step C B = Traits.Step (Message C) (Batch B.Contribution) FaultKind
