-- ===== src/SyncKeyGen/Instance.antt =====
-- src/sync_key_gen.rs: an instance of the key generation. `generate` has no error, since the source
-- returns none; the panic of `into_network_info` is that of `NetworkInfo::new`.
use hbbft.Prelude.{
  ℕ, suc, ◌+◌, ◌*◌, ◌⊎◌, Bool, false, Option, none, some, List, [], ◌∷◌, length, count, take, keep,
  if◌then◌else◌, ltb, ◌==◌,
}
use hbbft.Prelude.BTreeMap.{BTreeMap, get, keys, values}
use hbbft.Prelude.BTreeSet.{BTreeSet}
use hbbft.FaultLog.{NodeId}
use hbbft.Crypto.{Crypto}
use hbbft.NetworkInfo as NetworkInfo

-- The polynomials and commitments of the crate `threshold_crypto`, their serialization by
-- `bincode`, and the encryption under a random source, whose new state is returned.
pub record Polynomials (C : Crypto) : Type 1 where
  pub BivarPoly : Type 0
  pub BivarCommitment : Type 0
  pub Poly : Type 0
  pub Commitment : Type 0
  pub Fr : Type 0
  pub G1 : Type 0
  pub Rng : Type 0
  pub SerializeError : Type 0
  pub random : ℕ → Rng → BivarPoly × Rng
  pub commitment : BivarPoly → BivarCommitment
  pub row : BivarPoly → ℕ → Poly
  -- `BivarCommitment::row`, `BivarCommitment::evaluate`, and the tests of equality.
  pub commitment_row : BivarCommitment → ℕ → Commitment
  pub commitment_at : BivarCommitment → ℕ → ℕ → G1
  pub bivar_eq : BivarCommitment → BivarCommitment → Bool
  pub commitment_eq : Commitment → Commitment → Bool
  pub g1_eq : G1 → G1 → Bool
  -- `Poly::commitment`, `Poly::evaluate`, `Poly::interpolate`, and `G1Affine::one().mul`.
  pub poly_commitment : Poly → Commitment
  pub evaluate : Poly → ℕ → Fr
  pub interpolate : List (ℕ × Fr) → Poly
  pub one_mul : Fr → G1
  -- The sums, with the zeros that they start from, and the keys that they are turned into.
  pub zero_commitment : Commitment
  pub add_commitment : Commitment → Commitment → Commitment
  pub fr_zero : Fr
  pub fr_add : Fr → Fr → Fr
  pub key_set : Commitment → C.PublicKeySet
  pub key_share : Fr → C.SecretKeyShare
  pub serialize_row : Poly → SerializeError ⊎ List ℕ
  pub deserialize_row : List ℕ → Option Poly
  pub serialize_value : Fr → SerializeError ⊎ List ℕ
  pub deserialize_value : List ℕ → Option Fr
  pub encrypt_with_rng : C.PublicKey → Rng → List ℕ → C.Ciphertext × Rng
  pub decrypt : C.SecretKey → C.Ciphertext → Option (List ℕ)

pub data Error (C : Crypto) (P : Polynomials C) : Type 0 where
  creation : C.CryptoError → Error C P
  generation : C.CryptoError → Error C P
  unknown_sender : Error C P
  serialize : P.SerializeError → Error C P

pub record Part (C : Crypto) (P : Polynomials C) : Type 0 where
  pub commit : P.BivarCommitment
  pub rows : List C.Ciphertext

pub record Ack (C : Crypto) : Type 0 where
  pub proposer_idx : ℕ
  pub values : List C.Ciphertext

pub record ProposalState (C : Crypto) (P : Polynomials C) : Type 0 where
  pub commit : P.BivarCommitment
  pub values : BTreeMap P.Fr
  pub acks : BTreeSet

pub data PartFault : Type 0 where
  row_count : PartFault
  multiple_parts : PartFault
  decrypt_row : PartFault
  deserialize_row_failed : PartFault
  row_commitment : PartFault

pub data AckFault : Type 0 where
  value_count : AckFault
  missing_part : AckFault
  decrypt_value : AckFault
  deserialize_value_failed : AckFault
  value_commitment : AckFault

pub data PartOutcome (C : Crypto) : Type 0 where
  valid : Option (Ack C) → PartOutcome C
  invalid : PartFault → PartOutcome C

pub data AckOutcome : Type 0 where
  valid_ack : AckOutcome
  invalid_ack : AckFault → AckOutcome

pub record SyncKeyGen (C : Crypto) (P : Polynomials C) : Type 0 where
  pub our_id : NodeId
  pub our_idx : Option ℕ
  pub sec_key : C.SecretKey
  pub pub_keys : BTreeMap C.PublicKey
  pub parts : BTreeMap (ProposalState C P)
  pub threshold : ℕ

-- `position` of an ID among the keys.
unfoldable pub position : ℕ → List NodeId → NodeId → Option ℕ
position idx [] id = none
position idx (i ∷ ids) id = if i == id then some idx else position (suc idx) ids id

module _ {C : Crypto} {P : Polynomials C} where
  unfoldable pub is_complete : ℕ → ProposalState C P → Bool
  is_complete threshold part = ltb (2 * threshold) (length part.acks)

  unfoldable pub node_index : SyncKeyGen C P → NodeId → Option ℕ
  node_index s id = position 0 (keys s.pub_keys) id

  unfoldable pub count_complete : SyncKeyGen C P → ℕ
  count_complete s = count (is_complete s.threshold) (values s.parts)

  unfoldable pub is_node_ready : SyncKeyGen C P → NodeId → Bool
  is_node_ready s proposer_id = elim (node_index s proposer_id) [
    | none ↦ false
    | some idx ↦ elim (get s.parts idx) [ none ↦ false | some part ↦ is_complete s.threshold part ]
  ]

  unfoldable pub is_ready : SyncKeyGen C P → Bool
  is_ready s = ltb s.threshold (count_complete s)

  -- The sum of the commitments of the parts, and of the values at 0 of the own rows.
  unfoldable pub sum_commitments : List (ProposalState C P) → P.Commitment → P.Commitment
  sum_commitments [] c = c
  sum_commitments (part ∷ parts) c =
      sum_commitments parts (P.add_commitment c (P.commitment_row part.commit 0))

  unfoldable pub sum_values : ℕ → List (ProposalState C P) → P.Fr → P.Fr
  sum_values threshold [] v = v
  sum_values threshold (part ∷ parts) v =
      sum_values threshold parts
        (P.fr_add v (P.evaluate (P.interpolate (take (threshold + 1) part.values)) 0))

  unfoldable pub complete_parts : SyncKeyGen C P → List (ProposalState C P)
  complete_parts s = keep (is_complete s.threshold) (values s.parts)

  unfoldable pub generate : SyncKeyGen C P → C.PublicKeySet × Option C.SecretKeyShare
  generate s =
      let share : Option C.SecretKeyShare = elim s.our_idx [
        | none ↦ none
        | some idx ↦ some (P.key_share (sum_values s.threshold (complete_parts s) P.fr_zero))
      ] in
      (P.key_set (sum_commitments (complete_parts s) P.zero_commitment), share)

  unfoldable pub into_network_info : SyncKeyGen C P → Option (NetworkInfo.NetworkInfo C)
  into_network_info s =
      let (pk_set, sk_share) = generate s in
      NetworkInfo.new s.our_id sk_share pk_set s.sec_key s.pub_keys
