-- ===== src/SyncKeyGen/Handlers.antt =====
-- src/sync_key_gen.rs: `new` and the handlers of parts and acknowledgements. The random source is
-- passed on from each call to the next.
use hbbft.Prelude.{
  ℕ, suc, ◌+◌, ◌⊎◌, inl, inr, not, Option, none, some, List, [], ◌∷◌, length, get_elem?,
  if◌then◌else◌, ◌==◌, M, Outcome, ok, err, panicked, exhausted,
}
use hbbft.Prelude.BTreeMap.{BTreeMap, get, insert, set, keys, values}
use hbbft.Prelude.BTreeSet as Set
use hbbft.Prelude.BTreeSet.{contains}
use hbbft.FaultLog.{NodeId}
use hbbft.Crypto.{Crypto}
use hbbft.SyncKeyGen.Instance.{
  Polynomials, Error, unknown_sender, serialize, Part, Ack, ProposalState, PartFault, row_count,
  multiple_parts, decrypt_row, deserialize_row_failed, row_commitment, AckFault, value_count,
  missing_part, decrypt_value, deserialize_value_failed, value_commitment, PartOutcome, valid,
  invalid, AckOutcome, valid_ack, invalid_ack, SyncKeyGen, position, node_index,
}

module _ {C : Crypto} (P : Polynomials C) where
  unfoldable pub add_ciphertext :
      C.Ciphertext
      → (P.SerializeError ⊎ List C.Ciphertext) × P.Rng
      → (P.SerializeError ⊎ List C.Ciphertext) × P.Rng
  add_ciphertext c (inl e, rng) = (inl e, rng)
  add_ciphertext c (inr cs, rng) = (inr (c ∷ cs), rng)

  -- One item for each key, serialized and encrypted: the item of the key at a position is that of
  -- the number after it.
  unfoldable pub encrypt_each :
      (ℕ → P.SerializeError ⊎ List ℕ)
      → ℕ
      → List C.PublicKey
      → P.Rng
      → (P.SerializeError ⊎ List C.Ciphertext) × P.Rng
  encrypt_each item idx [] rng = (inr [], rng)
  encrypt_each item idx (pk ∷ pks) rng = elim (item (idx + 1)) [
    | inl e ↦ (inl e, rng)
    | inr bytes ↦
        let (c, rng_after) = P.encrypt_with_rng pk rng bytes in
        add_ciphertext c (encrypt_each item (suc idx) pks rng_after)
  ]

  unfoldable pub new :
      NodeId
      → C.SecretKey
      → BTreeMap C.PublicKey
      → ℕ
      → P.Rng
      → (Error C P ⊎ (SyncKeyGen C P × Option (Part C P))) × P.Rng
  new our_id sec_key pub_keys threshold rng =
      let our_idx = position 0 (keys pub_keys) our_id in
      let key_gen : SyncKeyGen C P = record {
        our_id = our_id;
        our_idx = our_idx;
        sec_key = sec_key;
        pub_keys = pub_keys;
        parts = [];
        threshold = threshold;
      } in
      elim our_idx [
        | none ↦ (inr (key_gen, none), rng)
        | some idx ↦
            let (our_part, rng_after) = P.random threshold rng in
            let commit = P.commitment our_part in
            let (rows, rng_end) =
              encrypt_each (λ i. P.serialize_row (P.row our_part i)) 0 (values pub_keys)
                rng_after in
            elim rows [
              | inl e ↦ (inl (serialize e), rng_end)
              | inr cs ↦ (inr (key_gen, some (record { commit = commit; rows = cs })), rng_end)
            ]
      ]

  -- The own row, decrypted, deserialized and compared to the commitment.
  unfoldable pub check_row :
      C.SecretKey → List C.Ciphertext → ℕ → P.Commitment → Outcome PartFault (Option P.Poly)
  check_row sec_key rows our_idx commit_row = elim (get_elem? rows our_idx) [
    | none ↦ panicked
    | some c ↦ elim (P.decrypt sec_key c) [
      | none ↦ err decrypt_row
      | some ser_row ↦ elim (P.deserialize_row ser_row) [
        | none ↦ err deserialize_row_failed
        | some row ↦
            if P.commitment_eq (P.poly_commitment row) commit_row
            then ok (some row)
            else err row_commitment
      ]
    ]
  ]

  -- The own value, decrypted, deserialized and compared to the commitment.
  unfoldable pub check_value :
      C.SecretKey → List C.Ciphertext → ℕ → P.BivarCommitment → ℕ → Outcome AckFault P.Fr
  check_value sec_key cs our_idx commit sender_idx = elim (get_elem? cs our_idx) [
    | none ↦ panicked
    | some c ↦ elim (P.decrypt sec_key c) [
      | none ↦ err decrypt_value
      | some ser_val ↦ elim (P.deserialize_value ser_val) [
        | none ↦ err deserialize_value_failed
        | some val ↦
            if P.g1_eq (P.commitment_at commit (our_idx + 1) (sender_idx + 1)) (P.one_mul val)
            then ok val
            else err value_commitment
      ]
    ]
  ]

module _ {C : Crypto} {P : Polynomials C} where
  unfoldable pub handle_part_or_fault : ℕ → Part C P → M (SyncKeyGen C P) PartFault (Option P.Poly)
  handle_part_or_fault sender_idx part s =
      if not (length part.rows == length s.pub_keys)
      then (err row_count, s)
      else elim (get s.parts sender_idx) [
        | some state ↦
            (if P.bivar_eq state.commit part.commit then ok none else err multiple_parts, s)
        | none ↦
            let fresh : ProposalState C P = record {
              commit = part.commit;
              values = [];
              acks = [];
            } in
            let t : SyncKeyGen C P = record s { parts = insert sender_idx fresh s.parts } in
            elim s.our_idx [
              | none ↦ (ok none, t)
              | some idx ↦
                  (check_row P s.sec_key part.rows idx (P.commitment_row part.commit (idx + 1)), t)
            ]
      ]

  -- The acknowledgement of a row: a value of it for each node.
  unfoldable pub ack_row :
      ℕ → BTreeMap C.PublicKey → P.Poly → P.Rng → Outcome (Error C P) (PartOutcome C) × P.Rng
  ack_row sender_idx pub_keys row rng =
      let (cs, rng_end) =
        encrypt_each P (λ i. P.serialize_value (P.evaluate row i)) 0 (values pub_keys) rng in
      elim cs [
        | inl e ↦ (err (serialize e), rng_end)
        | inr vs ↦ (ok (valid (some (record { proposer_idx = sender_idx; values = vs }))), rng_end)
      ]

  unfoldable pub part_outcome :
      ℕ
      → BTreeMap C.PublicKey
      → Outcome PartFault (Option P.Poly)
      → P.Rng
      → Outcome (Error C P) (PartOutcome C) × P.Rng
  part_outcome sender_idx pub_keys (ok none) rng = (ok (valid none), rng)
  part_outcome sender_idx pub_keys (ok (some row)) rng = ack_row sender_idx pub_keys row rng
  part_outcome sender_idx pub_keys (err fault) rng = (ok (invalid fault), rng)
  part_outcome sender_idx pub_keys panicked rng = (panicked, rng)
  part_outcome sender_idx pub_keys exhausted rng = (exhausted, rng)

  unfoldable pub handle_part :
      NodeId
      → Part C P
      → P.Rng
      → SyncKeyGen C P
      → (Outcome (Error C P) (PartOutcome C) × P.Rng) × SyncKeyGen C P
  handle_part sender_id part rng s = elim (node_index s sender_id) [
    | none ↦ ((err unknown_sender, rng), s)
    | some sender_idx ↦
        let (r, t) = handle_part_or_fault sender_idx part s in
        (part_outcome sender_idx t.pub_keys r rng, t)
  ]

  -- The part with the value of a sender, if that passed.
  unfoldable pub store_value :
      ℕ
      → Outcome AckFault P.Fr
      → ProposalState C P
      → Outcome AckFault (Unit {0}) × ProposalState C P
  store_value sender_idx (ok val) part =
      (ok tt, record part { values = insert (sender_idx + 1) val part.values })
  store_value sender_idx (err fault) part = (err fault, part)
  store_value sender_idx panicked part = (panicked, part)
  store_value sender_idx exhausted part = (exhausted, part)

  -- What an acknowledgement does to the part that it is for.
  unfoldable pub ack_part :
      C.SecretKey
      → Option ℕ
      → ℕ
      → List C.Ciphertext
      → ProposalState C P
      → Outcome AckFault (Unit {0}) × ProposalState C P
  ack_part sec_key our_idx sender_idx cs part =
      let acked : ProposalState C P = record part { acks = Set.insert sender_idx part.acks } in
      if contains part.acks sender_idx then (ok tt, part) else elim our_idx [
        | none ↦ (ok tt, acked)
        | some idx ↦
            store_value sender_idx (check_value P sec_key cs idx part.commit sender_idx) acked
      ]

  unfoldable pub handle_ack_or_fault : ℕ → Ack C → M (SyncKeyGen C P) AckFault (Unit {0})
  handle_ack_or_fault sender_idx ack s =
      if not (length ack.values == length s.pub_keys)
      then (err value_count, s)
      else elim (get s.parts ack.proposer_idx) [
        | none ↦ (err missing_part, s)
        | some part ↦
            let (r, changed) = ack_part s.sec_key s.our_idx sender_idx ack.values part in
            (r, record s { parts = set ack.proposer_idx changed s.parts })
      ]

  abbrev pub ack_outcome : Outcome AckFault (Unit {0}) → Outcome (Error C P) AckOutcome
  ack_outcome (ok done) = ok valid_ack
  ack_outcome (err fault) = ok (invalid_ack fault)
  ack_outcome panicked = panicked
  ack_outcome exhausted = exhausted

  unfoldable pub handle_ack : NodeId → Ack C → M (SyncKeyGen C P) (Error C P) AckOutcome
  handle_ack sender_id ack s = elim (node_index s sender_id) [
    | none ↦ (err unknown_sender, s)
    | some sender_idx ↦ let (r, t) = handle_ack_or_fault sender_idx ack s in (ack_outcome r, t)
  ]
