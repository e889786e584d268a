-- ===== src/Broadcast/Instance.antt =====
-- src/broadcast/broadcast.rs, src/broadcast/message.rs, src/broadcast/error.rs: an instance of
-- the reliable broadcast.
use hbbft.Prelude.{
  ℕ, zero, suc, ◌+◌, ◌-◌, ◌*◌, Bool, true, false, not, ◌&&◌, ◌||◌, Option, none, some, List, [],
  ◌∷◌, length, map, count, ltb, leb, ◌==◌, bytes_eq, if◌then◌else◌, M, Outcome, ok, err, panicked,
  exhausted, ◌>>=◌, ◌>>◌, return, throw, gets, modify,
}
use hbbft.Prelude.BTreeMap.{BTreeMap, get, insert, values}
use hbbft.FaultLog.{NodeId}
use hbbft.Messaging.{Target, TargetedMessage, message}
use hbbft.Traits
use hbbft.Traits.{default, extend, join, with_output, from_fault, from_message}
use hbbft.Crypto.{Crypto}
use hbbft.NetworkInfo.{NetworkInfo, all_ids, num_correct, node_index, is_node_validator}
use hbbft.Broadcast.Merkle.{Digest, MerkleTree, Proof, proof, proof_eq, from_vec, validate}
use hbbft.Broadcast.Coding.{ReedSolomon, Coding}
use hbbft.Broadcast.Coding
use hbbft.Broadcast.Payload.{split, glue}

pub data Error : Type 0 where
  invalid_node_count : Error
  instance_cannot_propose : Error
  multiple_inputs : Error
  proof_construction_failed : Error
  unknown_sender : Error

pub data FaultKind : Type 0 where
  received_value_from_non_proposer : FaultKind
  multiple_values : FaultKind
  multiple_echos : FaultKind
  multiple_readys : FaultKind
  invalid_proof : FaultKind
  broadcast_decoding : FaultKind

pub data Message : Type 0 where
  value : Proof → Message
  echo : Proof → Message
  ready : Digest → Message

abbrev pub Step : Type 0
Step = Traits.Step Message (List ℕ) FaultKind

pub record Broadcast (C : Crypto) (R : ReedSolomon) : Type 0 where
  pub netinfo : NetworkInfo C
  pub proposer_id : NodeId
  pub coding : Coding R
  pub value_sent : Bool
  pub echo_sent : Bool
  pub ready_sent : Bool
  pub decided : Bool
  pub echos : BTreeMap Proof
  pub readys : BTreeMap Digest

abbrev pub Bc : Crypto → ReedSolomon → Type 0 → Type 0
Bc C R A = M (Broadcast C R) Error A

-- The loop of `send_shards` over the node IDs: our own proof and the messages for the others;
-- `none` when a proof is missing.
unfoldable pub assign :
    NodeId → MerkleTree → ℕ → List NodeId → Option (Option Proof × List (TargetedMessage Message))
assign our_id mtree index [] = some (none, [])
assign our_id mtree index (id ∷ ids) =
    let rest = assign our_id mtree (suc index) ids in
    elim (proof mtree index) [
      | none ↦ none
      | some p ↦ elim rest [
        | none ↦ none
        | some (result, messages) ↦
            if id == our_id
            then elim result [ none ↦ some (some p, messages) | some q ↦ some (some q, messages) ]
            else some (result, message (Target.node id) (value p) ∷ messages)
      ]
    ]

-- The shards that are there.
unfoldable pub present : List (Option (List ℕ)) → List (List ℕ)
present [] = []
present (none ∷ xs) = present xs
present (some x ∷ xs) = x ∷ present xs

-- The panic is that of a tree of no shards.
unfoldable pub decode_from_shards :
    {R : ReedSolomon}
    → (sha3_256 : List ℕ → Digest) → Coding R
    → List (Option (List ℕ))
    → Digest
    → Outcome Error (Option (List ℕ))
decode_from_shards sha3_256 coding leaves root_hash =
    elim (Coding.reconstruct_shards coding leaves) [
      | none ↦ ok none
      | some shards ↦ elim (from_vec sha3_256 (present shards)) [
        | none ↦ panicked
        | some mtree ↦
            if bytes_eq mtree.root_hash root_hash
            then ok (glue (Coding.data_shard_count coding) mtree.values)
            else ok none
      ]
    ]

module _ {C : Crypto} {R : ReedSolomon} where
  -- `usize` subtraction below zero is a panic.
  unfoldable pub new : NetworkInfo C → NodeId → Outcome Error (Broadcast C R)
  new netinfo proposer_id =
      let parity_shard_num = 2 * netinfo.num_faulty in
      if ltb netinfo.num_nodes parity_shard_num
      then panicked
      else elim (Coding.new {R = R} (netinfo.num_nodes - parity_shard_num) parity_shard_num) [
        | none ↦ err invalid_node_count
        | some coding ↦ ok (record {
          netinfo = netinfo;
          proposer_id = proposer_id;
          coding = coding;
          value_sent = false;
          echo_sent = false;
          ready_sent = false;
          decided = false;
          echos = [];
          readys = [];
        })
      ]

  unfoldable pub count_echos : Broadcast C R → Digest → ℕ
  count_echos s hash = count (λ p. bytes_eq p.root_hash hash) (values s.echos)

  unfoldable pub count_readys : Broadcast C R → Digest → ℕ
  count_readys s hash = count (λ h. bytes_eq h hash) (values s.readys)

  -- The shard of a node whose `Echo` has this root hash.
  unfoldable pub leaf_value : Broadcast C R → Digest → NodeId → Option (List ℕ)
  leaf_value s hash id = elim (get s.echos id) [
    | none ↦ none
    | some p ↦ if bytes_eq p.root_hash hash then some p.value else none
  ]

  unfoldable pub leaf_values : Broadcast C R → Digest → List (Option (List ℕ))
  unfolding leaf_value
  leaf_values s hash = map (leaf_value s hash) (all_ids s.netinfo)

  -- The tests of `compute_output`.
  unfoldable pub cannot_output : Broadcast C R → Digest → Bool
  cannot_output s hash =
      s.decided
      || leb (count_readys s hash) (2 * s.netinfo.num_faulty)
      || ltb (count_echos s hash) (Coding.data_shard_count s.coding)

  -- `handle_ready` and `send_ready` call each other; `again` stands for the call of
  -- `handle_ready` by `send_ready`, and the recursion is closed in `ready_fuel` below.
  unfoldable pub send_ready : (NodeId → Digest → Bc C R Step) → Digest → Bc C R Step
  send_ready again hash = do
    modify (λ s. record s { ready_sent = true })
    validator ← gets (λ s. s.netinfo.is_validator)
    if validator
        then (do
          our_id ← gets (λ s. s.netinfo.our_id)
          step ← again our_id hash
          return (join (from_message (message Target.all (ready hash))) step))
        else return default

  -- Whether we have echoed this very proof.
  unfoldable pub echoed : Broadcast C R → Proof → Bool
  echoed s p = elim (get s.echos s.netinfo.our_id) [ none ↦ false | some q ↦ proof_eq q p ]

  module _ (sha3_256 : List ℕ → Digest) where
    unfoldable pub validate_proof : Broadcast C R → Proof → NodeId → Bool
    validate_proof s p id = elim (node_index s.netinfo id) [
      | none ↦ false
      | some index ↦ (index == p.index) && validate sha3_256 p s.netinfo.num_nodes
    ]

    -- The panics: a division by zero data shards, the `expect` on the parity, no shard for a
    -- tree, and the assertion on the number of shards.
    unfoldable pub send_shards : List ℕ → Bc C R (Proof × Step)
    send_shards input s =
        let data_shard_num = Coding.data_shard_count s.coding in
        let parity_shard_num = Coding.parity_shard_count s.coding in
        if data_shard_num == 0
        then (panicked, s)
        else elim (Coding.encode s.coding (split data_shard_num parity_shard_num input)) [
          | none ↦ (panicked, s)
          | some shards ↦ elim (from_vec sha3_256 shards) [
            | none ↦ (panicked, s)
            | some mtree ↦
                if s.netinfo.num_nodes == length mtree.values
                then elim (assign s.netinfo.our_id mtree 0 (all_ids s.netinfo)) [
                  | none ↦ (err proof_construction_failed, s)
                  | some (none, messages) ↦ (err proof_construction_failed, s)
                  | some (some p, messages) ↦
                      (ok (p, record { output = []; fault_log = []; messages = messages }), s)
                ]
                else (panicked, s)
          ]
        ]

    unfoldable pub compute_output : Digest → Bc C R Step
    compute_output hash = do
      waiting ← gets (λ s. cannot_output s hash)
      if waiting then return default else (do
        decoded ← (λ s. (decode_from_shards sha3_256 s.coding (leaf_values s hash) hash, s))
        proposer_id ← gets (λ s. s.proposer_id)
        elim decoded [
          | none ↦ return (from_fault proposer_id broadcast_decoding)
          | some payload ↦ do
            modify (λ s. record s { decided = true })
            return (with_output default payload)
        ])

    unfoldable pub ready_with : (NodeId → Digest → Bc C R Step) → NodeId → Digest → Bc C R Step
    ready_with again sender_id hash = do
      old ← gets (λ s. get s.readys sender_id)
      elim old [
        | some old_hash ↦
            if bytes_eq old_hash hash
            then return default
            else return (from_fault sender_id multiple_readys)
        | none ↦ do
          modify (λ s. record s { readys = insert sender_id hash s.readys })
          amplify ←
              gets (λ s. (count_readys s hash == s.netinfo.num_faulty + 1) && not s.ready_sent)
          sent ← Traits.when amplify (send_ready again hash)
          out ← compute_output hash
          return (join sent out)
      ]

    unfoldable pub ready_fuel : ℕ → NodeId → Digest → Bc C R Step
    ready_fuel zero sender_id hash s = (exhausted, s)
    ready_fuel (suc n) sender_id hash s = ready_with (ready_fuel n) sender_id hash s

    -- The nested call finds that `Ready` is sent already, so two rounds are enough.
    unfoldable pub handle_ready : NodeId → Digest → Bc C R Step
    handle_ready = ready_fuel 2

    unfoldable pub handle_echo : NodeId → Proof → Bc C R Step
    handle_echo sender_id p = do
      old ← gets (λ s. get s.echos sender_id)
      elim old [
        | some old_p ↦
            if proof_eq old_p p
            then return default
            else return (from_fault sender_id multiple_echos)
        | none ↦ do
          valid ← gets (λ s. validate_proof s p sender_id)
          if valid
              then (do
                modify (λ s. record s { echos = insert sender_id p s.echos })
                quiet ←
                    gets
                      (λ s. s.ready_sent || ltb (count_echos s p.root_hash) (num_correct s.netinfo))
                if quiet then compute_output p.root_hash else send_ready handle_ready p.root_hash)
              else return (from_fault sender_id invalid_proof)
      ]

    unfoldable pub send_echo : Proof → Bc C R Step
    send_echo p = do
      modify (λ s. record s { echo_sent = true })
      validator ← gets (λ s. s.netinfo.is_validator)
      if validator
          then (do
            our_id ← gets (λ s. s.netinfo.our_id)
            step ← handle_echo our_id p
            return (join (from_message (message Target.all (echo p))) step))
          else return default

    unfoldable pub handle_value : NodeId → Proof → Bc C R Step
    handle_value sender_id p = do
      from_proposer ← gets (λ s. sender_id == s.proposer_id)
      if from_proposer
          then (do
            again ← gets (λ s. s.echo_sent)
            if again
                then (do
                  same ← gets (λ s. echoed s p)
                  if same then return default else return (from_fault sender_id multiple_values))
                else (do
                  valid ← gets (λ s. validate_proof s p s.netinfo.our_id)
                  if valid then send_echo p else return (from_fault sender_id invalid_proof)))
          else return (from_fault sender_id received_value_from_non_proposer)

    unfoldable pub handle_message : NodeId → Message → Bc C R Step
    handle_message sender_id msg = do
      known ← gets (λ s. is_node_validator s.netinfo sender_id)
      if known
          then elim msg [
            | value p ↦ handle_value sender_id p
            | echo p ↦ handle_echo sender_id p
            | ready hash ↦ handle_ready sender_id hash
          ]
          else throw unknown_sender

    unfoldable pub broadcast : List ℕ → Bc C R Step
    broadcast input = do
      ours ← gets (λ s. s.netinfo.our_id == s.proposer_id)
      already ← gets (λ s. s.value_sent)
      if not ours
          then throw instance_cannot_propose
          else if already
          then throw multiple_inputs
          else (do
            modify (λ s. record s { value_sent = true })
            sent ← send_shards input
            our_id ← gets (λ s. s.netinfo.our_id)
            step ← handle_value our_id sent.0
            return (join sent.1 step))
