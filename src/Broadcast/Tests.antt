-- ===== src/Broadcast/Tests.antt =====
-- Node 10 of four receives the value of node 20, and the theorems at concrete inputs.
use hbbft.Prelude.{
  ℕ, zero, suc, ◌≡◌, refl, Bool, true, false, Option, none, some, List, [], ◌∷◌, Returns, ok,
  Outcome, arith, ◌+◌, ◌<◌,
}
use hbbft.FaultLog.{NodeId}
use hbbft.Samples.{toy, four_nodes, toy_hash, no_code, no_code-Restores}
use hbbft.Broadcast.Merkle.{Proof, MerkleTree, from_vec, proof}
use hbbft.Broadcast.Coding.{reed_solomon}
use hbbft.Broadcast.Payload.{split, glue}
use hbbft.Broadcast.Payload.RoundTrip.{glue-split}
use hbbft.Broadcast.Instance.{Broadcast, Message, value, echo, ready, Error, Step, new}
use hbbft.Broadcast.History.{history, AtMostOnce, messages-AtMostOnce}

abbrev started : Broadcast toy no_code
started = record {
  netinfo = four_nodes;
  proposer_id = 20;
  coding = reed_solomon (2, 2);
  value_sent = false;
  echo_sent = false;
  ready_sent = false;
  decided = false;
  echos = [];
  readys = [];
}

new-started : new {C = toy} {R = no_code} four_nodes 20 ≡ ok started
unfolding new hbbft.Broadcast.Coding.new
new-started = refl

root : List ℕ
root = elim (from_vec toy_hash (split 2 2 (7 ∷ 8 ∷ []))) [ none ↦ [] | some t ↦ t.root_hash ]

branch : ℕ → Proof
branch i = elim (from_vec toy_hash (split 2 2 (7 ∷ 8 ∷ []))) [
  | none ↦ record { value = []; index = 0; digests = []; root_hash = [] }
  | some t ↦ elim (proof t i) [
    | none ↦ record { value = []; index = 0; digests = []; root_hash = [] }
    | some p ↦ p
  ]
]

messages_received : List (NodeId × Message)
messages_received =
    (20, value (branch 0))
    ∷ (20, echo (branch 1))
    ∷ (30, echo (branch 2))
    ∷ (40, echo (branch 3))
    ∷ (30, ready root)
    ∷ (50, ready root)
    ∷ (40, ready root)
    ∷ []

outputs_of : Outcome Error Step × Broadcast toy no_code → List (List ℕ)
outputs_of (ok step, s) = step.output
outputs_of _ = []

value_output : outputs_of (history toy_hash messages_received started) ≡ (7 ∷ 8 ∷ []) ∷ []
unfolding outputs_of messages_received branch root history hbbft.Prelude.BTreeMap.get
    hbbft.Prelude.BTreeMap.insert from_vec split glue hbbft.Broadcast.Merkle.siblings proof
    hbbft.Broadcast.Payload.framed hbbft.Broadcast.Payload.resize hbbft.Broadcast.Payload.flatten
    hbbft.Broadcast.Payload.read_u32 hbbft.Broadcast.Payload.unframe
    hbbft.Broadcast.Payload.write_u32 hbbft.Broadcast.Payload.chunks
    hbbft.Broadcast.Payload.shard_len hbbft.Broadcast.Coding.data_shard_count
    hbbft.Broadcast.Coding.reconstruct_shards hbbft.Broadcast.Instance.handle_message
    hbbft.Broadcast.Instance.handle_value hbbft.Broadcast.Instance.validate_proof
    hbbft.Broadcast.Instance.send_echo hbbft.Broadcast.Instance.handle_echo
    hbbft.Broadcast.Instance.count_echos hbbft.Broadcast.Instance.count_readys
    hbbft.Broadcast.Instance.cannot_output hbbft.Broadcast.Instance.compute_output
    hbbft.Broadcast.Instance.echoed hbbft.Broadcast.Instance.handle_ready
    hbbft.Broadcast.Instance.leaf_value hbbft.Broadcast.Instance.leaf_values
    hbbft.Broadcast.Instance.present hbbft.Broadcast.Instance.ready_fuel
    hbbft.Broadcast.Instance.ready_with hbbft.Broadcast.Instance.send_ready
    hbbft.Broadcast.Instance.decode_from_shards hbbft.Broadcast.Merkle.validate
    hbbft.Broadcast.Merkle.climb hbbft.Broadcast.Merkle.build hbbft.Broadcast.Merkle.hash_chunks
    hbbft.Broadcast.Merkle.proof_eq
value_output = refl

messages-AtMostOnce_example : Returns AtMostOnce (history toy_hash messages_received started)
messages-AtMostOnce_example =
    messages-AtMostOnce no_code-Restores toy_hash four_nodes 20 messages_received started
      (omega arith) new-started

glue-split_example : glue 2 (split 2 2 (7 ∷ 8 ∷ [])) ≡ some (7 ∷ 8 ∷ [])
glue-split_example = glue-split 2 2 (7 ∷ 8 ∷ []) (omega arith) (omega arith)
