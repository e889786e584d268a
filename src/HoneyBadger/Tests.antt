-- ===== src/HoneyBadger/Tests.antt =====
-- An instance of four nodes, and the theorems at concrete inputs.
use hbbft.Prelude.{
  ℕ, ◌+◌, ◌*◌, ◌≡◌, refl, arith, ◌⊎◌, inr, List, [], ◌∷◌, keep, map, Option, none, some, true,
  false, is_some, all, if◌then◌else◌, ◌==◌, Returns,
}
use hbbft.Prelude.BTreeMap.{get}
use hbbft.Prelude.BTreeSet.{contains}
use hbbft.FaultLog.{FaultLog}
use hbbft.Samples.{toy, four_nodes, toy_hash, no_code}
use hbbft.Subset.Proposal.{BaSessionId}
use hbbft.HoneyBadger.Schedule.{default, never, every_nth_epoch, tick_tock}
use hbbft.HoneyBadger.Content.{Codec, EpochId, Batch, FaultKind, decryption_share, with_epoch}
use hbbft.HoneyBadger.Decryption.{complete}
use hbbft.HoneyBadger.Epoch.{EpochState, decided, at_once}
use hbbft.HoneyBadger.Output.{try_output_batch}
use hbbft.HoneyBadger.Instance.{HoneyBadger, next_batch, try_output_batches}
use hbbft.HoneyBadger.Builder.{new, build, with_schedule}
use hbbft.HoneyBadger.Batches.{IsNumbered, Emits, try_output_batches-Ends}
use hbbft.HoneyBadger.History.{Event, input, receive, history, history-Emits}
use hbbft.HoneyBadger.Encryption.{encrypted, encrypted-periods}
use hbbft.HoneyBadger.Contributions.{plaintext, contributed, fails, try_output_batch_lem}

-- Contributions are byte strings; those that start with 0 do not deserialize. A ciphertext is
-- its first byte.
abbrev bytes : Codec toy
bytes = record {
  Contribution = List ℕ;
  BincodeError = ℕ;
  Rng = ℕ;
  serialize = λ v. inr v;
  deserialize = read;
  serialize_ciphertext = λ ct. inr (ct ∷ []);
  deserialize_ciphertext = λ v. elim v [ [] ↦ none | x ∷ xs ↦ some x ];
  encrypt_with_rng = λ key rng v. rng;
}
  where
    read : List ℕ → Option (List ℕ)
    read [] = some []
    read (x ∷ xs) = if x == 0 then none else some (x ∷ xs)

abbrev serialize_toy : BaSessionId EpochId → ℕ → List ℕ ⊎ List ℕ
serialize_toy id epoch = inr (id.subset_id.epoch ∷ id.proposer_idx ∷ epoch ∷ [])

started : HoneyBadger toy no_code
started = build (with_schedule (new four_nodes) never)

started-IsNumbered : IsNumbered started
unfolding started build
started-IsNumbered = tt

-- Node 10 proposes, and node 20 sends a share for the next epoch.
abbrev events : List (Event toy bytes)
events =
    input (7 ∷ 8 ∷ []) 3
    ∷ receive 20 (with_epoch (decryption_share 30 (record { share = 5 })) 1)
    ∷ []

history-Emits_example :
    let h = history {R = no_code} bytes toy_hash serialize_toy 9 events started in
    Emits started h.0 h.1
history-Emits_example =
    history-Emits bytes toy_hash serialize_toy 9 events started started-IsNumbered

-- An epoch in which nodes 10 and 20 are accepted, and the plaintext of 20 does not deserialize.
abbrev ending : ℕ → EpochState toy no_code
ending n = record {
  epoch = n;
  netinfo = four_nodes;
  subset = decided (10 ∷ 20 ∷ []);
  decryption = (10, complete (7 ∷ [])) ∷ (20, complete (0 ∷ [])) ∷ [];
  accepted_proposers = 10 ∷ 20 ∷ [];
  subset_handler = at_once;
  require_decryption = false;
}

-- An instance whose epochs 0 and 1 can end.
abbrev two_ready : HoneyBadger toy no_code
two_ready = record {
  netinfo = four_nodes;
  session_id = 5;
  epoch = 0;
  has_input = true;
  epochs = (0, ending 0) ∷ (1, ending 1) ∷ [];
  params = default;
}

try_output_batches-Ends_example :
    Returns
      (λ out t. Emits two_ready out.output t × (next_batch bytes t ≡ none))
      (try_output_batches {B = bytes} two_ready)
try_output_batches-Ends_example = try_output_batches-Ends bytes two_ready (refl, (refl, tt))

try_output_batch_example :
    (is_some (try_output_batch bytes (ending 3))
      ≡ all (λ id. is_some (plaintext (get (ending 3).decryption id))) (10 ∷ 20 ∷ []))
    × ((batch : Batch (List ℕ)) (log : FaultLog FaultKind)
        → try_output_batch bytes (ending 3) ≡ some (batch, log)
        → (batch.epoch ≡ 3)
          × ((j : ℕ)
              → get batch.contributions j ≡ (
                  if contains (10 ∷ 20 ∷ []) j
                  then contributed bytes (ending 3).decryption j
                  else none))
          × (map (λ f. f.node_id) log ≡ keep (fails bytes (ending 3).decryption) (10 ∷ 20 ∷ [])))
try_output_batch_example = try_output_batch_lem bytes (ending 3) (10 ∷ 20 ∷ []) refl

encrypted-periods_example :
    (encrypted (every_nth_epoch 4) (4 * 2) 4 ≡ 1)
    × (encrypted (tick_tock 3 2) ((3 + 2) * 2) (3 + 2) ≡ 3 + 1)
encrypted-periods_example = encrypted-periods 2 4 3 2 (omega arith) (omega arith) (omega arith)
