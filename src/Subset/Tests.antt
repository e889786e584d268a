-- ===== src/Subset/Tests.antt =====
-- An instance of four nodes, and the theorems at concrete inputs.
use hbbft.Prelude.{
  M, ℕ, ◌≡◌, ◌≤◌, refl, arith, ◌⊎◌, inr, List, [], ◌∷◌, count, ◌==◌, ok, Outcome, flag, length,
  Bool, true, false,
}
use hbbft.Prelude.BTreeMap.{keys}
use hbbft.Samples.{toy, four_nodes, toy_hash, no_code}
use hbbft.Subset.Proposal.{
  BaSessionId, ProposalState, accepted, handle_broadcast, agreement, broadcast, Message,
}
use hbbft.Subset.Instance.{Subset, new, SubsetOutput}
use hbbft.Subset.Accounts.{is_contribution, is_done}
use hbbft.Subset.History.{Event, input, receive, history, history-contributions}
use hbbft.Subset.Once.{Settled, broadcast-Settled}
use hbbft.Traits.{default, with_output}
use hbbft.Broadcast.Coding.{reed_solomon}
use hbbft.Broadcast.Instance.{Broadcast, Error, Step}
use hbbft.BinaryAgreement.Handlers.{propose}
use hbbft.BinaryAgreement.Content.{term}

abbrev serialize_toy : BaSessionId ℕ → ℕ → List ℕ ⊎ List ℕ
serialize_toy id epoch = inr (id.subset_id ∷ id.proposer_idx ∷ epoch ∷ [])

started : Subset toy no_code ℕ
started = elim (new {R = no_code} four_nodes 5) [
  | ok s ↦ s
  | _ ↦ record { netinfo = four_nodes; session_id = 5; proposal_states = []; decided = false }
]

term_for : ℕ → ℕ → Bool → Event toy
term_for proposer sender b = receive sender (record {
  proposer_id = proposer;
  content = agreement (record { epoch = 0; content = term b });
})

-- Node 10 proposes, and two nodes say that the agreement on its proposal ended with `true`.
events : List (Event toy)
events = input (7 ∷ 8 ∷ []) ∷ term_for 10 20 true ∷ term_for 10 30 true ∷ []

once : count (λ k. k == 10) (keys started.proposal_states) ≤ 1
unfolding started new hbbft.Subset.Instance.initial_states hbbft.Subset.Proposal.new
    hbbft.Broadcast.Instance.new hbbft.Broadcast.Coding.new hbbft.Prelude.BTreeMap.insert
once = omega arith

history-contributions_example :
    let h = history toy_hash serialize_toy 9 events started in
    (count (is_contribution 10) h.0 ≤ 1) × (count is_done h.0 ≤ flag h.1.decided)
history-contributions_example =
    history-contributions toy_hash serialize_toy 9 events started 10 once

-- A broadcast that has delivered nothing yet, for a proposal that is accepted already.
abbrev awaiting : ProposalState toy no_code ℕ
awaiting = accepted (record {
  netinfo = four_nodes;
  proposer_id = 20;
  coding = reed_solomon (2, 2);
  value_sent = false;
  echo_sent = false;
  ready_sent = false;
  decided = false;
  echos = [];
  readys = [];
})

deliver : M (Broadcast toy no_code) Error Step
deliver bc = (ok (with_output default (7 ∷ [])), bc)

broadcast-Settled_example :
    Settled awaiting (handle_broadcast (propose serialize_toy 9) deliver awaiting)
broadcast-Settled_example = broadcast-Settled (propose serialize_toy 9) deliver awaiting
