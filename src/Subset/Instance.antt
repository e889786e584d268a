-- ===== src/Subset/Instance.antt =====
-- src/subset/subset.rs: an instance of Subset, one proposal state for each validator.
use hbbft.Prelude.{
  ℕ, suc, ◌%◌, ◌^◌, ◌⊎◌, Bool, true, ◌||◌, none, some, List, [], ◌∷◌, ◌++◌, count, all, pop, ltb,
  ◌==◌, if◌then◌else◌, M, map_ok, false, Outcome, ok, err, panicked, exhausted, ◌>>=◌, ◌>>◌, return,
  gets, modify,
}
use hbbft.Prelude.BTreeMap.{BTreeMap, get, set, insert, values}
use hbbft.FaultLog.{NodeId}
use hbbft.Traits
use hbbft.Traits.{default, extend, join, extend_with}
use hbbft.Crypto.{Crypto}
use hbbft.NetworkInfo.{NetworkInfo, all_ids, num_correct}
use hbbft.Broadcast.Merkle.{Digest}
use hbbft.Broadcast.Coding.{ReedSolomon}
use hbbft.Subset.Proposal as Proposal
use hbbft.Subset.Proposal.{
  BaSessionId, Error, unknown_proposer, FaultKind, MessageContent, Message, ProposalState, Ps,
  received, is_accepted, is_complete,
}

pub data SubsetOutput : Type 0 where
  contribution : NodeId → List ℕ → SubsetOutput
  done : SubsetOutput

abbrev pub Step : (C : Crypto) → Type 0
Step C = Traits.Step (Message C) SubsetOutput FaultKind

pub record Subset (C : Crypto) (R : ReedSolomon) (S : Type 0) : Type 0 where
  pub netinfo : NetworkInfo C
  pub session_id : S
  pub proposal_states : BTreeMap (ProposalState C R S)
  pub decided : Bool

abbrev pub Su : Crypto → ReedSolomon → Type 0 → Type 0 → Type 0
Su C R S A = M (Subset C R S) (Error C) A

module _ {C : Crypto} where
  unfoldable pub convert_step : NodeId → Proposal.Step C → Step C
  convert_step proposer_id prop_step =
      let from_p_msg : MessageContent C → Message C =
        λ p_msg. record { proposer_id = proposer_id; content = p_msg } in
      let (step, output) = extend_with default prop_step (λ fault. fault) from_p_msg in
      elim (pop output) [
        | none ↦ step
        | some v ↦ record step { output = step.output ++ contribution proposer_id v ∷ [] }
      ]

module _ {C : Crypto} {R : ReedSolomon} {S : Type 0} where
  -- The loop of `new`.
  unfoldable pub initial_states :
      NetworkInfo C
      → S
      → ℕ
      → List NodeId
      → BTreeMap (ProposalState C R S)
      → Outcome (Error C) (BTreeMap (ProposalState C R S))
  initial_states netinfo session_id idx [] states = ok states
  initial_states netinfo session_id idx (id ∷ ids) states =
      elim (Proposal.new {R = R} netinfo
        (record { subset_id = session_id; proposer_idx = idx % 2 ^ 32 }) id) [
          | ok ps ↦ initial_states netinfo session_id (suc idx) ids (insert id ps states)
          | err e ↦ err e
          | panicked ↦ panicked
          | exhausted ↦ exhausted
        ]

  unfoldable pub new : NetworkInfo C → S → Outcome (Error C) (Subset C R S)
  new netinfo session_id = elim (initial_states netinfo session_id 0 (all_ids netinfo) []) [
    | ok states ↦ ok (record {
      netinfo = netinfo;
      session_id = session_id;
      proposal_states = states;
      decided = false;
    })
    | err e ↦ err e
    | panicked ↦ panicked
    | exhausted ↦ exhausted
  ]

  unfoldable pub received_proposals : Subset C R S → ℕ
  received_proposals s = count received (values s.proposal_states)

  unfoldable pub count_accepted : Subset C R S → ℕ
  count_accepted s = count is_accepted (values s.proposal_states)

  unfoldable pub all_complete : Subset C R S → Bool
  all_complete s = all is_complete (values s.proposal_states)

  -- A call of the proposal state of a proposer.
  unfoldable pub with_proposal : {A : Type 0} → NodeId → Ps C R S A → Su C R S A
  with_proposal id f s = elim (get s.proposal_states id) [
    | none ↦ (err unknown_proposer, s)
    | some ps ↦
        let (r, ps2) = f ps in (r, record s { proposal_states = set id ps2 s.proposal_states })
  ]

  -- The end of `try_output`.
  unfoldable pub finish : Step C → Su C R S (Step C)
  finish step = do
    finished ← gets all_complete
    if finished
        then (do
          modify (λ s. record s { decided = true })
          return (record step { output = step.output ++ done ∷ [] }))
        else return step

  -- One round of the loop of `try_output` over the proposal states: `later` is the rest of the
  -- loop, which an error does not reach.
  unfoldable pub vote_next :
      NodeId
      → BTreeMap (ProposalState C R S)
      → Outcome (Error C) (Proposal.Step C) × ProposalState C R S
      → Outcome (Error C) (Step C) × BTreeMap (ProposalState C R S)
      → Outcome (Error C) (Step C) × BTreeMap (ProposalState C R S)
  vote_next id rest (ok prop_step, ps) later =
      (map_ok (λ step. extend (convert_step id prop_step) step) later.0, (id, ps) ∷ later.1)
  vote_next id rest (err e, ps) later = (err e, (id, ps) ∷ rest)
  vote_next id rest (panicked, ps) later = (panicked, (id, ps) ∷ rest)
  vote_next id rest (exhausted, ps) later = (exhausted, (id, ps) ∷ rest)

  module _ (sha3_256 : List ℕ → Digest) (serialize_id : BaSessionId S → ℕ → List ℕ ⊎ List ℕ)
      (fuel : ℕ) where
    unfoldable pub vote_all : M (BTreeMap (ProposalState C R S)) (Error C) (Step C)
    vote_all [] = (ok default, [])
    vote_all ((proposer_id, ps) ∷ rest) =
        vote_next proposer_id rest (Proposal.vote_false sha3_256 serialize_id fuel ps)
          (vote_all rest)

    unfoldable pub vote_remaining : Su C R S (Step C)
    vote_remaining s =
        let (r, states) = vote_all s.proposal_states in (r, record s { proposal_states = states })

    unfoldable pub try_output : Su C R S (Step C)
    try_output = do
      early ← gets (λ s. s.decided || ltb (count_accepted s) (num_correct s.netinfo))
      if early then return default else (do
        enough ← gets (λ s. count_accepted s == num_correct s.netinfo)
        step ← Traits.when enough vote_remaining
        finish step)

    unfoldable pub propose : List ℕ → Su C R S (Step C)
    propose v = do
      validator ← gets (λ s. s.netinfo.is_validator)
      if validator
          then (do
            our_id ← gets (λ s. s.netinfo.our_id)
            prop_step ← with_proposal our_id (Proposal.propose sha3_256 serialize_id fuel v)
            out ← try_output
            return (join (convert_step our_id prop_step) out))
          else return default

    unfoldable pub handle_message : NodeId → Message C → Su C R S (Step C)
    handle_message sender_id msg = do
      prop_step ←
          with_proposal msg.proposer_id
            (Proposal.handle_message sha3_256 serialize_id fuel sender_id msg.content)
      out ← try_output
      return (join (convert_step msg.proposer_id prop_step) out)
