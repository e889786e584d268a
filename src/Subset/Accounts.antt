-- ===== src/Subset/Accounts.antt =====
-- src/subset/subset.rs: the outputs of a call, counted against the change of the state.
use hbbft.Prelude.{
  ℕ, ◌+◌, ◌≤◌, ◌<◌, ◌≡◌, refl, ap, Bool, true, false, ◌&&◌, some, Option-cases, Bool-cases, inl,
  inr, length, flag, count, count-append, pop, arith, Outcome, ok, err, panicked, exhausted, List,
  [], ◌∷◌, ◌==◌, ◌⊎◌, map_ok, if◌then◌else◌,
}
use hbbft.Prelude.BTreeMap.{BTreeMap, get, set, keys}
use hbbft.FaultLog.{NodeId}
use hbbft.Crypto.{Crypto}
use hbbft.Broadcast.Merkle.{Digest}
use hbbft.Broadcast.Coding.{ReedSolomon}
use hbbft.Subset.Proposal as Proposal
use hbbft.Subset.Proposal.{BaSessionId, Error, ProposalState, Message, Ps}
use hbbft.Subset.Once.{output_done, Settled, agreement-Settled, broadcast-Settled}
use hbbft.Subset.Instance.{
  SubsetOutput, contribution, done, Step, convert_step, vote_next, vote_all,
}

abbrev pub is_contribution : NodeId → SubsetOutput → Bool
is_contribution id (contribution j v) = j == id
is_contribution id done = false

abbrev pub is_done : SubsetOutput → Bool
is_done (contribution j v) = false
is_done done = true

-- The outputs of a call; an error has no step.
abbrev pub outputs_of : {C : Crypto} → Outcome (Error C) (Step C) → List SubsetOutput
outputs_of (ok step) = step.output
outputs_of (err e) = []
outputs_of panicked = []
outputs_of exhausted = []

pop-some : (xs : List (List ℕ)) (v : List ℕ) → pop xs ≡ some v → 0 < length xs
pop-some [] v e = absurd (cc)
pop-some (x ∷ xs) v e = omega arith

convert_step-contribution :
    {C : Crypto} (p id : NodeId) (step : Proposal.Step C)
    → count (is_contribution id) (convert_step p step).output
      ≤ (if p == id then length step.output else 0)
unfolding convert_step
convert_step-contribution p id step = elim (Option-cases (pop step.output)) [
  | inl nothing ↦ ground arith
  | inr (v, last) ↦ ground (arith, pop-some step.output v last)
]

pub convert_step-done :
    {C : Crypto} (p : NodeId) (step : Proposal.Step C)
    → count is_done (convert_step p step).output ≡ 0
unfolding convert_step
convert_step-done p step = ground arith

module _ {C : Crypto} {R : ReedSolomon} {S : Type 0} where
  -- How many proposals of a proposer have output.
  abbrev pub settled : NodeId → BTreeMap (ProposalState C R S) → ℕ
  settled id = count (λ e. (e.0 == id) && output_done e.1)

  pub settled-set :
      (id p : NodeId) (old ps : ProposalState C R S) (m : BTreeMap (ProposalState C R S))
      → get m p ≡ some old
      → settled id (set p ps m) + flag ((p == id) && output_done old)
        ≡ settled id m + flag ((p == id) && output_done ps)
  unfolding get set
  settled-set id p old ps [] e = absurd (cc)
  settled-set id p old ps ((j, q) ∷ m) e = elim (Bool-cases (j == p)) [
    | inl here ↦ let same : q ≡ old = ground arith in ground arith
    | inr there ↦
        let later : get m p ≡ some old = ground arith in
        ground (arith, settled-set id p old ps m later)
  ]

  pub keys-set :
      (p : NodeId) (ps : ProposalState C R S) (m : BTreeMap (ProposalState C R S))
      → keys (set p ps m) ≡ keys m
  unfolding set
  keys-set p ps [] = refl
  keys-set p ps ((j, q) ∷ m) = elim (Bool-cases (j == p)) [
    | inl here ↦ rw here refl
    | inr there ↦ rw there (ap (λ r. j ∷ r) (keys-set p ps m))
  ]

  pub settled-le :
      (id : NodeId) (m : BTreeMap (ProposalState C R S))
      → settled id m ≤ count (λ k. k == id) (keys m)
  settled-le id [] = omega arith
  settled-le id ((j, q) ∷ m) = ground (arith, settled-le id m)

module _ {C : Crypto} {R : ReedSolomon} {S : Type 0} where
  -- The outputs of a call against the proposal states before and after it.
  pub record States (before : BTreeMap (ProposalState C R S)) (r : Outcome (Error C) (Step C))
      (after : BTreeMap (ProposalState C R S)) : Type 0 where
    pub contributions :
        (id : NodeId)
        → count (is_contribution id) (outputs_of r) + settled id before ≤ settled id after
    pub no_done : count is_done (outputs_of r) ≡ 0
    pub proposers : keys after ≡ keys before

  -- One proposal state, and the step of its call under the ID of the proposer.
  pub States-one :
      (p : NodeId) (ps : ProposalState C R S)
      (r : Outcome (Error C) (Proposal.Step C) × ProposalState C R S)
      → Settled ps r
      → (id : NodeId)
      → count (is_contribution id) (outputs_of (map_ok (convert_step p) r.0))
          + flag ((p == id) && output_done ps)
        ≤ flag ((p == id) && output_done r.1)
  States-one p ps (ok step, ps2) h id = ground (arith, h, convert_step-contribution p id step)
  States-one p ps (err e, ps2) h id = ground (arith, h)
  States-one p ps (panicked, ps2) h id = ground (arith, h)
  States-one p ps (exhausted, ps2) h id = ground (arith, h)

  -- A state ahead of states that do not change.
  States-stopped :
      (p : NodeId) (ps ps2 : ProposalState C R S) (m : BTreeMap (ProposalState C R S))
      (r : Outcome (Error C) (Step C))
      → outputs_of r ≡ []
      → output_done ps ≡ output_done ps2
      → States ((p, ps) ∷ m) r ((p, ps2) ∷ m)
  States-stopped p ps ps2 m r quiet same = record {
    contributions = λ id. rw (quiet, same) (omega arith);
    no_done = rw quiet refl;
    proposers = refl;
  }

  vote_next-States :
      (p : NodeId) (ps : ProposalState C R S) (m : BTreeMap (ProposalState C R S))
      (r : Outcome (Error C) (Proposal.Step C) × ProposalState C R S)
      (later : Outcome (Error C) (Step C) × BTreeMap (ProposalState C R S))
      → Settled ps r
      → States m later.0 later.1
      → States ((p, ps) ∷ m) (vote_next p m r later).0 (vote_next p m r later).1
  unfolding vote_next
  vote_next-States p ps m (ok step, ps2) (ok more, m2) h k = record {
    contributions = λ id. ground (
      arith,
      States-one p ps (ok step, ps2) h id,
      k.contributions id,
      count-append (is_contribution id) (convert_step p step).output more.output,
    );
    no_done = ground (
      arith,
      k.no_done,
      convert_step-done p step,
      count-append is_done (convert_step p step).output more.output,
    );
    proposers = ap (λ r. p ∷ r) k.proposers;
  }
  vote_next-States p ps m (ok step, ps2) (err e, m2) h k = record {
    contributions = λ id. ground (arith, States-one p ps (ok step, ps2) h id, k.contributions id);
    no_done = refl;
    proposers = ap (λ r. p ∷ r) k.proposers;
  }
  vote_next-States p ps m (ok step, ps2) (panicked, m2) h k = record {
    contributions = λ id. ground (arith, States-one p ps (ok step, ps2) h id, k.contributions id);
    no_done = refl;
    proposers = ap (λ r. p ∷ r) k.proposers;
  }
  vote_next-States p ps m (ok step, ps2) (exhausted, m2) h k = record {
    contributions = λ id. ground (arith, States-one p ps (ok step, ps2) h id, k.contributions id);
    no_done = refl;
    proposers = ap (λ r. p ∷ r) k.proposers;
  }
  vote_next-States p ps m (err e, ps2) later h k =
      States-stopped p ps ps2 m (err e) refl (ground (arith, h))
  vote_next-States p ps m (panicked, ps2) later h k =
      States-stopped p ps ps2 m panicked refl (ground (arith, h))
  vote_next-States p ps m (exhausted, ps2) later h k =
      States-stopped p ps ps2 m exhausted refl (ground (arith, h))

  module _ (sha3_256 : List ℕ → Digest) (serialize_id : BaSessionId S → ℕ → List ℕ ⊎ List ℕ)
      (fuel : ℕ) where
    vote_false-Settled :
        (ps : ProposalState C R S) → Settled ps (Proposal.vote_false sha3_256 serialize_id fuel ps)
    unfolding Proposal.vote_false
    vote_false-Settled ps = agreement-Settled _ ps

    pub propose-Settled :
        (v : List ℕ) (ps : ProposalState C R S)
        → Settled ps (Proposal.propose sha3_256 serialize_id fuel v ps)
    unfolding Proposal.propose
    propose-Settled v ps = broadcast-Settled _ _ ps

    pub handle_message-Settled :
        (id : NodeId) (msg : Proposal.MessageContent C) (ps : ProposalState C R S)
        → Settled ps (Proposal.handle_message sha3_256 serialize_id fuel id msg ps)
    unfolding Proposal.handle_message
    handle_message-Settled id (Proposal.agreement m) ps = agreement-Settled _ ps
    handle_message-Settled id (Proposal.broadcast m) ps = broadcast-Settled _ _ ps

    pub vote_all-States :
        (m : BTreeMap (ProposalState C R S))
        → States m
            (vote_all sha3_256 serialize_id fuel m).0
            (vote_all sha3_256 serialize_id fuel m).1
    unfolding vote_all
    vote_all-States [] = record {
      contributions = λ id. omega arith;
      no_done = refl;
      proposers = refl;
    }
    vote_all-States ((p, ps) ∷ m) =
        vote_next-States p ps m (Proposal.vote_false sha3_256 serialize_id fuel ps)
          (vote_all sha3_256 serialize_id fuel m) (vote_false-Settled ps) (vote_all-States m)
