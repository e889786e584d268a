-- ===== src/Subset/Once.antt =====
-- src/subset/proposal_state.rs: the output of a proposal, counted against its state.
use hbbft.Prelude.{
  ℕ, ◌+◌, ◌≡◌, Bool, false, length, flag, arith, M, Outcome, ok, err, panicked, exhausted,
}
use hbbft.Crypto.{Crypto}
use hbbft.Broadcast.Coding.{ReedSolomon}
use hbbft.Broadcast.Instance as Bc
use hbbft.BinaryAgreement.Faults
use hbbft.BinaryAgreement.Instance as Ba
use hbbft.Subset.Proposal.{
  BaSessionId, Error, Step, ProposalState, ongoing, has_value, accepted, complete, convert_ba,
  convert_bc, handle_agreement, handle_broadcast,
}

-- How many values a call outputs; an error has no step.
abbrev pub outputs : {C : Crypto} → Outcome (Error C) (Step C) → ℕ
outputs (ok step) = length step.output
outputs (err e) = 0
outputs panicked = 0
outputs exhausted = 0

module _ {C : Crypto} {R : ReedSolomon} {S : Type 0} where
  -- Accepted, with the value.
  abbrev pub output_done : ProposalState C R S → Bool
  output_done (ongoing bc ba) = false
  output_done (has_value v ba) = false
  output_done (accepted bc) = false
  output_done (complete b) = b

  abbrev pub Settled :
      ProposalState C R S → Outcome (Error C) (Step C) × ProposalState C R S → Type 0
  Settled s r = outputs r.0 + flag (output_done s) ≡ flag (output_done r.1)

  pub agreement-Settled :
      (f : M (Ba.BinaryAgreement C (BaSessionId S)) (Faults.Error C) (Ba.Step C))
      (s : ProposalState C R S)
      → Settled s (handle_agreement f s)
  unfolding handle_agreement convert_ba
  agreement-Settled f (ongoing bc ba) = ground arith
  agreement-Settled f (has_value v ba) = ground arith
  agreement-Settled f (accepted bc) = omega arith
  agreement-Settled f (complete b) = omega arith

  -- Whatever the broadcast and the agreement do: a call outputs a value exactly when the proposal
  -- becomes complete and accepted by it, and an error has not made it so.
  pub broadcast-Settled :
      (vote : Bool → M (Ba.BinaryAgreement C (BaSessionId S)) (Faults.Error C) (Ba.Step C))
      (f : M (Bc.Broadcast C R) Bc.Error Bc.Step) (s : ProposalState C R S)
      → Settled s (handle_broadcast vote f s)
  unfolding handle_broadcast handle_agreement convert_bc convert_ba
  broadcast-Settled vote f (ongoing bc ba) = ground (arith)
  broadcast-Settled vote f (has_value v ba) = omega arith
  broadcast-Settled vote f (accepted bc) = ground arith
  broadcast-Settled vote f (complete b) = omega arith
