-- ===== src/Subset/Proposal.antt =====
-- src/subset/proposal_state.rs, src/subset/message.rs, src/subset/error.rs: the broadcast and the
-- agreement about one proposal.
use hbbft.Prelude.{
  ℕ, ◌⊎◌, Bool, true, false, Option, none, some, List, pop, M, Outcome, ok, err, panicked,
  exhausted,
}
use hbbft.FaultLog.{NodeId}
use hbbft.Traits
use hbbft.Traits.{default, join, with_output, extend_with}
use hbbft.Crypto.{Crypto}
use hbbft.NetworkInfo.{NetworkInfo}
use hbbft.BinaryAgreement.Faults
use hbbft.BinaryAgreement.Content
use hbbft.BinaryAgreement.Instance as Ba
use hbbft.BinaryAgreement.Handlers
use hbbft.Broadcast.Merkle.{Digest}
use hbbft.Broadcast.Coding.{ReedSolomon}
use hbbft.Broadcast.Instance as Bc

-- `BaSessionId`: the number of the proposer is a `u32`.
pub record BaSessionId (S : Type 0) : Type 0 where
  pub subset_id : S
  pub proposer_idx : ℕ

pub data Error (C : Crypto) : Type 0 where
  new_agreement : Faults.Error C → Error C
  new_broadcast : Bc.Error → Error C
  handle_broadcast_error : Bc.Error → Error C
  handle_agreement_error : Faults.Error C → Error C
  unknown_proposer : Error C

pub data FaultKind : Type 0 where
  broadcast_fault : Bc.FaultKind → FaultKind
  ba_fault : Faults.FaultKind → FaultKind

pub data MessageContent (C : Crypto) : Type 0 where
  broadcast : Bc.Message → MessageContent C
  agreement : Content.Message C → MessageContent C

pub record Message (C : Crypto) : Type 0 where
  pub proposer_id : NodeId
  pub content : MessageContent C

abbrev pub Step : (C : Crypto) → Type 0
Step C = Traits.Step (MessageContent C) (List ℕ) FaultKind

pub data ProposalState (C : Crypto) (R : ReedSolomon) (S : Type 0) : Type 0 where
  ongoing : Bc.Broadcast C R → Ba.BinaryAgreement C (BaSessionId S) → ProposalState C R S
  has_value : List ℕ → Ba.BinaryAgreement C (BaSessionId S) → ProposalState C R S
  accepted : Bc.Broadcast C R → ProposalState C R S
  complete : Bool → ProposalState C R S

abbrev pub Ps : Crypto → ReedSolomon → Type 0 → Type 0 → Type 0
Ps C R S A = M (ProposalState C R S) (Error C) A

-- A converted step, with the output taken out of it.
abbrev pub converted :
    {C : Crypto} {O : Type 0} {F : Type 0} {N : Type 0}
    → (F → FaultKind)
    → (N → MessageContent C)
    → Traits.Step N O F
    → Option O × Step C
converted f_fail f_msg inner =
    let (step, output) = extend_with default inner f_fail f_msg in (pop output, step)

module _ {C : Crypto} where
  unfoldable pub convert_bc :
      Outcome Bc.Error Bc.Step → Outcome (Error C) (Option (List ℕ) × Step C)
  convert_bc (ok inner) = ok (converted broadcast_fault broadcast inner)
  convert_bc (err e) = err (handle_broadcast_error e)
  convert_bc panicked = panicked
  convert_bc exhausted = exhausted

  unfoldable pub convert_ba :
      Outcome (Faults.Error C) (Ba.Step C) → Outcome (Error C) (Option Bool × Step C)
  convert_ba (ok inner) = ok (converted ba_fault agreement inner)
  convert_ba (err e) = err (handle_agreement_error e)
  convert_ba panicked = panicked
  convert_ba exhausted = exhausted

module _ {C : Crypto} {R : ReedSolomon} {S : Type 0} where
  unfoldable pub received : ProposalState C R S → Bool
  received (ongoing bc ba) = false
  received (accepted bc) = false
  received (has_value v ba) = true
  received (complete b) = b

  unfoldable pub is_accepted : ProposalState C R S → Bool
  is_accepted (ongoing bc ba) = false
  is_accepted (has_value v ba) = false
  is_accepted (accepted bc) = true
  is_accepted (complete b) = b

  unfoldable pub is_complete : ProposalState C R S → Bool
  is_complete (ongoing bc ba) = false
  is_complete (has_value v ba) = false
  is_complete (accepted bc) = false
  is_complete (complete b) = true

  -- A panic leaves the temporary value of `transition`.
  unfoldable pub handle_agreement :
      M (Ba.BinaryAgreement C (BaSessionId S)) (Faults.Error C) (Ba.Step C) → Ps C R S (Step C)
  handle_agreement f (ongoing bc ba) =
      let (r, ba2) = f ba in
      elim (convert_ba {C = C} r) [
        | ok (none, step) ↦ (ok step, ongoing bc ba2)
        | ok (some false, step) ↦ (ok step, complete false)
        | ok (some true, step) ↦ (ok step, accepted bc)
        | err e ↦ (err e, ongoing bc ba2)
        | panicked ↦ (panicked, complete false)
        | exhausted ↦ (exhausted, complete false)
      ]
  handle_agreement f (has_value v ba) =
      let (r, ba2) = f ba in
      elim (convert_ba {C = C} r) [
        | ok (none, step) ↦ (ok step, has_value v ba2)
        | ok (some false, step) ↦ (ok step, complete false)
        | ok (some true, step) ↦ (ok (with_output step v), complete true)
        | err e ↦ (err e, has_value v ba2)
        | panicked ↦ (panicked, complete false)
        | exhausted ↦ (exhausted, complete false)
      ]
  handle_agreement f (accepted bc) = (ok default, accepted bc)
  handle_agreement f (complete b) = (ok default, complete b)

  -- `result.map(|vote_step| step.join(vote_step))`.
  abbrev pub joined :
      Step C
      → Outcome (Error C) (Step C) × ProposalState C R S
      → Outcome (Error C) (Step C) × ProposalState C R S
  joined step (ok vote_step, t) = (ok (join step vote_step), t)
  joined step (err e, t) = (err e, t)
  joined step (panicked, t) = (panicked, t)
  joined step (exhausted, t) = (exhausted, t)

  -- `vote` is `propose` of the agreement.
  unfoldable pub handle_broadcast :
      (Bool → M (Ba.BinaryAgreement C (BaSessionId S)) (Faults.Error C) (Ba.Step C))
      → M (Bc.Broadcast C R) Bc.Error Bc.Step
      → Ps C R S (Step C)
  handle_broadcast vote f (ongoing bc ba) =
      let (r, bc2) = f bc in
      elim (convert_bc {C = C} r) [
        | ok (none, step) ↦ (ok step, ongoing bc2 ba)
        | ok (some v, step) ↦ joined step (handle_agreement (vote true) (has_value v ba))
        | err e ↦ (err e, ongoing bc2 ba)
        | panicked ↦ (panicked, complete false)
        | exhausted ↦ (exhausted, complete false)
      ]
  handle_broadcast vote f (accepted bc) =
      let (r, bc2) = f bc in
      elim (convert_bc {C = C} r) [
        | ok (none, step) ↦ (ok step, accepted bc2)
        | ok (some v, step) ↦ (ok (with_output step v), complete true)
        | err e ↦ (err e, accepted bc2)
        | panicked ↦ (panicked, complete false)
        | exhausted ↦ (exhausted, complete false)
      ]
  handle_broadcast vote f (has_value v ba) = (ok default, has_value v ba)
  handle_broadcast vote f (complete b) = (ok default, complete b)

  -- `BinaryAgreement::new` always succeeds.
  unfoldable pub new :
      NetworkInfo C → BaSessionId S → NodeId → Outcome (Error C) (ProposalState C R S)
  new netinfo ba_id prop_id = elim (Bc.new {R = R} netinfo prop_id) [
    | ok bc ↦ ok (ongoing bc (Ba.new netinfo ba_id))
    | err e ↦ err (new_broadcast e)
    | panicked ↦ panicked
    | exhausted ↦ exhausted
  ]

  module _ (sha3_256 : List ℕ → Digest) (serialize_id : BaSessionId S → ℕ → List ℕ ⊎ List ℕ)
      (fuel : ℕ) where
    unfoldable pub propose : List ℕ → Ps C R S (Step C)
    propose v = handle_broadcast (Handlers.propose serialize_id fuel) (Bc.broadcast sha3_256 v)

    unfoldable pub handle_message : NodeId → MessageContent C → Ps C R S (Step C)
    handle_message sender_id (agreement ba_msg) =
        handle_agreement (Handlers.handle_message serialize_id fuel sender_id ba_msg)
    handle_message sender_id (broadcast bc_msg) =
        handle_broadcast (Handlers.propose serialize_id fuel)
          (Bc.handle_message sha3_256 sender_id bc_msg)

    unfoldable pub vote_false : Ps C R S (Step C)
    vote_false = handle_agreement (Handlers.propose serialize_id fuel false)
