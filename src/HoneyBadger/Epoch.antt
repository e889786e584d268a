-- ===== src/HoneyBadger/Epoch.antt =====
-- src/honey_badger/epoch_state.rs: the subset of contributions of one epoch, and their decryption.
use hbbft.Prelude.{
  ℕ, ◌⊎◌, inl, inr, Bool, true, false, not, Option, none, some, List, [], ◌∷◌, ◌++◌, head?, length,
  if◌then◌else◌, M, Outcome, ok, err, panicked, exhausted, ◌>>=◌, ◌>>◌, return, gets, modify,
  map_err,
}
use hbbft.Prelude.BTreeMap.{BTreeMap, get, insert}
use hbbft.Prelude.BTreeSet as Set
use hbbft.Prelude.BTreeSet.{BTreeSet, contains}
use hbbft.FaultLog.{NodeId}
use hbbft.Traits.{default, extend, extend_with, from_fault}
use hbbft.Crypto.{Crypto}
use hbbft.NetworkInfo.{NetworkInfo}
use hbbft.Broadcast.Merkle.{Digest}
use hbbft.Broadcast.Coding.{ReedSolomon}
use hbbft.Subset.Proposal as Subset
use hbbft.Subset.Proposal.{BaSessionId}
use hbbft.Subset.Instance as Cs
use hbbft.Subset.Instance.{SubsetOutput, contribution, done}
use hbbft.ThresholdDecrypt as Td
use hbbft.HoneyBadger.Decryption.{
  DecryptionState, complete, handle_share, set_ciphertext, or_new, remove_faulty, faulty_shares,
}
use hbbft.HoneyBadger.Schedule.{SubsetHandlingStrategy, incremental, all_at_end}
use hbbft.HoneyBadger.Content.{
  Codec, EpochId, MessageContent, subset, decryption_share, with_epoch, Error, propose_bincode,
  create_subset, input_subset, handle_subset_message, threshold_decrypt,
  unexpected_decryption_share, deserialize_ciphertext_failed, invalid_ciphertext_fault,
  subset_fault, decryption_fault, Step,
}

pub data SubsetState (C : Crypto) (R : ReedSolomon) : Type 0 where
  undecided : Cs.Subset C R EpochId → SubsetState C R
  decided : BTreeSet → SubsetState C R

pub data SubsetHandler : Type 0 where
  at_once : SubsetHandler
  collected : List (NodeId × List ℕ) → SubsetHandler

-- `From<SubsetHandlingStrategy>`.
abbrev pub handler_from : SubsetHandlingStrategy → SubsetHandler
handler_from incremental = at_once
handler_from all_at_end = collected []

pub record SubsetHandleData : Type 0 where
  pub contributions : List (NodeId × List ℕ)
  pub is_done : Bool

abbrev pub handle_output : SubsetHandler → SubsetOutput → SubsetHandleData × SubsetHandler
handle_output at_once (contribution p v) =
    (record { contributions = (p, v) ∷ []; is_done = false }, at_once)
handle_output (collected cs) (contribution p v) =
    (record { contributions = []; is_done = false }, collected (cs ++ (p, v) ∷ []))
handle_output at_once done = (record { contributions = []; is_done = true }, at_once)
handle_output (collected cs) done = (record { contributions = cs; is_done = true }, collected [])

-- Its fields, with the type of the contributions only in the outputs.
pub record EpochState (C : Crypto) (R : ReedSolomon) : Type 0 where
  pub epoch : ℕ
  pub netinfo : NetworkInfo C
  pub subset : SubsetState C R
  pub decryption : BTreeMap (DecryptionState C)
  pub accepted_proposers : BTreeSet
  pub subset_handler : SubsetHandler
  pub require_decryption : Bool

abbrev pub Es : (C : Crypto) → ReedSolomon → Codec C → Type 0 → Type 0
Es C R B A = M (EpochState C R) (Error C B) A

unfoldable pub received_in : {C : Crypto} {R : ReedSolomon} → SubsetState C R → ℕ
received_in (undecided cs) = Cs.received_proposals cs
received_in (decided ids) = length ids

abbrev pub accepted_ids : {C : Crypto} {R : ReedSolomon} → SubsetState C R → Option BTreeSet
accepted_ids (undecided cs) = none
accepted_ids (decided ids) = some ids

unfoldable pub received_proposals : {C : Crypto} {R : ReedSolomon} → EpochState C R → ℕ
received_proposals s = received_in s.subset

module _ {C : Crypto} {R : ReedSolomon} where
  -- A call of the decryption for a proposer, which is new where there was none.
  unfoldable pub with_decryption :
      NodeId
      → M (DecryptionState C) (Td.Error C) (Td.Step C)
      → M (EpochState C R) (Td.Error C) (Td.Step C)
  with_decryption proposer_id f s =
      let (r, ds) = f (or_new s.netinfo (get s.decryption proposer_id)) in
      (r, record s { decryption = insert proposer_id ds s.decryption })

  -- The output of a decryption, where there is one.
  unfoldable pub set_plaintext : NodeId → Option (List ℕ) → EpochState C R → EpochState C R
  set_plaintext proposer_id none s = s
  set_plaintext proposer_id (some output) s = record s {
    decryption = insert proposer_id (complete output) s.decryption;
  }

  unfoldable pub is_unexpected : SubsetState C R → NodeId → Bool
  is_unexpected st proposer_id = elim (accepted_ids st) [
    | none ↦ false
    | some ids ↦ not (contains ids proposer_id)
  ]

-- The serialized contribution, encrypted if the epoch asks for it.
unfoldable pub encode :
    {C : Crypto} (B : Codec C)
    → NetworkInfo C
    → Bool
    → B.Rng
    → B.Contribution
    → B.BincodeError ⊎ List ℕ
encode {C = C} B netinfo require_decryption rng proposal = elim (B.serialize proposal) [
  | inl e ↦ inl e
  | inr ser_prop ↦
      if require_decryption
      then B.serialize_ciphertext
          (B.encrypt_with_rng (C.public_key netinfo.public_key_set) rng ser_prop)
      else inr ser_prop
]

-- What `process_subset` does when the set is decided.
unfoldable pub finish_subset :
    {C : Crypto} {R : ReedSolomon} (B : Codec C)
    → Step C B
    → EpochState C R
    → Step C B × EpochState C R
finish_subset B step s =
    let (log, rest) =
      remove_faulty (faulty_shares s.accepted_proposers s.decryption) s.decryption step.fault_log in
    (
      record step { fault_log = log },
      record s { subset = decided s.accepted_proposers; decryption = rest },
    )

module _ {C : Crypto} {R : ReedSolomon} {B : Codec C} where
  unfoldable pub new :
      NetworkInfo C → ℕ → ℕ → SubsetHandlingStrategy → Bool → Outcome (Error C B) (EpochState C R)
  new netinfo hb_id epoch strategy require_decryption =
      elim (Cs.new {R = R} netinfo (record { hb_id = hb_id; epoch = epoch })) [
        | ok cs ↦ ok (record {
          epoch = epoch;
          netinfo = netinfo;
          subset = undecided cs;
          decryption = [];
          accepted_proposers = [];
          subset_handler = handler_from strategy;
          require_decryption = require_decryption;
        })
        | err e ↦ err (create_subset e)
        | panicked ↦ panicked
        | exhausted ↦ exhausted
      ]

  unfoldable pub process_decryption : NodeId → Td.Step C → Es C R B (Step C B)
  process_decryption proposer_id td_step s =
      let (step, opt_output) =
        extend_with default td_step decryption_fault
          (λ share. with_epoch (decryption_share proposer_id share) s.epoch) in
      (ok step, set_plaintext proposer_id (head? opt_output) s)

  -- The end of `send_decryption_share`.
  unfoldable pub decrypted :
      NodeId
      → Outcome (Td.Error C) (Td.Step C) × EpochState C R
      → Outcome (Error C B) (Step C B) × EpochState C R
  decrypted proposer_id (ok td_step, s) = process_decryption proposer_id td_step s
  decrypted proposer_id (err (Td.invalid_ciphertext ct), s) =
      (ok (from_fault proposer_id invalid_ciphertext_fault), s)
  decrypted proposer_id (err e, s) = (err (threshold_decrypt e), s)
  decrypted proposer_id (panicked, s) = (panicked, s)
  decrypted proposer_id (exhausted, s) = (exhausted, s)

  unfoldable pub send_decryption_share : NodeId → List ℕ → Es C R B (Step C B)
  send_decryption_share proposer_id v s = elim (B.deserialize_ciphertext v) [
    | none ↦ (ok (from_fault proposer_id deserialize_ciphertext_failed), s)
    | some ct ↦ decrypted proposer_id (with_decryption proposer_id (set_ciphertext ct) s)
  ]

  unfoldable pub accept_contribution : NodeId → List ℕ → Es C R B (Step C B)
  accept_contribution k v = do
    encrypted ← gets (λ s. s.require_decryption)
    step ←
        (if encrypted
          then send_decryption_share k v
          else (modify (λ s. record s { decryption = insert k (complete v) s.decryption })
              >> return default))
    modify (λ s. record s { accepted_proposers = Set.insert k s.accepted_proposers })
    return step

  unfoldable pub accept_all : List (NodeId × List ℕ) → Step C B → Es C R B (Step C B)
  accept_all [] step = return step
  accept_all ((k, v) ∷ rest) step =
      accept_contribution k v >>= λ other. accept_all rest (extend step other)

  unfoldable pub finish_if : Bool → Step C B → Es C R B (Step C B)
  finish_if true step s = let (out, t) = finish_subset B step s in (ok out, t)
  finish_if false step s = (ok step, s)

  unfoldable pub process_output : SubsetOutput → Step C B → Es C R B (Step C B)
  process_output o step s =
      let (found, handler) = handle_output s.subset_handler o in
      (accept_all found.contributions step >>= finish_if found.is_done)
        (record s { subset_handler = handler })

  unfoldable pub process_outputs : List SubsetOutput → Step C B → Es C R B (Step C B)
  process_outputs [] step = return step
  process_outputs (o ∷ os) step = process_output o step >>= process_outputs os

  unfoldable pub process_subset : Cs.Step C → Es C R B (Step C B)
  process_subset cs_step s =
      let (step, cs_outputs) =
        extend_with default cs_step subset_fault (λ msg. with_epoch (subset msg) s.epoch) in
      process_outputs cs_outputs step s

  -- A call of the subset state, and what follows from its step.
  unfoldable pub with_subset : M (SubsetState C R) (Error C B) (Cs.Step C) → Es C R B (Step C B)
  with_subset f =
      (λ s. let (r, st) = f s.subset in (r, record s { subset = st })) >>= process_subset

  -- The end of the handling of a share.
  unfoldable pub share_handled :
      NodeId
      → Outcome (Td.Error C) (Td.Step C) × EpochState C R
      → Outcome (Error C B) (Step C B) × EpochState C R
  share_handled p (ok td_step, t) = process_decryption p td_step t
  share_handled p (err e, t) = (err (threshold_decrypt e), t)
  share_handled p (panicked, t) = (panicked, t)
  share_handled p (exhausted, t) = (exhausted, t)

  module _ (sha3_256 : List ℕ → Digest) (serialize_id : BaSessionId EpochId → ℕ → List ℕ ⊎ List ℕ)
      (fuel : ℕ) where
    unfoldable pub handle_input : List ℕ → M (SubsetState C R) (Error C B) (Cs.Step C)
    handle_input proposal (undecided cs) =
        let (r, cs2) = Cs.propose sha3_256 serialize_id fuel proposal cs in
        (map_err input_subset r, undecided cs2)
    handle_input proposal (decided ids) = (ok default, decided ids)

    unfoldable pub handle_subset_msg :
        NodeId → Subset.Message C → M (SubsetState C R) (Error C B) (Cs.Step C)
    handle_subset_msg id msg (undecided cs) =
        let (r, cs2) = Cs.handle_message sha3_256 serialize_id fuel id msg cs in
        (map_err handle_subset_message r, undecided cs2)
    handle_subset_msg id msg (decided ids) = (ok default, decided ids)

    unfoldable pub propose : B.Contribution → B.Rng → Es C R B (Step C B)
    propose proposal rng s = elim (encode B s.netinfo s.require_decryption rng proposal) [
      | inl e ↦ (err (propose_bincode e), s)
      | inr input ↦ with_subset (handle_input input) s
    ]

    unfoldable pub handle_message_content : NodeId → MessageContent C → Es C R B (Step C B)
    handle_message_content id (subset msg) s = with_subset (handle_subset_msg id msg) s
    handle_message_content id (decryption_share proposer_id share) s =
        if is_unexpected s.subset proposer_id
        then (ok (from_fault id unexpected_decryption_share), s)
        else share_handled proposer_id (with_decryption proposer_id (handle_share id share) s)
