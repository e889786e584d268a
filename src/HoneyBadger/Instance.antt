-- ===== src/HoneyBadger/Instance.antt =====
-- src/honey_badger/honey_badger.rs: an instance of Honey Badger.
use hbbft.Prelude.{
  ℕ, zero, suc, ◌⊎◌, Bool, true, false, not, ◌||◌, Option, none, some, List, [], ◌∷◌, ◌++◌, length,
  if◌then◌else◌, ltb, add_u64, M, Outcome, ok, err, panicked, exhausted, ◌>>=◌, return,
}
use hbbft.Prelude.BTreeMap.{BTreeMap, get, insert, remove}
use hbbft.FaultLog.{NodeId}
use hbbft.FaultLog
use hbbft.Traits.{default, join, from_fault}
use hbbft.Crypto.{Crypto}
use hbbft.NetworkInfo.{NetworkInfo, is_node_validator}
use hbbft.Broadcast.Merkle.{Digest}
use hbbft.Broadcast.Coding.{ReedSolomon}
use hbbft.Subset.Proposal.{BaSessionId}
use hbbft.HoneyBadger.Schedule.{use_on_epoch, Params}
use hbbft.HoneyBadger.Content.{
  Codec, EpochId, Message, Error, unknown_sender, FaultKind, unexpected_hb_message_epoch, Batch,
  Step,
}
use hbbft.HoneyBadger.Epoch as Epoch
use hbbft.HoneyBadger.Epoch.{EpochState, Es}
use hbbft.HoneyBadger.Output.{try_output_batch}

pub record HoneyBadger (C : Crypto) (R : ReedSolomon) : Type 0 where
  pub netinfo : NetworkInfo C
  pub session_id : ℕ
  pub epoch : ℕ
  pub has_input : Bool
  pub epochs : BTreeMap (EpochState C R)
  pub params : Params

abbrev pub Hb : (C : Crypto) → ReedSolomon → Codec C → Type 0 → Type 0
Hb C R B A = M (HoneyBadger C R) (Error C B) A

module _ {C : Crypto} {R : ReedSolomon} where
  -- The query of whether there is input for the epoch.
  unfoldable pub has_input : HoneyBadger C R → Bool
  has_input s = not s.netinfo.is_validator || s.has_input

  unfoldable pub received_proposals : HoneyBadger C R → ℕ
  received_proposals s = elim (get s.epochs s.epoch) [
    | none ↦ 0
    | some es ↦ Epoch.received_proposals es
  ]

  unfoldable pub update_epoch : HoneyBadger C R → HoneyBadger C R
  update_epoch s = record s {
    epoch = add_u64 s.epoch 1;
    has_input = false;
    epochs = remove s.epoch s.epochs;
  }

  -- The batch of the current epoch, if it can be output.
  unfoldable pub next_batch :
      (B : Codec C) → HoneyBadger C R → Option (Batch B.Contribution × FaultLog.FaultLog FaultKind)
  next_batch B s = elim (get s.epochs s.epoch) [ none ↦ none | some es ↦ try_output_batch B es ]

module _ {C : Crypto} {R : ReedSolomon} {B : Codec C} where
  -- A new state for an epoch that has none.
  unfoldable pub create_epoch : ℕ → HoneyBadger C R → Outcome (Error C B) (EpochState C R)
  create_epoch epoch s = elim (use_on_epoch s.params.encryption_schedule epoch) [
    | ok encrypt ↦ Epoch.new s.netinfo s.session_id epoch s.params.subset_handling_strategy encrypt
    | err e ↦ err e
    | panicked ↦ panicked
    | exhausted ↦ exhausted
  ]

  unfoldable pub epoch_state_mut : ℕ → HoneyBadger C R → Outcome (Error C B) (EpochState C R)
  epoch_state_mut epoch s = elim (get s.epochs epoch) [
    | none ↦ create_epoch epoch s
    | some es ↦ ok es
  ]

  -- A call of the state of an epoch.
  unfoldable pub with_epoch_state : ℕ → Es C R B (Step C B) → Hb C R B (Step C B)
  with_epoch_state epoch f s = elim (epoch_state_mut epoch s) [
    | ok es ↦ let (r, es2) = f es in (r, record s { epochs = insert epoch es2 s.epochs })
    | err e ↦ (err e, s)
    | panicked ↦ (panicked, s)
    | exhausted ↦ (exhausted, s)
  ]

  -- The loop of `try_output_batches`. A round that outputs removes the state of an epoch.
  unfoldable pub output_fuel : ℕ → Step C B → Hb C R B (Step C B)
  output_fuel zero step s = (exhausted, s)
  output_fuel (suc n) step s = elim (next_batch B s) [
    | none ↦ (ok step, s)
    | some (batch, fault_log) ↦
        output_fuel n
          (record step {
            output = step.output ++ batch ∷ [];
            fault_log = FaultLog.extend step.fault_log fault_log;
          })
          (update_epoch s)
  ]

  unfoldable pub try_output_batches : Hb C R B (Step C B)
  try_output_batches s = output_fuel (suc (length s.epochs)) default s

  -- A call of the state of an epoch, and the batches that follow from it.
  unfoldable pub then_output : Hb C R B (Step C B) → Hb C R B (Step C B)
  then_output m = do step ← m; out ← try_output_batches; return (join step out)

  module _ (sha3_256 : List ℕ → Digest) (serialize_id : BaSessionId EpochId → ℕ → List ℕ ⊎ List ℕ)
      (fuel : ℕ) where
    unfoldable pub propose : B.Contribution → B.Rng → Hb C R B (Step C B)
    propose proposal rng s =
        if s.netinfo.is_validator
        then then_output
            (with_epoch_state s.epoch (Epoch.propose sha3_256 serialize_id fuel proposal rng))
            (record s { has_input = true })
        else (ok default, s)

    unfoldable pub handle_message : NodeId → Message C → Hb C R B (Step C B)
    handle_message sender_id message s =
        if not (is_node_validator s.netinfo sender_id)
        then (err unknown_sender, s)
        else if ltb (add_u64 s.epoch s.params.max_future_epochs) message.epoch
        then (ok (from_fault sender_id unexpected_hb_message_epoch), s)
        else if ltb message.epoch s.epoch
        then (ok default, s)
        else then_output
            (with_epoch_state message.epoch
              (Epoch.handle_message_content sha3_256 serialize_id fuel sender_id message.content))
            s
