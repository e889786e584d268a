-- ===== src/SenderQueue/HoneyBadger.antt =====
-- src/sender_queue/honey_badger.rs: Honey Badger under a sender queue.
use hbbft.Prelude.{ℕ, ◌⊎◌, none, Option, List, ltb, add_u64}
use hbbft.Prelude.BTreeSet.{BTreeSet}
use hbbft.Crypto.{Crypto}
use hbbft.Broadcast.Merkle.{Digest}
use hbbft.Broadcast.Coding.{ReedSolomon}
use hbbft.Subset.Proposal.{BaSessionId}
use hbbft.HoneyBadger.Content as Hb
use hbbft.HoneyBadger.Content.{Codec, EpochId, Batch}
use hbbft.HoneyBadger.Instance.{HoneyBadger, propose, handle_message}
use hbbft.SenderQueue.Interface.{Algorithm, Queueable}

-- `SenderQueueableMessage` for its messages.
abbrev pub queueable : {C : Crypto} → Queueable (Hb.Message C)
queueable = record {
  is_premature = λ msg them max_future_epochs. ltb (add_u64 them max_future_epochs) msg.epoch;
  is_obsolete = λ msg them. ltb msg.epoch them;
  first_epoch = λ msg. msg.epoch;
}

-- `SenderQueueableOutput` for its batches: the participants never change.
abbrev pub participant_change : {V : Type 0} → Batch V → Option BTreeSet
participant_change batch = none

abbrev pub honey_badger :
    {C : Crypto} (R : ReedSolomon) (B : Codec C)
    → (List ℕ → Digest)
    → (BaSessionId EpochId → ℕ → List ℕ ⊎ List ℕ)
    → ℕ
    → Algorithm
honey_badger {C} R B sha3_256 serialize_id fuel = record {
  State = HoneyBadger C R;
  Input = B.Contribution × B.Rng;
  Output = Batch B.Contribution;
  Message = Hb.Message C;
  FaultKind = Hb.FaultKind;
  Error = Hb.Error C B;
  handle_input = λ i. propose sha3_256 serialize_id fuel i.0 i.1;
  handle_message = handle_message sha3_256 serialize_id fuel;
  epoch = λ s. s.epoch;
  max_future_epochs = λ s. s.params.max_future_epochs;
  queueable = queueable;
  participant_change = participant_change;
  output_epoch = λ batch. batch.epoch;
}
