-- ===== src/SenderQueue/Interface.antt =====
-- src/sender_queue/mod.rs, src/sender_queue/message.rs, src/sender_queue/error.rs: what a sender
-- queue needs of the algorithm that it wraps, and its own messages and errors.
use hbbft.Prelude.{ℕ, Bool, not, ◌&&◌, Option, M as Effect}
use hbbft.Prelude.BTreeSet.{BTreeSet}
use hbbft.FaultLog.{NodeId}
use hbbft.Traits

-- `SenderQueueableMessage`. The type of epochs is the one of Honey Badger, `u64`.
pub record Queueable (M : Type 0) : Type 0 where
  pub is_premature : M → ℕ → ℕ → Bool
  pub is_obsolete : M → ℕ → Bool
  pub first_epoch : M → ℕ

abbrev pub is_accepted : {M : Type 0} → Queueable M → M → ℕ → ℕ → Bool
is_accepted q msg them max_future_epochs =
    not (q.is_premature msg them max_future_epochs) && not (q.is_obsolete msg them)

-- `SenderQueueableConsensusProtocol` and `SenderQueueableOutput`: an algorithm that sends messages
-- of epochs. Its state holds the random source of its calls.
pub record Algorithm : Type 1 where
  pub State : Type 0
  pub Input : Type 0
  pub Output : Type 0
  pub Message : Type 0
  pub FaultKind : Type 0
  pub Error : Type 0
  pub handle_input : Input → Effect State Error (Traits.Step Message Output FaultKind)
  pub handle_message : NodeId → Message → Effect State Error (Traits.Step Message Output FaultKind)
  pub epoch : State → ℕ
  pub max_future_epochs : State → ℕ
  pub queueable : Queueable Message
  pub participant_change : Output → Option BTreeSet
  pub output_epoch : Output → ℕ

pub data Message (M : Type 0) : Type 0 where
  epoch_started : ℕ → Message M
  algo : M → Message M

pub data Error (E : Type 0) : Type 0 where
  apply_error : E → Error E
  dynamic_honey_badger_not_removed : Error E
  dynamic_honey_badger_new_joining : E → Error E
