-- ===== src/Messaging.antt =====
-- src/messaging.rs: messages with their recipients.
use hbbft.FaultLog.{NodeId}

pub data Target : Type 0 where
  all : Target
  node : NodeId → Target

pub record TargetedMessage (M : Type 0) : Type 0 where
  pub target : Target
  pub message : M

-- `Target::message`.
abbrev pub message : {M : Type 0} → Target → M → TargetedMessage M
message t m = record { target = t; message = m }

-- `TargetedMessage::map`.
abbrev pub targeted_map : {M T : Type 0} → (M → T) → TargetedMessage M → TargetedMessage T
targeted_map f m = record { target = m.target; message = f m.message }
