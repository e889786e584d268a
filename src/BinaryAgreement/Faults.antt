-- ===== src/BinaryAgreement/Faults.antt =====
-- src/binary_agreement/mod.rs: errors and fault kinds.
use hbbft.Prelude.{List, ℕ}
use hbbft.Crypto.{Crypto}
use hbbft.ThresholdSign

pub data Error (C : Crypto) : Type 0 where
  handle_threshold_sign : ThresholdSign.Error C → Error C
  invoke_coin : ThresholdSign.Error C → Error C
  serialize : List ℕ → Error C

pub data FaultKind : Type 0 where
  duplicate_bval : FaultKind
  duplicate_aux : FaultKind
  multiple_conf : FaultKind
  multiple_term : FaultKind
  agreement_epoch : FaultKind
  coin_fault : ThresholdSign.FaultKind → FaultKind
