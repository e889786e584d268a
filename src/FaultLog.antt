-- ===== src/FaultLog.antt =====
-- src/fault_log.rs: reports of faulty node behaviour.
use hbbft.Prelude.{ℕ, Bool, true, false, List, [], ◌∷◌, ◌++◌, map}

-- `NodeIdT` asks for a totally ordered type; the model takes numbers.
abbrev pub NodeId : Type 0
NodeId = ℕ

pub record Fault (F : Type 0) : Type 0 where
  pub node_id : NodeId
  pub kind : F

-- The log is the vector of its faults.
abbrev pub FaultLog : Type 0 → Type 0
FaultLog F = List (Fault F)

abbrev pub fault_map : {F F2 : Type 0} → (F → F2) → Fault F → Fault F2
fault_map f_fault f = record { node_id = f.node_id; kind = f_fault f.kind }

module _ {F : Type 0} where
  -- `FaultLog::init` and the conversion of a fault into a log.
  abbrev pub init : NodeId → F → FaultLog F
  init n k = record { node_id = n; kind = k } ∷ []

  unfoldable pub append : FaultLog F → NodeId → F → FaultLog F
  append l n k = l ++ record { node_id = n; kind = k } ∷ []

  abbrev pub extend : FaultLog F → FaultLog F → FaultLog F
  extend l new_logs = l ++ new_logs

  abbrev pub is_empty : FaultLog F → Bool
  is_empty [] = true
  is_empty (f ∷ fs) = false

abbrev pub log_map : {F F2 : Type 0} → (F → F2) → FaultLog F → FaultLog F2
log_map f_fault = map (fault_map f_fault)
