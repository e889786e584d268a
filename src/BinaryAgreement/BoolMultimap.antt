-- ===== src/BinaryAgreement/BoolMultimap.antt =====
-- src/binary_agreement/bool_multimap.rs: a map from `bool` to sets of nodes.
use hbbft.Prelude.{Bool, true, false, List, [], ◌++◌, map, if◌then◌else◌}
use hbbft.Prelude.BTreeSet.{BTreeSet}
use hbbft.FaultLog.{NodeId}

pub record BoolMultimap : Type 0 where
  pub at_false : BTreeSet
  pub at_true : BTreeSet

abbrev pub default : BoolMultimap
default = record { at_false = []; at_true = [] }

abbrev pub index : BoolMultimap → Bool → BTreeSet
index m b = if b then m.at_true else m.at_false

-- A write through `index_mut`.
abbrev pub update : BoolMultimap → Bool → BTreeSet → BoolMultimap
update m true s = record m { at_true = s }
update m false s = record m { at_false = s }

-- The iterator yields the nodes of `false`, then those of `true`.
unfoldable pub entries : BoolMultimap → List (Bool × NodeId)
entries m = map (λ n. (false, n)) m.at_false ++ map (λ n. (true, n)) m.at_true
