-- ===== src/Traits.antt =====
-- src/traits.rs: the outcome of a single step of an algorithm.
use hbbft.Prelude.{Bool, true, false, ◌&&◌, List, [], ◌∷◌, ◌++◌, map}
use hbbft.Prelude.{M as Effect, return, Returns, ◌≡◌, refl}
use hbbft.FaultLog.{NodeId, Fault, FaultLog, init, log_map}
use hbbft.FaultLog
use hbbft.Messaging.{TargetedMessage, targeted_map}

pub record Step (M O F : Type 0) : Type 0 where
  pub output : List O
  pub fault_log : FaultLog F
  pub messages : List (TargetedMessage M)

vec_is_empty {ℓ} : {A : Type ℓ} → List A → Bool
vec_is_empty [] = true
vec_is_empty (x ∷ xs) = false

module _ {M O F : Type 0} where
  -- `Step::default`.
  abbrev pub default : Step M O F
  default = record { output = []; fault_log = []; messages = [] }

  abbrev pub with_output : Step M O F → O → Step M O F
  with_output s o = record s { output = s.output ++ o ∷ [] }

  abbrev pub extend : Step M O F → Step M O F → Step M O F
  extend s other = record {
    output = s.output ++ other.output;
    fault_log = FaultLog.extend s.fault_log other.fault_log;
    messages = s.messages ++ other.messages;
  }

  abbrev pub join : Step M O F → Step M O F → Step M O F
  join s other = extend s other

  unfoldable pub is_empty : Step M O F → Bool
  unfolding vec_is_empty
  is_empty s = vec_is_empty s.output && FaultLog.is_empty s.fault_log && vec_is_empty s.messages

  -- The conversions of a fault, of a log and of a message into a step.
  abbrev pub from_fault_log : FaultLog F → Step M O F
  from_fault_log l = record { output = []; fault_log = l; messages = [] }

  abbrev pub from_fault : NodeId → F → Step M O F
  from_fault n k = record { output = []; fault_log = init n k; messages = [] }

  abbrev pub from_message : TargetedMessage M → Step M O F
  from_message m = record { output = []; fault_log = []; messages = m ∷ [] }

-- The step itself takes the converted faults and messages of `other`; the outputs of `other` are
-- returned beside it.
abbrev pub extend_with :
    {M O F M2 O2 F2 : Type 0}
    → Step M O F
    → Step M2 O2 F2
    → (F2 → F)
    → (M2 → M)
    → Step M O F × List O2
extend_with s other f_fail f_msg = (
  record {
    output = s.output;
    fault_log = FaultLog.extend s.fault_log (log_map f_fail other.fault_log);
    messages = s.messages ++ map (targeted_map f_msg) other.messages;
  },
  other.output,
)

abbrev pub step_map :
    {M O F M2 O2 F2 : Type 0} → (O → O2) → (F → F2) → (M → M2) → Step M O F → Step M2 O2 F2
step_map f_out f_fail f_msg s = record {
  output = map f_out s.output;
  fault_log = log_map f_fail s.fault_log;
  messages = map (targeted_map f_msg) s.messages;
}

-- A step that is taken if the test passes.
abbrev pub when : {S E M O F : Type 0} → Bool → Effect S E (Step M O F) → Effect S E (Step M O F)
when true m = m
when false m = return default

pub Returns-when :
    {S E M O F : Type 0} (P : Step M O F → S → Type 0) (b : Bool) (m : Effect S E (Step M O F))
    (s : S)
    → (b ≡ true → Returns P (m s))
    → (b ≡ false → P default s)
    → Returns P (when b m s)
Returns-when P true m s h k = h refl
Returns-when P false m s h k = k refl
