-- ===== src/BinaryAgreement/SbvBroadcast/Tests.antt =====
-- Runs of a four-node instance, and the theorems at concrete inputs.
use hbbft.Prelude.{arith, ℕ, ◌≡◌, refl, Bool, true, false, List, [], ◌∷◌, Returns, ok, Outcome}
use hbbft.Samples.{toy, four_nodes}
use hbbft.BinaryAgreement.Faults.{Error}
use hbbft.BinaryAgreement.BoolSet.{BoolSet, only_true}
use hbbft.BinaryAgreement.SbvBroadcast.{
  SbvBroadcast, try_output, Message, bval, aux, Step, new, handle_message, send_bval,
}
use hbbft.BinaryAgreement.SbvBroadcast.Output.{Outputs, try_output_cases}
use hbbft.BinaryAgreement.SbvBroadcast.History.{
  Event, input, receive, history, AtMostOnce, history-AtMostOnce,
}

abbrev fresh : SbvBroadcast toy
fresh = new four_nodes

-- All nodes input `true`.
abbrev all_true : List Event
all_true =
    input true
    ∷ receive 20 (bval true)
    ∷ receive 30 (bval true)
    ∷ receive 40 (bval true)
    ∷ receive 20 (aux true)
    ∷ receive 30 (aux true)
    ∷ receive 40 (aux true)
    ∷ []

outputs_of : Outcome (Error toy) Step × SbvBroadcast toy → List BoolSet
outputs_of (ok step, s) = step.output
outputs_of _ = []

all_true_output : outputs_of (history all_true fresh) ≡ only_true ∷ []
unfolding outputs_of new history handle_message send_bval hbbft.BinaryAgreement.BoolSet.insert
    hbbft.Prelude.BTreeSet.contains hbbft.Prelude.BTreeSet.insert
    hbbft.BinaryAgreement.SbvBroadcast.count_aux hbbft.BinaryAgreement.BoolSet.elements
all_true_output = refl

history-AtMostOnce_example : Returns (λ step t. AtMostOnce step) (history all_true fresh)
history-AtMostOnce_example = history-AtMostOnce four_nodes all_true

-- `true` is in `bin_values`, and three nodes have sent an `Aux` for it.
abbrev heard_true : SbvBroadcast toy
heard_true = record fresh {
  bin_values = only_true;
  received_aux = record { at_true = 10 ∷ 20 ∷ 30 ∷ []; at_false = [] };
}

try_output_cases_example : Returns (Outputs heard_true) (try_output heard_true)
try_output_cases_example = try_output_cases heard_true (omega arith)
