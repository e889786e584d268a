-- ===== src/ThresholdSign/Tests.antt =====
-- Node 10 of four signs a document, and the theorem at a concrete input.
use hbbft.Prelude.{ℕ, ◌≡◌, refl, List, [], ◌∷◌, some, true, false, Outcome, ok}
use hbbft.Samples.{toy, four_nodes}
use hbbft.ThresholdSign.{ThresholdSign, Error, Step, sign, handle_message}
use hbbft.ThresholdSign.Signatures.{Ends, calls-Ends}

-- A document of three bytes, and a share of node 20.
abbrev one_share : ThresholdSign toy
one_share = record {
  netinfo = four_nodes;
  doc_hash = some 3;
  received_shares = (20, (1, 3)) ∷ [];
  had_input = false;
  terminated = false;
}

outputs_of : Outcome (Error toy) (Step toy) × ThresholdSign toy → List ℕ
outputs_of (ok step, s) = step.output
outputs_of _ = []

-- Our own share is the second.
signed : outputs_of (sign one_share) ≡ 3 ∷ []
unfolding outputs_of sign hbbft.Prelude.BTreeMap.get hbbft.Prelude.BTreeMap.insert
    hbbft.Prelude.BTreeMap.remove_all
signed = refl

-- With the share of node 30 the signature is there, and we sign too.
received : outputs_of (handle_message 30 (record { share = 3 }) one_share) ≡ 3 ∷ []
unfolding outputs_of handle_message hbbft.Prelude.BTreeMap.get hbbft.Prelude.BTreeMap.insert
received = refl

calls-Ends_example :
    Ends one_share (sign one_share)
    × Ends one_share (handle_message 30 (record { share = 3 }) one_share)
calls-Ends_example = calls-Ends 30 (record { share = 3 }) one_share
