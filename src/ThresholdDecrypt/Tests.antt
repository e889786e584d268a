-- ===== src/ThresholdDecrypt/Tests.antt =====
-- Node 10 of four decrypts a ciphertext, and the theorem at a concrete input.
use hbbft.Prelude.{ℕ, Bool, true, false, ◌≡◌, refl, List, [], ◌∷◌, some, Outcome, ok}
use hbbft.Samples.{toy, four_nodes}
use hbbft.ThresholdDecrypt.{ThresholdDecrypt, Error, Step, start_decryption, handle_message}
use hbbft.ThresholdDecrypt.Plaintext.{Ends, calls-Decrypted}

-- A ciphertext and a share of node 20.
abbrev one_share : ThresholdDecrypt toy
one_share = record {
  netinfo = four_nodes;
  ciphertext = some 6;
  shares = (20, (1, 6)) ∷ [];
  had_input = false;
  terminated = false;
}

result_of : Outcome (Error toy) (Step toy) × ThresholdDecrypt toy → List (List ℕ) × Bool
result_of (ok step, s) = (step.output, s.terminated)
result_of (_, s) = ([], s.terminated)

-- Our own share is the second.
decrypted : result_of (start_decryption one_share) ≡ ((6 ∷ []) ∷ [], true)
unfolding result_of start_decryption hbbft.ThresholdDecrypt.start_fuel
    hbbft.ThresholdDecrypt.start_with hbbft.ThresholdDecrypt.remove_invalid_shares
    hbbft.ThresholdDecrypt.send_share hbbft.ThresholdDecrypt.own_share
    hbbft.ThresholdDecrypt.try_output hbbft.ThresholdDecrypt.decrypt hbbft.Prelude.BTreeMap.get
    hbbft.Prelude.BTreeMap.insert hbbft.Prelude.BTreeMap.remove_all
decrypted = refl

-- One share is not enough.
abbrev no_share : ThresholdDecrypt toy
no_share = record one_share { shares = [] }

waits : result_of (handle_message 40 (record { share = 6 }) no_share) ≡ ([], false)
unfolding result_of handle_message hbbft.Prelude.BTreeMap.get hbbft.ThresholdDecrypt.is_share_valid
    hbbft.ThresholdDecrypt.try_output hbbft.Prelude.BTreeMap.insert
waits = refl

calls-Decrypted_example :
    Ends one_share (start_decryption one_share)
    × Ends one_share (handle_message 30 (record { share = 6 }) one_share)
calls-Decrypted_example = calls-Decrypted 30 (record { share = 6 }) one_share
