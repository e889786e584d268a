-- ===== src/HoneyBadger/Numbered.antt =====
-- src/honey_badger/epoch_state.rs: the number of an epoch stays what it is.
use hbbft.Prelude.{
  ℕ, ◌⊎◌, inl, inr, ◌≡◌, refl, Bool, true, false, Option, none, some, List, [], ◌∷◌, arith,
  if◌then◌else◌, M, Outcome, ok, err, panicked, exhausted, and_then, Option-cases, sum_cases,
  Bool-cases, head?,
}
use hbbft.FaultLog.{NodeId, FaultLog}
use hbbft.Traits.{extend}
use hbbft.Crypto.{Crypto}
use hbbft.Broadcast.Merkle.{Digest}
use hbbft.Broadcast.Coding.{ReedSolomon}
use hbbft.Subset.Proposal.{BaSessionId}
use hbbft.Subset.Instance as Cs
use hbbft.Subset.Instance.{SubsetOutput}
use hbbft.ThresholdDecrypt as Td
use hbbft.HoneyBadger.Content.{
  Codec, EpochId, Error, Batch, Step, FaultKind, MessageContent, subset, decryption_share,
}
use hbbft.HoneyBadger.Decryption.{set_ciphertext, handle_share}
use hbbft.HoneyBadger.Epoch.{
  EpochState, Es, SubsetState, handle_output, with_decryption, set_plaintext, process_decryption,
  decrypted, send_decryption_share, accept_contribution, accept_all, finish_subset, finish_if,
  process_output, process_outputs, process_subset, with_subset, accepted_ids, propose,
  handle_message_content, share_handled, encode, is_unexpected,
}
use hbbft.HoneyBadger.Output.{deserialize_into, try_output_batch, plaintexts}

-- The outputs of a call.
abbrev pub outputs_of :
    {C : Crypto} {B : Codec C} → Outcome (Error C B) (Step C B) → List (Batch B.Contribution)
outputs_of (ok step) = step.output
outputs_of (err e) = []
outputs_of panicked = []
outputs_of exhausted = []

-- The state has the number `n` and nothing is output, whatever the outcome.
abbrev pub IsQuiet :
    {C : Crypto} {R : ReedSolomon} {B : Codec C}
    → ℕ
    → Outcome (Error C B) (Step C B) × EpochState C R
    → Type 0
IsQuiet n r = (outputs_of r.0 ≡ []) × (r.1.epoch ≡ n)

module _ {C : Crypto} {R : ReedSolomon} (B : Codec C) (n : ℕ) where
  IsQuiet-bind :
      (r : Outcome (Error C B) (Step C B) × EpochState C R) (f : Step C B → Es C R B (Step C B))
      → IsQuiet n r
      → ((step : Step C B) (s : EpochState C R)
          → step.output ≡ []
          → s.epoch ≡ n
          → IsQuiet n (f step s))
      → IsQuiet n (and_then r f)
  IsQuiet-bind (ok step, s) f h k = k step s h.0 h.1
  IsQuiet-bind (err e, s) f h k = h
  IsQuiet-bind (panicked, s) f h k = h
  IsQuiet-bind (exhausted, s) f h k = h

  IsQuiet-test :
      (b : Bool) (m k : Es C R B (Step C B)) (s : EpochState C R)
      → IsQuiet n (m s)
      → IsQuiet n (k s)
      → IsQuiet n ((if b then m else k) s)
  IsQuiet-test true m k s h l = h
  IsQuiet-test false m k s h l = l

  process_decryption-IsQuiet :
      (p : NodeId) (td_step : Td.Step C) (s : EpochState C R)
      → s.epoch ≡ n
      → IsQuiet n (process_decryption {B = B} p td_step s)
  unfolding process_decryption set_plaintext
  process_decryption-IsQuiet p td_step s h = (refl, go (head? td_step.output))
    where
      go : (o : Option (List ℕ)) → (set_plaintext p o s).epoch ≡ n
      go none = h
      go (some v) = h

  decrypted-IsQuiet :
      (p : NodeId) (r : Outcome (Td.Error C) (Td.Step C) × EpochState C R)
      → r.1.epoch ≡ n
      → IsQuiet n (decrypted {B = B} p r)
  unfolding decrypted
  decrypted-IsQuiet p (ok td_step, s) h = process_decryption-IsQuiet p td_step s h
  decrypted-IsQuiet p (err (Td.invalid_ciphertext ct), s) h = (refl, h)
  decrypted-IsQuiet p (err (Td.multiple_inputs ct), s) h = (refl, h)
  decrypted-IsQuiet p (err Td.unknown_sender, s) h = (refl, h)
  decrypted-IsQuiet p (err (Td.decryption e), s) h = (refl, h)
  decrypted-IsQuiet p (err Td.ciphertext_is_none, s) h = (refl, h)
  decrypted-IsQuiet p (panicked, s) h = (refl, h)
  decrypted-IsQuiet p (exhausted, s) h = (refl, h)

  share_handled-IsQuiet :
      (p : NodeId) (r : Outcome (Td.Error C) (Td.Step C) × EpochState C R)
      → r.1.epoch ≡ n
      → IsQuiet n (share_handled {B = B} p r)
  unfolding share_handled
  share_handled-IsQuiet p (ok td_step, s) h = process_decryption-IsQuiet p td_step s h
  share_handled-IsQuiet p (err e, s) h = (refl, h)
  share_handled-IsQuiet p (panicked, s) h = (refl, h)
  share_handled-IsQuiet p (exhausted, s) h = (refl, h)

  send_decryption_share-IsQuiet :
      (p : NodeId) (v : List ℕ) (s : EpochState C R)
      → s.epoch ≡ n
      → IsQuiet n (send_decryption_share {B = B} p v s)
  unfolding send_decryption_share with_decryption
  send_decryption_share-IsQuiet p v s h = elim (Option-cases (B.deserialize_ciphertext v)) [
    | inl bad ↦ rw (bad, send_decryption_share) (refl, h)
    | inr (ct, good) ↦
        rw (good, send_decryption_share)
          (decrypted-IsQuiet p (with_decryption p (set_ciphertext ct) s) h)
  ]

  accept_contribution-IsQuiet :
      (k : NodeId) (v : List ℕ) (s : EpochState C R)
      → s.epoch ≡ n
      → IsQuiet n (accept_contribution {B = B} k v s)
  unfolding accept_contribution
  accept_contribution-IsQuiet k v s h =
      IsQuiet-bind _ _
        (IsQuiet-test s.require_decryption _ _ s (send_decryption_share-IsQuiet k v s h) (refl, h))
        (λ step t none_yet g. (none_yet, g))

  accept_all-IsQuiet :
      (cs : List (NodeId × List ℕ)) (step : Step C B) (s : EpochState C R)
      → step.output ≡ []
      → s.epoch ≡ n
      → IsQuiet n (accept_all {B = B} cs step s)
  unfolding accept_all
  accept_all-IsQuiet [] step s none_yet h = (none_yet, h)
  accept_all-IsQuiet ((k, v) ∷ rest) step s none_yet h =
      IsQuiet-bind _ _ (accept_contribution-IsQuiet k v s h) (λ other t nothing g.
        accept_all-IsQuiet rest (extend step other) t (rw (none_yet, nothing) refl) g)

  finish_if-IsQuiet :
      (b : Bool) (step : Step C B) (s : EpochState C R)
      → step.output ≡ []
      → s.epoch ≡ n
      → IsQuiet n (finish_if {B = B} b step s)
  unfolding finish_if finish_subset
  finish_if-IsQuiet true step s none_yet h = (none_yet, h)
  finish_if-IsQuiet false step s none_yet h = (none_yet, h)

  process_output-IsQuiet :
      (o : SubsetOutput) (step : Step C B) (s : EpochState C R)
      → step.output ≡ []
      → s.epoch ≡ n
      → IsQuiet n (process_output {B = B} o step s)
  unfolding process_output
  process_output-IsQuiet o step s none_yet h =
      let (found, handler) = handle_output s.subset_handler o in
      IsQuiet-bind _ _
        (accept_all-IsQuiet found.contributions step (record s { subset_handler = handler })
          none_yet h)
        (finish_if-IsQuiet found.is_done)

  process_outputs-IsQuiet :
      (os : List SubsetOutput) (step : Step C B) (s : EpochState C R)
      → step.output ≡ []
      → s.epoch ≡ n
      → IsQuiet n (process_outputs {B = B} os step s)
  unfolding process_outputs
  process_outputs-IsQuiet [] step s none_yet h = (none_yet, h)
  process_outputs-IsQuiet (o ∷ os) step s none_yet h =
      IsQuiet-bind _ _ (process_output-IsQuiet o step s none_yet h) (process_outputs-IsQuiet os)

  subset_handled :
      (r : Outcome (Error C B) (Cs.Step C) × EpochState C R)
      → r.1.epoch ≡ n
      → IsQuiet n (and_then r process_subset)
  unfolding process_subset
  subset_handled (ok cs_step, s) h = process_outputs-IsQuiet cs_step.output _ s refl h
  subset_handled (err e, s) h = (refl, h)
  subset_handled (panicked, s) h = (refl, h)
  subset_handled (exhausted, s) h = (refl, h)

  with_subset-IsQuiet :
      (f : M (SubsetState C R) (Error C B) (Cs.Step C)) (s : EpochState C R)
      → s.epoch ≡ n
      → IsQuiet n (with_subset f s)
  unfolding with_subset
  with_subset-IsQuiet f s h = subset_handled _ h

  module _ (sha3_256 : List ℕ → Digest) (serialize_id : BaSessionId EpochId → ℕ → List ℕ ⊎ List ℕ)
      (fuel : ℕ) where
    pub propose-IsQuiet :
        (proposal : B.Contribution) (rng : B.Rng) (s : EpochState C R)
        → s.epoch ≡ n
        → IsQuiet n (propose {B = B} sha3_256 serialize_id fuel proposal rng s)
    unfolding propose
    propose-IsQuiet proposal rng s h =
        elim (sum_cases (encode B s.netinfo s.require_decryption rng proposal)) [
          | inl (e, bad) ↦ rw (bad, propose) (refl, h)
          | inr (input, good) ↦ rw (good, propose) (with_subset-IsQuiet _ s h)
        ]

    pub handle_message_content-IsQuiet :
        (id : NodeId) (content : MessageContent C) (s : EpochState C R)
        → s.epoch ≡ n
        → IsQuiet n (handle_message_content {B = B} sha3_256 serialize_id fuel id content s)
    unfolding handle_message_content with_decryption
    handle_message_content-IsQuiet id (subset msg) s h = with_subset-IsQuiet _ s h
    handle_message_content-IsQuiet id (decryption_share p share) s h =
        elim (Bool-cases (is_unexpected s.subset p)) [
          | inl unexpected ↦ rw unexpected (refl, h)
          | inr expected ↦
              rw expected (share_handled-IsQuiet p (with_decryption p (handle_share id share) s) h)
        ]

module _ {C : Crypto} (B : Codec C) where
  deserialize_into-epoch :
      (found : List (NodeId × List ℕ)) (batch : Batch B.Contribution) (log : FaultLog FaultKind)
      → (deserialize_into B found batch log).0.epoch ≡ batch.epoch
  unfolding deserialize_into
  deserialize_into-epoch [] batch log = refl
  deserialize_into-epoch ((id, v) ∷ rest) batch log = elim (Option-cases (B.deserialize v)) [
    | inl bad ↦ rw (bad, deserialize_into) (deserialize_into-epoch rest batch _)
    | inr (c, good) ↦ rw (good, deserialize_into) (deserialize_into-epoch rest _ log)
  ]

  -- The batch of an epoch has its number.
  pub try_output_batch-epoch :
      {R : ReedSolomon} (s : EpochState C R) (out : Batch B.Contribution × FaultLog FaultKind)
      → try_output_batch B s ≡ some out
      → out.0.epoch ≡ s.epoch
  unfolding try_output_batch
  try_output_batch-epoch s out e = elim (Option-cases (accepted_ids s.subset)) [
    | inl pending ↦ absurd (ground arith)
    | inr (ids, ready) ↦ elim (Option-cases (plaintexts ids s.decryption)) [
      | inl missing ↦ absurd (ground arith)
      | inr (found, there) ↦
          let batch =
            deserialize_into B found (record { epoch = s.epoch; contributions = [] }) [] in
          let same : batch ≡ out = ground arith in rw (← same) (deserialize_into-epoch found _ [])
    ]
  ]
