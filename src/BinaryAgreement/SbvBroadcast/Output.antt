-- ===== src/BinaryAgreement/SbvBroadcast/Output.antt =====
-- src/binary_agreement/sbv_broadcast.rs: what the set that is output stands for.
use hbbft.Prelude.{
  ℕ, ◌+◌, ◌≤◌, ◌<◌, ◌≡◌, refl, ◌⊎◌, inl, inr, Bool, true, false, not, ◌&&◌, ◌||◌, [], ◌∷◌, length,
  arith, if◌then◌else◌, ltb, leb, ◌==◌, Returns, Returns-if,
}
use hbbft.Traits.{default}
use hbbft.Crypto.{Crypto}
use hbbft.NetworkInfo.{num_correct}
use hbbft.BinaryAgreement.BoolSet
use hbbft.BinaryAgreement.BoolSet.{BoolSet}
use hbbft.BinaryAgreement.BoolSet.Laws.{
  IsValid, contains-insert, contains-empty, elements_lem, eq-empty,
}
use hbbft.BinaryAgreement.BoolMultimap.{index}
use hbbft.BinaryAgreement.SbvBroadcast.{SbvBroadcast, Step, count_aux, try_output}
use hbbft.BinaryAgreement.SbvBroadcast.Accounts.{inhabited}

module _ {C : Crypto} where
  -- The `Aux` messages with a value in the set: one for each sender and value, so a node that sent
  -- both values counts for both.
  abbrev pub aux_messages : SbvBroadcast C → BoolSet → ℕ
  aux_messages s v =
      (if BoolSet.contains v true then length s.received_aux.at_true else 0)
      + (if BoolSet.contains v false then length s.received_aux.at_false else 0)

  count_aux_number : (s : SbvBroadcast C) → (count_aux s).0 ≡ aux_messages s s.bin_values
  unfolding count_aux
  count_aux_number s = rw elements_lem (ground arith)

  count_aux_values :
      (s : SbvBroadcast C) (b : Bool)
      → BoolSet.contains (count_aux s).1 b
        ≡ (BoolSet.contains s.bin_values b && not (length (index s.received_aux b) == 0))
  unfolding count_aux
  count_aux_values s b = rw elements_lem (
      ground (
        arith,
        contains-empty b,
        contains-insert true BoolSet.empty b,
        contains-insert false BoolSet.empty b,
        contains-insert false (BoolSet.insert true BoolSet.empty).0 b,
      ))

  -- The condition for output, in the words of the protocol.
  abbrev pub ready : SbvBroadcast C → Bool
  ready s =
      not s.terminated
      && (inhabited s.bin_values && leb (num_correct s.netinfo) (aux_messages s s.bin_values))

  -- The set that is output holds values of `bin_values` that were heard in an `Aux`, and there are
  -- N - f `Aux` messages or more with a value in it.
  pub record Justified (s : SbvBroadcast C) (v : BoolSet) : Type 0 where
    pub quorum : num_correct s.netinfo ≤ aux_messages s v
    pub accepted : (b : Bool) → BoolSet.contains v b ≡ true → BoolSet.contains s.bin_values b ≡ true
    pub heard : (b : Bool) → BoolSet.contains v b ≡ true → 0 < length (index s.received_aux b)

  count_aux-Justified :
      (s : SbvBroadcast C)
      → num_correct s.netinfo ≤ aux_messages s s.bin_values
      → Justified s (count_aux s).1
  count_aux-Justified s enough = record {
    quorum = ground (arith, count_aux_values s true, count_aux_values s false);
    accepted = λ b e. ground (arith, count_aux_values s b);
    heard = λ b e. ground (arith, count_aux_values s b);
  }

  -- The two ways in which `try_output` ends.
  abbrev pub Outputs : SbvBroadcast C → Step → SbvBroadcast C → Type 0
  Outputs s step t =
      ((ready s ≡ true)
        × ((v : BoolSet) × (step.output ≡ v ∷ []) × Justified s v)
        × (t ≡ record s { terminated = true }))
      ⊎ ((ready s ≡ false) × (step ≡ default) × (t ≡ s))

  -- Where `bin_values` uses its two bits only: `try_output` outputs exactly if the instance has not
  -- terminated, `bin_values` is not empty and there are N - f `Aux` messages with a value in it, by
  -- sender and value; then it outputs one set, of values in `bin_values` that were each heard in an
  -- `Aux`, with N - f `Aux` messages for them, and terminates; otherwise it does nothing.
  pub try_output_cases :
      (s : SbvBroadcast C) → IsValid s.bin_values → Returns (Outputs s) (try_output s)
  unfolding try_output
  try_output_cases s valid =
      Returns-if (Outputs s) (s.terminated || BoolSet.eq s.bin_values BoolSet.empty) _ _
        (λ over. inr (ground (arith, eq-empty s.bin_values valid), refl, refl))
        (λ open_still.
          Returns-if (Outputs s) (ltb (count_aux s).0 (num_correct s.netinfo)) _ _
            (λ few. inr (ground (arith, count_aux_number s), refl, refl))
            (λ enough. inl (
              ground (arith, eq-empty s.bin_values valid, count_aux_number s),
              ((count_aux s).1, refl, count_aux-Justified s (ground (arith, count_aux_number s))),
              refl,
            )))
