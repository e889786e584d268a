-- ===== src/ThresholdSign/Signatures.antt =====
-- src/threshold_sign.rs: which signatures are output, and the end of a call.
use hbbft.Prelude.{
  sum_cases, flag-le, ℕ, suc, ◌+◌, ◌≡◌, refl, ◌∙◌, ap, ◌⊎◌, inl, inr, Bool, true, false, not, ◌&&◌,
  Option, none, some, List, [], ◌∷◌, length, length-append, all, flag, arith, if◌then◌else◌,
  Outcome, ok, err, panicked, exhausted, and_then, ◌>>=◌, ◌>>◌, return, gets, modify, throw,
  Bool-cases, ltb,
}
use hbbft.Prelude.BTreeMap.{remove_all, insert, values}
use hbbft.FaultLog.{NodeId, FaultLog}
use hbbft.Traits.{default, extend, join, with_output, from_fault, from_fault_log, from_message}
use hbbft.Messaging.{Target, message}
use hbbft.Crypto.{Crypto}
use hbbft.NetworkInfo.{node_index}
use hbbft.ThresholdSign.{
  ThresholdSign, Error, FaultKind, Message, Step, Ts, sign, sign_with, sign_fuel, handle_share,
  handle_message, try_output, combine_and_verify_sig, is_share_valid, remove_invalid_shares,
  faulty_senders, combine_and_verify_sig_crypto, verification_failed, unknown_sender,
  document_hash_is_none, unverified_signature_share_sender,
}

-- Whether a signature verifies for the document, under the master key.
abbrev pub genuine : (C : Crypto) → Option C.G2 → C.PublicKey → C.Signature → Bool
genuine C none key sig = false
genuine C (some hash) key sig = C.verify_g2 key sig hash

nil_of_length : {A : Type 0} (xs : List A) → length xs ≡ 0 → xs ≡ []
nil_of_length [] e = refl
nil_of_length (x ∷ xs) e = absurd (omega arith)

module _ {C : Crypto} where
  -- What a successful call guarantees: the signatures that it outputs are genuine, and there is one
  -- exactly when the instance terminates by the call.
  pub record Signed (s : ThresholdSign C) (step : Step C) (t : ThresholdSign C) : Type 0 where
    pub network : t.netinfo ≡ s.netinfo
    pub document : t.doc_hash ≡ s.doc_hash
    pub signatures :
        all (genuine C s.doc_hash (C.public_key s.netinfo.public_key_set)) step.output ≡ true
    pub once : length step.output + flag s.terminated ≡ flag t.terminated

  -- A call ends and does not panic. If it fails with an error, the instance has terminated after it
  -- only if it had before.
  abbrev pub Ends : ThresholdSign C → Outcome (Error C) (Step C) × ThresholdSign C → Type 0
  Ends s (ok step, t) = Signed s step t
  Ends s (err e, t) = t.terminated ≡ s.terminated
  Ends s (panicked, t) = ⊥
  Ends s (exhausted, t) = ⊥

  -- A program from a state.
  abbrev run : Ts C (Step C) → ThresholdSign C → Outcome (Error C) (Step C) × ThresholdSign C
  run m s = m s

  Signed-quiet : (s : ThresholdSign C) (step : Step C) → step.output ≡ [] → Signed s step s
  Signed-quiet s step e = record {
    network = refl;
    document = refl;
    signatures = rw e refl;
    once = rw e (omega arith);
  }

  Ends-test :
      (b : Bool) (m k : Ts C (Step C)) (s t : ThresholdSign C)
      → (b ≡ true → Ends s (m t))
      → (b ≡ false → Ends s (k t))
      → Ends s ((if b then m else k) t)
  Ends-test true m k s t h l = h refl
  Ends-test false m k s t h l = l refl

  -- A call behind a change that leaves document, network and termination alone.
  Ends-after :
      (s t : ThresholdSign C) (first : Step C) (r : Outcome (Error C) (Step C) × ThresholdSign C)
      → t.netinfo ≡ s.netinfo
      → t.doc_hash ≡ s.doc_hash
      → t.terminated ≡ s.terminated
      → first.output ≡ []
      → Ends t r
      → Ends s (and_then r (λ out. return (extend first out)))
  Ends-after s t first (ok out, u) n d e quiet h = record {
    network = h.network ∙ n;
    document = h.document ∙ d;
    signatures = rw (quiet, ← d, ← n) h.signatures;
    once = ground (arith, h.once);
  }
  Ends-after s t first (err x, u) n d e quiet h = h ∙ e
  Ends-after s t first (panicked, u) n d e quiet h = h
  Ends-after s t first (exhausted, u) n d e quiet h = h

  abbrev has_step : Outcome (Error C) (Step C) → Bool
  has_step (ok step) = true
  has_step (err e) = false
  has_step panicked = false
  has_step exhausted = false

  -- What is known of the call of `sign` by `try_output`, which is made after termination and with a
  -- document: it does not fail.
  abbrev Nested : Ts C (Step C) → Type 0
  Nested resign =
      (u : ThresholdSign C) (hash : C.G2)
      → u.terminated ≡ true
      → u.doc_hash ≡ some hash
      → Ends u (resign u) × (has_step (resign u).0 ≡ true)

  abbrev ended : ThresholdSign C → ThresholdSign C
  ended s = record s { terminated = true }

  -- The signature comes behind what the nested call outputs, which is nothing.
  signed-after :
      (s : ThresholdSign C) (hash : C.G2) (sig : C.Signature)
      (r : Outcome (Error C) (Step C) × ThresholdSign C)
      → s.doc_hash ≡ some hash
      → s.terminated ≡ false
      → C.verify_g2 (C.public_key s.netinfo.public_key_set) sig hash ≡ true
      → Ends (ended s) r
      → has_step r.0 ≡ true
      → Ends s (and_then r (λ step. return (with_output step sig)))
  signed-after s hash sig (ok step, u) doc fresh valid h made =
      let nothing : step.output ≡ [] =
        nil_of_length step.output (omega (arith, h.once, flag-le u.terminated)) in
      record {
        network = h.network;
        document = h.document;
        signatures = rw (nothing, doc, valid) refl;
        once =
            rw (nothing, fresh)
              (omega (arith, h.once, length-append step.output [], ap length nothing));
      }
  signed-after s hash sig (err x, u) doc fresh valid h made = absurd (cc)
  signed-after s hash sig (panicked, u) doc fresh valid h made = h
  signed-after s hash sig (exhausted, u) doc fresh valid h made = h

  combine_cases :
      (s : ThresholdSign C) (hash : C.G2)
      → ((e : Error C) × (combine_and_verify_sig s hash ≡ err e))
        ⊎ ((sig : C.Signature) × (combine_and_verify_sig s hash ≡ ok sig)
            × (C.verify_g2 (C.public_key s.netinfo.public_key_set) sig hash ≡ true))
  unfolding combine_and_verify_sig
  combine_cases s hash =
      elim (sum_cases (C.combine_signatures s.netinfo.public_key_set (values s.received_shares))) [
        | inl (e, failed) ↦
            inl (combine_and_verify_sig_crypto e, rw (failed, combine_and_verify_sig) refl)
        | inr (sig, made) ↦
            elim (Bool-cases (C.verify_g2 (C.public_key s.netinfo.public_key_set) sig hash)) [
              | inl valid ↦ inr (sig, rw (made, valid, combine_and_verify_sig) refl, valid)
              | inr bad ↦ inl (verification_failed, rw (made, bad, combine_and_verify_sig) refl)
            ]
      ]

  -- What `try_output` does when it is ready.
  output-Ends :
      (resign : Ts C (Step C)) (s : ThresholdSign C) (hash : C.G2)
      → Nested resign
      → s.doc_hash ≡ some hash
      → s.terminated ≡ false
      → Ends s (
          (do
            sig ← (λ s. (combine_and_verify_sig s hash, s))
            modify (λ s. record s { terminated = true })
            step ← resign
            return (with_output step sig))
            s)
  output-Ends resign s hash nested doc fresh = elim (combine_cases s hash) [
    | inl (e, failed) ↦ rw failed refl
    | inr (sig, made, valid) ↦
        let (ends, goes_on) = nested (ended s) hash refl doc in
        rw made (signed-after s hash sig (resign (ended s)) doc fresh valid ends goes_on)
  ]

  try_output-Ends :
      (resign : Ts C (Step C)) (s : ThresholdSign C)
      → (s.terminated ≡ true) ⊎ Nested resign
      → Ends s (try_output resign s)
  unfolding try_output
  try_output-Ends resign s nested = go s.doc_hash refl
    where
      ready : Bool
      ready = not s.terminated && ltb s.netinfo.num_faulty (length s.received_shares)

      go :
          (d : Option C.G2)
          → s.doc_hash ≡ d
          → Ends s (
              run
                (elim d [
                  | none ↦ return default
                  | some hash ↦ do
                    ready ← gets (λ s.
                        not s.terminated && ltb s.netinfo.num_faulty (length s.received_shares))
                    if ready
                        then (do
                          sig ← (λ s. (combine_and_verify_sig s hash, s))
                          modify (λ s. record s { terminated = true })
                          step ← resign
                          return (with_output step sig))
                        else return default
                ])
                s)
      go none e = Signed-quiet s default refl
      go (some hash) e =
          Ends-test ready _ _ s s
            (λ go_on.
              let call : Nested resign = elim nested [
                | inl over ↦ absurd (ground arith)
                | inr known ↦ known
              ] in
              output-Ends resign s hash call e (ground arith))
            (λ wait. Signed-quiet s default refl)

  -- A call after a change that leaves document, network and termination alone.
  Ends-from :
      (s t : ThresholdSign C) (r : Outcome (Error C) (Step C) × ThresholdSign C)
      → t.netinfo ≡ s.netinfo
      → t.doc_hash ≡ s.doc_hash
      → t.terminated ≡ s.terminated
      → Ends t r
      → Ends s r
  Ends-from s t (ok step, u) n d e h = record {
    network = h.network ∙ n;
    document = h.document ∙ d;
    signatures = rw (← d, ← n) h.signatures;
    once = ground (arith, h.once);
  }
  Ends-from s t (err x, u) n d e h = h ∙ e
  Ends-from s t (panicked, u) n d e h = h
  Ends-from s t (exhausted, u) n d e h = h

  handle_share-Ends :
      (resign : Ts C (Step C)) (id : NodeId) (msg : Message C) (s : ThresholdSign C)
      → (s.terminated ≡ true) ⊎ Nested resign
      → Ends s (handle_share resign id msg s)
  unfolding handle_share
  handle_share-Ends resign id msg s nested =
      Ends-test s.terminated _ _ s s (λ over. Signed-quiet s default refl)
        (λ fresh. go (node_index s.netinfo id))
    where
      go :
          (o : Option ℕ)
          → Ends s (
              run
                (elim o [
                  | none ↦ throw unknown_sender
                  | some idx ↦ do
                    valid ← gets (λ s. is_share_valid s id msg.share)
                    if valid
                        then (do
                          modify (λ s. record s {
                            received_shares = insert id (idx, msg.share) s.received_shares;
                          })
                          try_output resign)
                        else return (from_fault id unverified_signature_share_sender)
                ])
                s)
      go none = refl
      go (some idx) =
          let t : ThresholdSign C = record s {
            received_shares = insert id (idx, msg.share) s.received_shares;
          } in
          Ends-test (is_share_valid s id msg.share) _ _ s s
            (λ valid.
              Ends-from s t (try_output resign t) refl refl refl (try_output-Ends resign t nested))
            (λ bad. Signed-quiet s _ refl)

  -- The end of `sign`: with a share of our own or without.
  share-Ends :
      (resign : Ts C (Step C)) (hash : C.G2) (faults : FaultLog FaultKind) (s : ThresholdSign C)
      → (s.terminated ≡ true) ⊎ Nested resign
      → (key : Option C.SecretKeyShare)
      → Ends s (
          run
            (elim key [
              | none ↦ do out ← try_output resign; return (join (from_fault_log faults) out)
              | some sks ↦ do
                let msg : Message C = record { share = C.sign_g2 sks hash }
                id ← gets (λ s. s.netinfo.our_id)
                out ← handle_share resign id msg
                return (
                    extend
                      (join (from_fault_log faults) (from_message (message Target.all msg)))
                      out)
            ])
            s)
  share-Ends resign hash faults s nested none =
      Ends-after s s (from_fault_log faults) (try_output resign s) refl refl refl refl
        (try_output-Ends resign s nested)
  share-Ends resign hash faults s nested (some sks) =
      let msg : Message C = record { share = C.sign_g2 sks hash } in
      Ends-after s s (join (from_fault_log faults) (from_message (message Target.all msg)))
        (handle_share resign s.netinfo.our_id msg s) refl refl refl refl
        (handle_share-Ends resign s.netinfo.our_id msg s nested)

  sign_with-Ends :
      (resign : Ts C (Step C)) (s : ThresholdSign C)
      → (s.terminated ≡ true) ⊎ Nested resign
      → Ends s (sign_with resign s)
  unfolding sign_with remove_invalid_shares
  sign_with-Ends resign s nested =
      Ends-test s.had_input _ _ s s (λ had. Signed-quiet s default refl)
        (λ first_input. go s.doc_hash)
    where
      u : ThresholdSign C
      u = record s {
        had_input = true;
        received_shares =
            remove_all (faulty_senders (record s { had_input = true })) s.received_shares;
      }

      go :
          (d : Option C.G2)
          → Ends s (
              run
                (elim d [
                  | none ↦ throw document_hash_is_none
                  | some hash ↦ do
                    modify (λ s. record s { had_input = true })
                    faults ← remove_invalid_shares
                    share ← gets (λ s. s.netinfo.secret_key_share)
                    elim share [
                      | none ↦ do out ← try_output resign; return (join (from_fault_log faults) out)
                      | some sks ↦ do
                        let msg : Message C = record { share = C.sign_g2 sks hash }
                        id ← gets (λ s. s.netinfo.our_id)
                        out ← handle_share resign id msg
                        return (
                            extend
                              (join (from_fault_log faults) (from_message (message Target.all msg)))
                              out)
                    ]
                ])
                s)
      go none = refl
      go (some hash) =
          Ends-from s u _ refl refl refl
            (share-Ends resign hash _ u nested s.netinfo.secret_key_share)

  sign_with-over :
      (resign : Ts C (Step C)) (u : ThresholdSign C) (hash : C.G2)
      → u.terminated ≡ true
      → u.doc_hash ≡ some hash
      → has_step (sign_with resign u).0 ≡ true
  unfolding sign_with remove_invalid_shares handle_share try_output
  sign_with-over resign u hash over doc = ground (arith, over, doc)

  -- The nested call finds the instance terminated, so it does not nest again.
  sign_fuel-Nested : (n : ℕ) → Nested (sign_fuel (suc n))
  unfolding sign_fuel
  sign_fuel-Nested n u hash over doc =
      (sign_with-Ends (sign_fuel n) u (inl over), sign_with-over (sign_fuel n) u hash over doc)

  sign-Ends : (s : ThresholdSign C) → Ends s (sign s)
  unfolding sign sign_fuel
  sign-Ends s = sign_with-Ends (sign_fuel 1) s (inr (sign_fuel-Nested 0))

  sign-Nested : Nested sign
  unfolding sign
  sign-Nested = sign_fuel-Nested 1

  -- From any state, `sign` and the handling of a message end, with a step or an error, and do not
  -- panic; the signatures that they output verify under the master key for the document, and
  -- there is one exactly when the instance terminates by the call; with an error it does not.
  pub calls-Ends :
      (id : NodeId) (msg : Message C) (s : ThresholdSign C)
      → Ends s (sign s) × Ends s (handle_message id msg s)
  unfolding handle_message
  calls-Ends id msg s = (sign-Ends s, handle_share-Ends sign id msg s (inr sign-Nested))
