-- ===== src/ThresholdDecrypt/Plaintext.antt =====
-- src/threshold_decrypt.rs: which plaintext is output, and the end of a call.
use hbbft.Prelude.{
  sum_cases, ℕ, suc, ◌≡◌, refl, ◌∙◌, ◌⊎◌, inl, inr, Bool, true, false, ◌||◌, Option, none, some,
  List, [], ◌∷◌, ◌++◌, length, leb, is_some, if◌then◌else◌, Outcome, ok, err, panicked, exhausted,
  and_then, ◌>>=◌, ◌>>◌, return, throw, gets, modify, arith,
}
use hbbft.Prelude.BTreeMap.{remove_all, insert, values, get}
use hbbft.FaultLog.{NodeId, FaultLog}
use hbbft.Traits.{default, extend, join, from_fault, from_fault_log, from_message}
use hbbft.Messaging.{Target, message}
use hbbft.Crypto.{Crypto}
use hbbft.NetworkInfo.{node_index}
use hbbft.ThresholdDecrypt.{
  ThresholdDecrypt, Error, FaultKind, Message, Step, Td, decrypt, try_output, own_share, send_share,
  start_with, start_fuel, start_decryption, handle_message, is_share_valid, remove_invalid_shares,
  faulty_senders, decryption, unknown_sender, ciphertext_is_none, multiple_decryption_shares,
  unverified_decryption_share_sender,
}

module _ {C : Crypto} where
  -- The outputs of a call: none, and the instance terminates no sooner or later, or the instance
  -- terminates by the call, with the one plaintext of the shares that it then has.
  pub data Plaintext (s : ThresholdDecrypt C) (out : List (List ℕ)) (t : ThresholdDecrypt C)
      : Type 0 where
    quiet : out ≡ [] → t.terminated ≡ s.terminated → Plaintext s out t
    found :
        (ct : C.Ciphertext) (plaintext : List ℕ)
        → s.terminated ≡ false
        → t.terminated ≡ true
        → out ≡ plaintext ∷ []
        → t.ciphertext ≡ some ct
        → C.decrypt t.netinfo.public_key_set (values t.shares) ct ≡ inr plaintext
        → Plaintext s out t

  -- What a successful call guarantees.
  pub record Decrypted (s : ThresholdDecrypt C) (step : Step C) (t : ThresholdDecrypt C)
      : Type 0 where
    pub ciphertext : t.ciphertext ≡ s.ciphertext
    pub plaintext : Plaintext s step.output t

  -- What a failed call leaves: the instance terminates no sooner or later, or it terminates by the
  -- call, because the shares that it then has do not decrypt, and that is the error.
  pub data Failed (s : ThresholdDecrypt C) (e : Error C) (t : ThresholdDecrypt C) : Type 0 where
    rejected : t.terminated ≡ s.terminated → Failed s e t
    undecryptable :
        (ct : C.Ciphertext) (x : C.CryptoError)
        → s.terminated ≡ false
        → t.terminated ≡ true
        → t.ciphertext ≡ some ct
        → C.decrypt t.netinfo.public_key_set (values t.shares) ct ≡ inl x
        → e ≡ decryption x
        → Failed s e t

  Failed-from :
      {s t u : ThresholdDecrypt C} {e : Error C}
      → t.terminated ≡ s.terminated
      → Failed t e u
      → Failed s e u
  Failed-from same (rejected p) = rejected (p ∙ same)
  Failed-from same (undecryptable ct x before after c d e) = undecryptable ct x (cc) after c d e

  -- A call ends, with a step or an error, and does not panic.
  abbrev pub Ends : ThresholdDecrypt C → Outcome (Error C) (Step C) × ThresholdDecrypt C → Type 0
  Ends s (ok step, t) = Decrypted s step t
  Ends s (err e, t) = (t.ciphertext ≡ s.ciphertext) × Failed s e t
  Ends s (panicked, t) = ⊥
  Ends s (exhausted, t) = ⊥

  -- A program from a state.
  abbrev run : Td C (Step C) → ThresholdDecrypt C → Outcome (Error C) (Step C) × ThresholdDecrypt C
  run m s = m s

  Decrypted-quiet : (s : ThresholdDecrypt C) (step : Step C) → step.output ≡ [] → Decrypted s step s
  Decrypted-quiet s step e = record { ciphertext = refl; plaintext = quiet e refl }

  Ends-test :
      (b : Bool) (m k : Td C (Step C)) (s t : ThresholdDecrypt C)
      → (b ≡ true → Ends s (m t))
      → (b ≡ false → Ends s (k t))
      → Ends s ((if b then m else k) t)
  Ends-test true m k s t h l = h refl
  Ends-test false m k s t h l = l refl

  Plaintext-from :
      {s t u : ThresholdDecrypt C} {a out : List (List ℕ)}
      → t.terminated ≡ s.terminated
      → a ≡ []
      → Plaintext t out u
      → Plaintext s (a ++ out) u
  Plaintext-from e n (quiet o same) = quiet (rw (n, o) refl) (same ∙ e)
  Plaintext-from e n (found ct p before after o c d) = found ct p (cc) after (rw (n, o) refl) c d

  -- A call behind a change that leaves ciphertext and termination alone.
  Ends-after :
      (s t : ThresholdDecrypt C) (first : Step C)
      (r : Outcome (Error C) (Step C) × ThresholdDecrypt C)
      → t.ciphertext ≡ s.ciphertext
      → t.terminated ≡ s.terminated
      → first.output ≡ []
      → Ends t r
      → Ends s (and_then r (λ out. return (extend first out)))
  Ends-after s t first (ok out, u) c e n h = record {
    ciphertext = h.ciphertext ∙ c;
    plaintext = Plaintext-from e n h.plaintext;
  }
  Ends-after s t first (err x, u) c e n h = (h.0 ∙ c, Failed-from e h.1)
  Ends-after s t first (panicked, u) c e n h = h
  Ends-after s t first (exhausted, u) c e n h = h

  Ends-from :
      (s t : ThresholdDecrypt C) (r : Outcome (Error C) (Step C) × ThresholdDecrypt C)
      → t.ciphertext ≡ s.ciphertext
      → t.terminated ≡ s.terminated
      → Ends t r
      → Ends s r
  Ends-from s t (ok out, u) c e h = record {
    ciphertext = h.ciphertext ∙ c;
    plaintext = Plaintext-from {a = []} e refl h.plaintext;
  }
  Ends-from s t (err x, u) c e h = (h.0 ∙ c, Failed-from e h.1)
  Ends-from s t (panicked, u) c e h = h
  Ends-from s t (exhausted, u) c e h = h

  abbrev has_step : Outcome (Error C) (Step C) → Bool
  has_step (ok step) = true
  has_step (err e) = false
  has_step panicked = false
  has_step exhausted = false

  -- What is known of the call of `start_decryption` by `try_output`, which is made after
  -- termination and with a ciphertext: it does not fail.
  abbrev Nested : Td C (Step C) → Type 0
  Nested start =
      (u : ThresholdDecrypt C) (ct : C.Ciphertext)
      → u.terminated ≡ true
      → u.ciphertext ≡ some ct
      → Ends u (start u) × (has_step (start u).0 ≡ true)

  abbrev ended : ThresholdDecrypt C → ThresholdDecrypt C
  ended s = record s { terminated = true }

  -- The nested call outputs nothing, and then the shares are decrypted.
  decrypt-after :
      (s : ThresholdDecrypt C) (ct : C.Ciphertext)
      (r : Outcome (Error C) (Step C) × ThresholdDecrypt C)
      → s.ciphertext ≡ some ct
      → s.terminated ≡ false
      → Ends (ended s) r
      → has_step r.0 ≡ true
      → Ends s (and_then r (decrypt ct))
  unfolding decrypt
  decrypt-after s ct (ok step, u) c fresh h made = go h.plaintext
    where
      go : Plaintext (ended s) step.output u → Ends s (decrypt ct step u)
      go (found ct2 p before after o c2 d) = absurd (cc)
      go (quiet o over) =
          elim (sum_cases (C.decrypt u.netinfo.public_key_set (values u.shares) ct)) [
            | inl (e, failed) ↦
                rw (failed, decrypt)
                  (h.ciphertext, undecryptable ct e fresh over (h.ciphertext ∙ c) failed refl)
            | inr (p, plain) ↦
                rw (plain, decrypt)
                  (record {
                    ciphertext = h.ciphertext;
                    plaintext = found ct p fresh over (rw o refl) (h.ciphertext ∙ c) plain;
                  })
          ]
  decrypt-after s ct (err x, u) c fresh h made = absurd (cc)
  decrypt-after s ct (panicked, u) c fresh h made = h
  decrypt-after s ct (exhausted, u) c fresh h made = h

  try_output-Ends :
      (start : Td C (Step C)) (s : ThresholdDecrypt C)
      → (s.terminated ≡ true) ⊎ Nested start
      → Ends s (try_output start s)
  unfolding try_output
  try_output-Ends start s nested =
      Ends-test (s.terminated || leb (length s.shares) s.netinfo.num_faulty) _ _ s s
        (λ waiting. Decrypted-quiet s default refl) (λ enough. go s.ciphertext refl (ground arith))
    where
      go :
          (c : Option C.Ciphertext)
          → s.ciphertext ≡ c
          → s.terminated ≡ false
          → Ends s (
              run
                (elim c [
                  | none ↦ return default
                  | some ct ↦ do
                    modify (λ s. record s { terminated = true })
                    step ← start
                    decrypt ct step
                ])
                s)
      go none e fresh = Decrypted-quiet s default refl
      go (some ct) e fresh =
          let call : Nested start = elim nested [ inl over ↦ absurd (cc) | inr known ↦ known ] in
          let (ends, made) = call (ended s) ct refl e in
          decrypt-after s ct (start (ended s)) e fresh ends made

  send_share-Ends :
      (start : Td C (Step C)) (faults : FaultLog FaultKind) (own : Option (ℕ × C.DecryptionShare))
      (s : ThresholdDecrypt C)
      → (s.terminated ≡ true) ⊎ Nested start
      → Ends s (send_share start faults own s)
  unfolding send_share
  send_share-Ends start faults none s nested =
      Ends-after s s (from_fault_log faults) (try_output start s) refl refl refl
        (try_output-Ends start s nested)
  send_share-Ends start faults (some (idx, share)) s nested =
      let t : ThresholdDecrypt C = record s {
        shares = insert s.netinfo.our_id (idx, share) s.shares;
      } in
      Ends-after s t
        (join (from_fault_log faults)
          (from_message (message Target.all (record { share = share }))))
        (try_output start t) refl refl refl (try_output-Ends start t nested)

  start_with-Ends :
      (start : Td C (Step C)) (s : ThresholdDecrypt C)
      → (s.terminated ≡ true) ⊎ Nested start
      → Ends s (start_with start s)
  unfolding start_with remove_invalid_shares
  start_with-Ends start s nested =
      Ends-test s.had_input _ _ s s (λ had. Decrypted-quiet s default refl)
        (λ first_input. go s.ciphertext)
    where
      u : ThresholdDecrypt C
      u = record s { had_input = true; shares = remove_all (faulty_senders s) s.shares }

      go :
          (c : Option C.Ciphertext)
          → Ends s (
              run
                (elim c [
                  | none ↦ throw ciphertext_is_none
                  | some ct ↦ do
                    faults ← remove_invalid_shares
                    modify (λ s. record s { had_input = true })
                    own ← gets (λ s. own_share s ct)
                    send_share start faults own
                ])
                s)
      go none = (refl, rejected refl)
      go (some ct) = Ends-from s u _ refl refl (send_share-Ends start _ (own_share u ct) u nested)

  start_with-over :
      (start : Td C (Step C)) (u : ThresholdDecrypt C) (ct : C.Ciphertext)
      → u.terminated ≡ true
      → u.ciphertext ≡ some ct
      → has_step (start_with start u).0 ≡ true
  unfolding start_with remove_invalid_shares send_share try_output
  start_with-over start u ct over there = ground (arith, over, there)

  -- The nested call finds the instance terminated, so it does not nest again.
  start_fuel-Nested : (n : ℕ) → Nested (start_fuel (suc n))
  unfolding start_fuel
  start_fuel-Nested n u ct over there =
      (start_with-Ends (start_fuel n) u (inl over), start_with-over (start_fuel n) u ct over there)

  start_decryption-Nested : Nested start_decryption
  unfolding start_decryption
  start_decryption-Nested = start_fuel-Nested 1

  start_decryption-Ends : (s : ThresholdDecrypt C) → Ends s (start_decryption s)
  unfolding start_decryption start_fuel
  start_decryption-Ends s = start_with-Ends (start_fuel 1) s (inr (start_fuel-Nested 0))

  handle_message-Ends :
      (id : NodeId) (msg : Message C) (s : ThresholdDecrypt C) → Ends s (handle_message id msg s)
  unfolding handle_message
  handle_message-Ends id msg s =
      Ends-test s.terminated _ _ s s (λ over. Decrypted-quiet s default refl)
        (λ fresh. go (node_index s.netinfo id))
    where
      go :
          (o : Option ℕ)
          → Ends s (
              run
                (elim o [
                  | none ↦ throw unknown_sender
                  | some idx ↦ do
                    valid ← gets (λ s. is_share_valid s id msg.share)
                    if valid
                        then (do
                          known ← gets (λ s. is_some (get s.shares id))
                          modify (λ s. record s { shares = insert id (idx, msg.share) s.shares })
                          if known
                              then return (from_fault id multiple_decryption_shares)
                              else try_output start_decryption)
                        else return (from_fault id unverified_decryption_share_sender)
                ])
                s)
      go none = (refl, rejected refl)
      go (some idx) =
          let t : ThresholdDecrypt C = record s { shares = insert id (idx, msg.share) s.shares } in
          Ends-test (is_share_valid s id msg.share) _ _ s s
            (λ valid.
              Ends-test (is_some (get s.shares id)) _ _ s t
                (λ known.
                  Ends-from s t (return (from_fault id multiple_decryption_shares) t) refl refl
                    (Decrypted-quiet t _ refl))
                (λ new.
                  Ends-from s t (try_output start_decryption t) refl refl
                    (try_output-Ends start_decryption t (inr start_decryption-Nested))))
            (λ bad. Decrypted-quiet s _ refl)

  -- From any state, `start_decryption` and the handling of a share end, with a step or an error,
  -- and do not panic, and the ciphertext stays. With a step, either nothing is output and the
  -- instance terminates no sooner or later, or it terminates by the call and outputs the one
  -- plaintext of the shares that it then has. With an error, either the instance terminates no
  -- sooner or later, or it terminates by the call, because the shares that it then has do not
  -- decrypt, and that is the error.
  pub calls-Decrypted :
      (id : NodeId) (msg : Message C) (s : ThresholdDecrypt C)
      → Ends s (start_decryption s) × Ends s (handle_message id msg s)
  calls-Decrypted id msg s = (start_decryption-Ends s, handle_message-Ends id msg s)
