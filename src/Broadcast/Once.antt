-- ===== src/Broadcast/Once.antt =====
-- src/broadcast/broadcast.rs: what an instance sends and outputs, counted against its state.
use hbbft.Prelude.{
  ℕ, suc, ◌+◌, ◌<◌, ◌≡◌, refl, ◌∙◌, ◌⊎◌, inl, inr, Bool, true, false, not, ◌&&◌, ◌||◌, Option, none,
  some, List, length, length-append, length-map, flag, count, count-append, arith, ltb, ◌==◌,
  bytes_eq, ok, Returns, Returns-bind, Returns-weaken, Returns-test, return, Option-cases,
  Bool-cases,
}
use hbbft.Prelude.BTreeMap.{get, insert}
use hbbft.FaultLog.{NodeId}
use hbbft.Messaging.{Target, TargetedMessage, message}
use hbbft.Traits.{from_fault, default, extend, join, from_message, Returns-when}
use hbbft.Crypto.{Crypto}
use hbbft.NetworkInfo.{all_ids, num_correct}
use hbbft.Broadcast.Merkle.{Digest, Proof, proof_eq}
use hbbft.Broadcast.Coding.{ReedSolomon}
use hbbft.Broadcast.Decoding.{Restores, decode_from_shards-total}
use hbbft.Broadcast.Instance.{
  FaultKind, Message, value, echo, ready, Step, Broadcast, Bc, count_readys, count_echos,
  leaf_value, leaf_values, validate_proof, decode_from_shards, cannot_output, compute_output,
  send_ready, ready_with, ready_fuel, handle_ready, handle_echo, send_echo,
}

abbrev pub is_echo : TargetedMessage Message → Bool
is_echo m = elim m.message [ value p ↦ false | echo p ↦ true | ready hash ↦ false ]

abbrev pub is_ready : TargetedMessage Message → Bool
is_ready m = elim m.message [ value p ↦ false | echo p ↦ false | ready hash ↦ true ]

module _ {C : Crypto} {R : ReedSolomon} where
  -- What the instance counts as sent: an observer sends nothing.
  abbrev pub sent : Broadcast C R → Bool → ℕ
  sent s b = flag (s.netinfo.is_validator && b)

  -- The network is not empty, and the output, the `Echo` and the `Ready` are produced exactly when
  -- the state records them for the first time.
  pub record Kept (s : Broadcast C R) (step : Step) (t : Broadcast C R) : Type 0 where
    pub nodes : 0 < length (all_ids t.netinfo)
    pub network : t.netinfo ≡ s.netinfo
    pub outputs : length step.output + flag s.decided ≡ flag t.decided
    pub echos : count is_echo step.messages + sent s s.echo_sent ≡ sent t t.echo_sent
    pub readys : count is_ready step.messages + sent s s.ready_sent ≡ sent t t.ready_sent

  pub Kept-default : (s : Broadcast C R) → 0 < length (all_ids s.netinfo) → Kept s default s
  Kept-default s h = record {
    nodes = h;
    network = refl;
    outputs = omega arith;
    echos = omega arith;
    readys = omega arith;
  }

  -- A report of a fault alone.
  pub Kept-fault :
      (s : Broadcast C R) {id : NodeId} {kind : FaultKind}
      → 0 < length (all_ids s.netinfo)
      → Kept s (from_fault id kind) s
  Kept-fault s h = record {
    nodes = h;
    network = refl;
    outputs = omega arith;
    echos = omega arith;
    readys = omega arith;
  }

  pub Kept-extend :
      {s t u : Broadcast C R} {a b : Step} → Kept s a t → Kept t b u → Kept s (extend a b) u
  Kept-extend {a} {b} h k = record {
    nodes = k.nodes;
    network = k.network ∙ h.network;
    outputs = omega (arith, h.outputs, k.outputs, length-append a.output b.output);
    echos = omega (arith, h.echos, k.echos, count-append is_echo a.messages b.messages);
    readys = omega (arith, h.readys, k.readys, count-append is_ready a.messages b.messages);
  }

module _ {C : Crypto} {R : ReedSolomon} where
  undecided : (s : Broadcast C R) (hash : Digest) → cannot_output s hash ≡ false → s.decided ≡ false
  unfolding cannot_output
  undecided s hash e = ground arith

module _ {C : Crypto} {R : ReedSolomon} (L : Restores R) (sha3_256 : List ℕ → Digest) where
  decoded :
      (hash : Digest) (s : Broadcast C R)
      → 0 < length (all_ids s.netinfo)
      → (v : Option (List ℕ)) × (decode_from_shards sha3_256 s.coding (leaf_values s hash) hash
          ≡ ok v)
  unfolding leaf_values
  decoded hash s h =
      decode_from_shards-total L sha3_256 s.coding (leaf_values s hash) hash
        (omega (arith, length-map (leaf_value s hash) (all_ids s.netinfo)))

  output_of_decoded :
      (hash : Digest) (s : Broadcast C R)
      → 0 < length (all_ids s.netinfo)
      → cannot_output s hash ≡ false
      → (v : Option (List ℕ))
      → decode_from_shards sha3_256 s.coding (leaf_values s hash) hash ≡ ok v
      → Returns (Kept s) (compute_output sha3_256 hash s)
  unfolding compute_output
  output_of_decoded hash s h go none e =
      rw (go, e)
        (record {
          nodes = h;
          network = refl;
          outputs = omega arith;
          echos = omega arith;
          readys = omega arith;
        })
  output_of_decoded hash s h go (some v) e =
      rw (go, e)
        (record {
          nodes = h;
          network = refl;
          outputs = ground (arith, undecided s hash go);
          echos = omega arith;
          readys = omega arith;
        })

  compute_output-Kept :
      (hash : Digest) (s : Broadcast C R)
      → 0 < length (all_ids s.netinfo)
      → Returns (Kept s) (compute_output sha3_256 hash s)
  unfolding compute_output
  compute_output-Kept hash s h = elim (Bool-cases (cannot_output s hash)) [
    | inl waiting ↦ rw waiting (Kept-default s h)
    | inr go ↦ let (v, e) = decoded hash s h in output_of_decoded hash s h go v e
  ]

  -- What is known of a nested call of `handle_ready`, which is made once `Ready` counts as sent.
  abbrev Nested : (NodeId → Digest → Bc C R Step) → Type 0
  Nested again =
      (id : NodeId) (hash : Digest) (s : Broadcast C R)
      → 0 < length (all_ids s.netinfo)
      → s.ready_sent ≡ true
      → Returns (Kept s) (again id hash s)

  send_ready-Kept :
      (again : NodeId → Digest → Bc C R Step) (hash : Digest) (s : Broadcast C R)
      → Nested again
      → 0 < length (all_ids s.netinfo)
      → s.ready_sent ≡ false
      → Returns (Kept s) (send_ready again hash s)
  unfolding send_ready
  send_ready-Kept again hash s nested h fresh =
      let marked : Broadcast C R = record s { ready_sent = true } in
      Returns-test (Kept s) s.netinfo.is_validator _ _ marked
        (λ v.
          Returns-bind (Kept marked) (Kept s) (again s.netinfo.our_id hash marked) _
            (nested s.netinfo.our_id hash marked h refl)
            (λ step t k.
              Kept-extend {s = s} {t = marked} {u = t}
                {a = from_message (message Target.all (ready hash))}
                (record {
                  nodes = h;
                  network = refl;
                  outputs = omega arith;
                  echos = omega arith;
                  readys = ground arith;
                })
                k))
        (λ v. record {
          nodes = h;
          network = refl;
          outputs = omega arith;
          echos = omega arith;
          readys = ground arith;
        })

  -- A change of the messages received only.
  received-Kept :
      (s t : Broadcast C R) {step : Step} {u : Broadcast C R}
      → t.netinfo ≡ s.netinfo
      → t.decided ≡ s.decided
      → t.echo_sent ≡ s.echo_sent
      → t.ready_sent ≡ s.ready_sent
      → Kept t step u
      → Kept s step u
  received-Kept s t n d e r k = record {
    nodes = k.nodes;
    network = k.network ∙ n;
    outputs = ground (arith, k.outputs);
    echos = ground (arith, k.echos);
    readys = ground (arith, k.readys);
  }

  -- An instance sends `Ready` only while it has not, so a nested call does not nest again.
  ready_with-Kept :
      (again : NodeId → Digest → Bc C R Step) (id : NodeId) (hash : Digest) (s : Broadcast C R)
      → (s.ready_sent ≡ true) ⊎ Nested again
      → 0 < length (all_ids s.netinfo)
      → Returns (Kept s) (ready_with sha3_256 again id hash s)
  unfolding ready_with
  ready_with-Kept again id hash s nested h = elim (Option-cases (get s.readys id)) [
    | inr (old, e) ↦ rw e (
        Returns-test (Kept s) (bytes_eq old hash) _ _ s (λ same. Kept-default s h)
          (λ other. Kept-fault s h))
    | inl new ↦
        let t : Broadcast C R = record s { readys = insert id hash s.readys } in
        rw new (
          Returns-bind (Kept t) (Kept s) _ _
            (Returns-when (Kept t)
              ((count_readys t hash == s.netinfo.num_faulty + 1) && not s.ready_sent) _ t
              (λ amplify.
                send_ready-Kept again hash t
                  (elim nested [ inl old ↦ absurd (ground arith) | inr call ↦ call ]) h
                  (ground arith))
              (λ other. Kept-default t h))
            (λ first u k.
              Returns-bind (Kept u) (Kept s) (compute_output sha3_256 hash u)
                (λ second. return (join first second)) (compute_output-Kept hash u k.nodes)
                (λ second w l. received-Kept s t refl refl refl refl (Kept-extend k l))))
  ]

  ready_fuel-Nested : (n : ℕ) → Nested (ready_fuel sha3_256 (suc n))
  unfolding ready_fuel
  ready_fuel-Nested n id hash s h known =
      ready_with-Kept (ready_fuel sha3_256 n) id hash s (inl known) h

  pub handle_ready-Kept :
      (id : NodeId) (hash : Digest) (s : Broadcast C R)
      → 0 < length (all_ids s.netinfo)
      → Returns (Kept s) (handle_ready sha3_256 id hash s)
  unfolding handle_ready ready_fuel
  handle_ready-Kept id hash s h =
      ready_with-Kept (ready_fuel sha3_256 1) id hash s (inr (ready_fuel-Nested 0)) h

  pub handle_echo-Kept :
      (id : NodeId) (p : Proof) (s : Broadcast C R)
      → 0 < length (all_ids s.netinfo)
      → Returns (Kept s) (handle_echo sha3_256 id p s)
  unfolding handle_echo
  handle_echo-Kept id p s h = elim (Option-cases (get s.echos id)) [
    | inr (old, e) ↦ rw e (
        Returns-test (Kept s) (proof_eq old p) _ _ s (λ same. Kept-default s h)
          (λ other. Kept-fault s h))
    | inl new ↦
        let t : Broadcast C R = record s { echos = insert id p s.echos } in
        let quiet = s.ready_sent || ltb (count_echos t p.root_hash) (num_correct s.netinfo) in
        rw new (
          Returns-test (Kept s) (validate_proof sha3_256 s p id) _ _ s
            (λ valid.
              Returns-test (Kept s) quiet _ _ t
                (λ q.
                  Returns-weaken (Kept t) (Kept s) _
                    (λ step u k. received-Kept s t refl refl refl refl k)
                    (compute_output-Kept p.root_hash t h))
                (λ q.
                  Returns-weaken (Kept t) (Kept s) _
                    (λ step u k. received-Kept s t refl refl refl refl k)
                    (send_ready-Kept (handle_ready sha3_256) p.root_hash t
                      (λ i d u n known. handle_ready-Kept i d u n) h (ground arith))))
            (λ bad. Kept-fault s h))
  ]

  pub send_echo-Kept :
      (p : Proof) (s : Broadcast C R)
      → 0 < length (all_ids s.netinfo)
      → s.echo_sent ≡ false
      → Returns (Kept s) (send_echo sha3_256 p s)
  unfolding send_echo
  send_echo-Kept p s h fresh =
      let marked : Broadcast C R = record s { echo_sent = true } in
      Returns-test (Kept s) s.netinfo.is_validator _ _ marked
        (λ v.
          Returns-bind (Kept marked) (Kept s) (handle_echo sha3_256 s.netinfo.our_id p marked) _
            (handle_echo-Kept s.netinfo.our_id p marked h)
            (λ step t k.
              Kept-extend {s = s} {t = marked} {u = t}
                {a = from_message (message Target.all (echo p))}
                (record {
                  nodes = h;
                  network = refl;
                  outputs = omega arith;
                  echos = ground arith;
                  readys = omega arith;
                })
                k))
        (λ v. record {
          nodes = h;
          network = refl;
          outputs = omega arith;
          echos = ground arith;
          readys = omega arith;
        })
