-- ===== src/Broadcast/History.antt =====
-- src/broadcast/broadcast.rs: an instance from its start, through any sequence of messages.
use hbbft.Prelude.{
  ℕ, ◌*◌, ◌-◌, Option-cases, ltb, ◌≤◌, ◌<◌, ◌≡◌, refl, true, false, List, [], ◌∷◌, length, flag,
  count, arith, ◌==◌, Outcome, ok, err, panicked, exhausted, Returns, Returns-bind, Returns-weaken,
  Returns-test, ◌>>=◌, return, inl, inr, Bool-cases,
}
use hbbft.FaultLog.{NodeId}
use hbbft.Traits.{default, extend}
use hbbft.Crypto.{Crypto}
use hbbft.NetworkInfo.{NetworkInfo, all_ids, is_node_validator}
use hbbft.Broadcast.Merkle.{Digest, Proof}
use hbbft.Broadcast.Coding
use hbbft.Broadcast.Coding.{ReedSolomon}
use hbbft.Broadcast.Decoding.{Restores}
use hbbft.Broadcast.Instance.{
  Error, Message, value, echo, ready, Step, Broadcast, Bc, new, echoed, validate_proof,
  handle_value, handle_message, unknown_sender,
}
use hbbft.Broadcast.Once.{
  Kept, Kept-fault, Kept-default, Kept-extend, handle_echo-Kept, handle_ready-Kept, send_echo-Kept,
  is_echo, is_ready,
}

-- What an instance may send and output until it is in the given state.
pub record AtMostOnce {C : Crypto} {R : ReedSolomon} (step : Step) (t : Broadcast C R)
    : Type 0 where
  pub outputs : length step.output ≡ flag t.decided
  pub echos : count is_echo step.messages ≤ 1
  pub readys : count is_ready step.messages ≤ 1

module _ {C : Crypto} {R : ReedSolomon} where
  -- A caller that drops an error.
  abbrev pub ignoring : Outcome Error Step × Broadcast C R → Outcome Error Step × Broadcast C R
  ignoring (ok step, s) = (ok step, s)
  ignoring (err e, s) = (ok default, s)
  ignoring (panicked, s) = (panicked, s)
  ignoring (exhausted, s) = (exhausted, s)

  -- The steps of all messages, joined.
  unfoldable pub history : (List ℕ → Digest) → List (NodeId × Message) → Bc C R Step
  history sha3_256 [] = return default
  history sha3_256 ((id, msg) ∷ es) = do
    first ← (λ s. ignoring (handle_message sha3_256 id msg s))
    rest ← history sha3_256 es
    return (extend first rest)

module _ {C : Crypto} {R : ReedSolomon} where
  -- A new instance has sent nothing and has not decided.
  record Fresh (n : NetworkInfo C) (s : Broadcast C R) : Type 0 where
    network : s.netinfo ≡ n
    undecided : s.decided ≡ false
    no_echo : s.echo_sent ≡ false
    no_ready : s.ready_sent ≡ false

  new-Fresh :
      (n : NetworkInfo C) (proposer : NodeId) (s : Broadcast C R)
      → new n proposer ≡ ok s
      → Fresh n s
  unfolding new
  new-Fresh n proposer s e = elim (Bool-cases (ltb n.num_nodes (2 * n.num_faulty))) [
    | inl few ↦ absurd (ground arith)
    | inr enough ↦
        elim (Option-cases
          (Coding.new {R = R} (n.num_nodes - 2 * n.num_faulty) (2 * n.num_faulty))) [
            | inl refused ↦ absurd (ground arith)
            | inr (coding, built) ↦ record {
              network = ground arith;
              undecided = ground arith;
              no_echo = ground arith;
              no_ready = ground arith;
            }
          ]
  ]

module _ {C : Crypto} {R : ReedSolomon} (L : Restores R) (sha3_256 : List ℕ → Digest) where
  handle_value-Kept :
      (id : NodeId) (p : Proof) (s : Broadcast C R)
      → 0 < length (all_ids s.netinfo)
      → Returns (Kept s) (handle_value sha3_256 id p s)
  unfolding handle_value
  handle_value-Kept id p s h =
      Returns-test (Kept s) (id == s.proposer_id) _ _ s
        (λ from.
          Returns-test (Kept s) s.echo_sent _ _ s
            (λ again.
              Returns-test (Kept s) (echoed s p) _ _ s (λ same. Kept-default s h)
                (λ other. Kept-fault s h))
            (λ fresh.
              Returns-test (Kept s) (validate_proof sha3_256 s p s.netinfo.our_id) _ _ s
                (λ valid. send_echo-Kept L sha3_256 p s h fresh) (λ bad. Kept-fault s h)))
        (λ other. Kept-fault s h)

  -- A message from a validator is handled: the call ends with a step, whatever was received
  -- before. The output, the `Echo` and the `Ready` are in the step exactly when the state records
  -- them for the first time; an observer sends nothing.
  pub handle_message-Kept :
      (id : NodeId) (msg : Message) (s : Broadcast C R)
      → 0 < length (all_ids s.netinfo)
      → is_node_validator s.netinfo id ≡ true
      → Returns (Kept s) (handle_message sha3_256 id msg s)
  unfolding handle_message
  handle_message-Kept id (value p) s h known = rw known (handle_value-Kept id p s h)
  handle_message-Kept id (echo p) s h known = rw known (handle_echo-Kept L sha3_256 id p s h)
  handle_message-Kept id (ready hash) s h known =
      rw known (handle_ready-Kept L sha3_256 id hash s h)

  unknown_sender-refused :
      (id : NodeId) (msg : Message) (s : Broadcast C R)
      → is_node_validator s.netinfo id ≡ false
      → handle_message sha3_256 id msg s ≡ (err unknown_sender, s)
  unfolding handle_message
  unknown_sender-refused id msg s unknown = rw unknown refl

  ignoring-Kept :
      (s : Broadcast C R) (r : Outcome Error Step × Broadcast C R)
      → Returns (Kept s) r
      → Returns (Kept s) (ignoring r)
  ignoring-Kept s (ok step, t) k = k
  ignoring-Kept s (err e, t) k = absurd k
  ignoring-Kept s (panicked, t) k = absurd k
  ignoring-Kept s (exhausted, t) k = absurd k

  event-Kept :
      (id : NodeId) (msg : Message) (s : Broadcast C R)
      → 0 < length (all_ids s.netinfo)
      → Returns (Kept s) (ignoring (handle_message sha3_256 id msg s))
  event-Kept id msg s h = elim (Bool-cases (is_node_validator s.netinfo id)) [
    | inl known ↦ ignoring-Kept s _ (handle_message-Kept id msg s h known)
    | inr unknown ↦ rw (unknown_sender-refused id msg s unknown) (Kept-default s h)
  ]

  history-Kept :
      (es : List (NodeId × Message)) (s : Broadcast C R)
      → 0 < length (all_ids s.netinfo)
      → Returns (Kept s) (history sha3_256 es s)
  unfolding history
  history-Kept [] s h = Kept-default s h
  history-Kept ((id, msg) ∷ es) s h =
      Returns-bind (Kept s) (Kept s) (ignoring (handle_message sha3_256 id msg s)) _
        (event-Kept id msg s h)
        (λ first t k.
          Returns-bind (Kept t) (Kept s) (history sha3_256 es t)
            (λ rest. return (extend first rest)) (history-Kept es t k.nodes)
            (λ rest u l. Kept-extend k l))

  -- For a code that restores all shards whenever it succeeds: whatever messages an instance of a
  -- network with at least one node receives from its start, in whatever order and by whom, and
  -- when the caller drops the errors, no call panics, it has output once if it has decided and
  -- nothing otherwise, and `Echo` and `Ready` are sent at most once.
  pub messages-AtMostOnce :
      (n : NetworkInfo C) (proposer : NodeId) (es : List (NodeId × Message)) (s : Broadcast C R)
      → 0 < length (all_ids n)
      → new n proposer ≡ ok s
      → Returns AtMostOnce (history sha3_256 es s)
  messages-AtMostOnce n proposer es s h e =
      let f = new-Fresh n proposer s e in
      Returns-weaken (Kept s) AtMostOnce _
        (λ step t k. record {
          outputs = ground (arith, k.outputs, f.undecided);
          echos = ground (arith, k.echos, f.no_echo);
          readys = ground (arith, k.readys, f.no_ready);
        })
        (history-Kept es s (rw f.network h))
