-- ===== src/SenderQueue/Kept.antt =====
-- src/sender_queue/mod.rs: a sender queue through any sequence of inputs and messages.
use hbbft.Prelude.{
  ℕ, ◌≡◌, refl, true, List, [], ◌∷◌, ◌++◌, all, is_some, ==_refl, Bool-cases, Option-cases, inl,
  inr, arith, Leaves-if, Outcome, ok, err, panicked, exhausted,
}
use hbbft.Prelude.BTreeMap.{BTreeMap, get, values}
use hbbft.Prelude.BTreeMap.Ascending.{insert-IsAscending}
use hbbft.FaultLog.{NodeId}
use hbbft.Messaging
use hbbft.Messaging.{Target, node, TargetedMessage}
use hbbft.Traits
use hbbft.SenderQueue.Interface.{Algorithm, Queueable, Message, algo, epoch_started, is_accepted}
use hbbft.SenderQueue.Deferral.{
  Deferral, defer_one, defer_split, defer_target, defer_all, defer_messages,
}
use hbbft.SenderQueue.Instance.{
  SenderQueue, Step, Sq, get_or, enqueue, update_epoch, process_step, applied, apply, handle_input,
  dispatch, handle_message,
}
use hbbft.SenderQueue.Invariant.{
  AreQueues, AreQueues-queue, IsWellFormed, update_epoch-IsWellFormed,
  handle_epoch_started-IsWellFormed,
}

-- Every recipient is a peer.
abbrev ArePeers : {M : Type 0} → BTreeMap ℕ → List (NodeId × M) → Type 0
ArePeers peers [] = Unit {0}
ArePeers peers ((id, m) ∷ msgs) = (is_some (get peers id) ≡ true) × ArePeers peers msgs

ArePeers-append :
    {M : Type 0} (peers : BTreeMap ℕ) (xs : List (NodeId × M)) (id : NodeId) (m : M)
    → ArePeers peers xs
    → is_some (get peers id) ≡ true
    → ArePeers peers (xs ++ (id, m) ∷ [])
ArePeers-append peers [] id m h e = (e, tt)
ArePeers-append peers ((i, x) ∷ xs) id m h e = (h.0, ArePeers-append peers xs id m h.1 e)

module _ {M : Type 0} (q : Queueable M) (max_future_epochs : ℕ) (peers : BTreeMap ℕ) where
  defer_one-ArePeers :
      (id : NodeId) (them : ℕ) (m : M) (d : Deferral M)
      → ArePeers peers d.deferred_msgs
      → is_some (get peers id) ≡ true
      → ArePeers peers (defer_one q max_future_epochs id them m d).deferred_msgs
  unfolding defer_one
  defer_one-ArePeers id them m d h e = elim (Bool-cases (q.is_premature m them max_future_epochs)) [
    | inl early ↦ rw (early, defer_one) (ArePeers-append peers d.deferred_msgs id m h e)
    | inr soon ↦
        rw (soon, defer_one)
          (elim (Bool-cases (q.is_obsolete m them)) [ inl old ↦ rw old h | inr fresh ↦ rw fresh h ])
  ]

  -- The peers that are left are peers.
  defer_split-ArePeers :
      (rest : BTreeMap ℕ) (m : M) (d : Deferral M)
      → ArePeers peers d.deferred_msgs
      → ((id : NodeId) → is_some (get rest id) ≡ true → is_some (get peers id) ≡ true)
      → ArePeers peers (defer_split q max_future_epochs rest m d).deferred_msgs
  unfolding defer_split get
  defer_split-ArePeers [] m d h e = h
  defer_split-ArePeers ((id, them) ∷ rest) m d h e =
      defer_split-ArePeers rest m (defer_one q max_future_epochs id them m d)
        (defer_one-ArePeers id them m d h (e id (rw (==_refl id) refl)))
        (λ j there. e j (ground arith))

  defer_target-ArePeers :
      (t : Target) (m : M) (d : Deferral M)
      → ArePeers peers d.deferred_msgs
      → ArePeers peers (defer_target q max_future_epochs peers t m d).deferred_msgs
  unfolding defer_target
  defer_target-ArePeers (node id) m d h = elim (Option-cases (get peers id)) [
    | inl unknown ↦ rw (unknown, defer_target) h
    | inr (them, known) ↦
        rw (known, defer_target) (defer_one-ArePeers id them m d h (rw known refl))
  ]
  defer_target-ArePeers Messaging.all m d h =
      elim (Bool-cases (all (λ x. is_accepted q m x max_future_epochs) (values peers))) [
        | inl accepted ↦ rw (accepted, defer_target) h
        | inr mixed ↦ rw (mixed, defer_target) (defer_split-ArePeers peers m d h (λ id e. e))
      ]

  defer_all-ArePeers :
      (msgs : List (TargetedMessage M)) (d : Deferral M)
      → ArePeers peers d.deferred_msgs
      → ArePeers peers (defer_all q max_future_epochs peers msgs d).deferred_msgs
  unfolding defer_all
  defer_all-ArePeers [] d h = h
  defer_all-ArePeers (msg ∷ msgs) d h =
      defer_all-ArePeers msgs _ (defer_target-ArePeers msg.target msg.message d h)

enqueue-AreQueues :
    {M : Type 0} (first_epoch : M → ℕ) (peers : BTreeMap ℕ) (msgs : List (NodeId × M))
    (outgoing : BTreeMap (BTreeMap (List M)))
    → ArePeers peers msgs
    → AreQueues peers outgoing
    → AreQueues peers (enqueue first_epoch msgs outgoing)
unfolding enqueue
enqueue-AreQueues first_epoch peers [] outgoing known h = h
enqueue-AreQueues first_epoch peers ((id, m) ∷ msgs) outgoing (there, known) h =
    enqueue-AreQueues first_epoch peers msgs _ known (
      AreQueues-queue peers outgoing id _ h
        (insert-IsAscending (first_epoch m) _ (get_or [] (get outgoing id)) (h.queues_ascend id))
        there)

-- What a sender queue is told.
pub data Event (A : Algorithm) : Type 0 where
  input : A.Input → Event A
  receive : NodeId → Message A.Message → Event A

module _ {A : Algorithm} where
  process_step-IsWellFormed :
      (step : Traits.Step A.Message A.Output A.FaultKind) (s : SenderQueue A)
      → IsWellFormed s
      → IsWellFormed (process_step A step s).1
  unfolding process_step defer_messages
  process_step-IsWellFormed step s h =
      let t = (update_epoch A step.output s).1 in
      enqueue-AreQueues A.queueable.first_epoch t.peer_epochs _ t.outgoing_queue
        (defer_all-ArePeers A.queueable (A.max_future_epochs t.algo) t.peer_epochs step.messages
          (record { deferred_msgs = []; passed_msgs = [] }) tt)
        (update_epoch-IsWellFormed step.output s h)

  applied-IsWellFormed :
      (r : Outcome A.Error (Traits.Step A.Message A.Output A.FaultKind) × A.State)
      (s : SenderQueue A)
      → IsWellFormed s
      → IsWellFormed (applied A r s).1
  unfolding applied
  applied-IsWellFormed (ok step, a) s h = process_step-IsWellFormed step (record s { algo = a }) h
  applied-IsWellFormed (err e, a) s h = h
  applied-IsWellFormed (panicked, a) s h = h
  applied-IsWellFormed (exhausted, a) s h = h

  dispatch-IsWellFormed :
      (id : NodeId) (msg : Message A.Message) (s : SenderQueue A)
      → IsWellFormed s
      → IsWellFormed (dispatch A id msg s).1
  unfolding dispatch apply
  dispatch-IsWellFormed id (epoch_started e) s h = handle_epoch_started-IsWellFormed id e s h
  dispatch-IsWellFormed id (algo msg) s h =
      applied-IsWellFormed (A.handle_message id msg s.algo) s h

  abbrev pub on_event : Event A → Sq A (Step A)
  on_event (input i) = handle_input A i
  on_event (receive id msg) = handle_message A id msg

  on_event-IsWellFormed :
      (e : Event A) (s : SenderQueue A) → IsWellFormed s → IsWellFormed (on_event e s).1
  unfolding handle_input handle_message apply
  on_event-IsWellFormed (input i) s h =
      Leaves-if IsWellFormed s.is_removed _ _ h (applied-IsWellFormed (A.handle_input i s.algo) s h)
  on_event-IsWellFormed (receive id msg) s h =
      Leaves-if IsWellFormed s.is_removed _ _ h (dispatch-IsWellFormed id msg s h)

  -- The state after a sequence of calls, whose errors the caller drops.
  unfoldable pub run : List (Event A) → SenderQueue A → SenderQueue A
  run [] s = s
  run (e ∷ es) s = run es (on_event e s).1

  -- Whatever a sender queue is told, also when the algorithm fails: if its peers, its queues and
  -- their epochs are in ascending order and only peers have queues, that stays so.
  pub run-IsWellFormed :
      (es : List (Event A)) (s : SenderQueue A) → IsWellFormed s → IsWellFormed (run es s)
  unfolding run
  run-IsWellFormed [] s h = h
  run-IsWellFormed (e ∷ es) s h = run-IsWellFormed es (on_event e s).1 (on_event-IsWellFormed e s h)
