-- ===== src/SenderQueue/Instance.antt =====
-- src/sender_queue/mod.rs: a sender queue around an instance of an algorithm.
use hbbft.Prelude.{
  ℕ, Bool, true, false, not, ◌&&◌, Option, none, some, List, [], ◌∷◌, ◌++◌, keep, take_while, ltb,
  leb, ◌==◌, if◌then◌else◌, M as Effect, Outcome, ok, err, panicked, exhausted,
}
use hbbft.Prelude.BTreeMap.{BTreeMap, get, insert, remove, keys}
use hbbft.Prelude.BTreeSet.{BTreeSet, contains}
use hbbft.FaultLog.{NodeId}
use hbbft.Messaging
use hbbft.Messaging.{Target, node, TargetedMessage, message}
use hbbft.Traits
use hbbft.Traits.{default, extend, step_map, from_message}
use hbbft.SenderQueue.Interface.{Algorithm, Message, epoch_started, algo, Error, apply_error}
use hbbft.SenderQueue.Deferral.{defer_messages}

pub record SenderQueue (A : Algorithm) : Type 0 where
  pub algo : A.State
  pub our_id : NodeId
  pub outgoing_queue : BTreeMap (BTreeMap (List A.Message))
  pub peer_epochs : BTreeMap ℕ
  pub last_epochs : BTreeMap ℕ
  pub participants_after_change : BTreeSet
  pub is_removed : Bool

abbrev pub Step : (A : Algorithm) → Type 0
Step A = Traits.Step (Message A.Message) A.Output A.FaultKind

abbrev pub Sq : Algorithm → Type 0 → Type 0
Sq A B = Effect (SenderQueue A) (Error A.Error) B

-- An entry or the default in its place.
abbrev pub get_or {ℓ} : {V : Type ℓ} → V → Option V → V
get_or d none = d
get_or d (some v) = v

-- `entry(id).or_default()`.
abbrev pub or_insert : {V : Type 0} → NodeId → V → BTreeMap V → BTreeMap V
or_insert id v m = insert id (get_or v (get m id)) m

-- `filter_map(|key| queue.remove(&key)).flatten()`.
unfoldable pub release : {M : Type 0} → List ℕ → BTreeMap (List M) → List M × BTreeMap (List M)
release [] queue = ([], queue)
release (k ∷ ks) queue =
    let (msgs, rest) = release ks (remove k queue) in (get_or [] (get queue k) ++ msgs, rest)

-- A deferred message goes behind the others of its epoch for its recipient.
unfoldable pub enqueue :
    {M : Type 0}
    → (M → ℕ)
    → List (NodeId × M)
    → BTreeMap (BTreeMap (List M))
    → BTreeMap (BTreeMap (List M))
enqueue first_epoch [] outgoing = outgoing
enqueue first_epoch ((id, msg) ∷ msgs) outgoing =
    let queue = get_or [] (get outgoing id) in
    let epoch = first_epoch msg in
    enqueue first_epoch msgs
      (insert id (insert epoch (get_or [] (get queue epoch) ++ msg ∷ []) queue) outgoing)

unfoldable pub sent_to : {M : Type 0} → NodeId → List M → List (TargetedMessage (Message M))
sent_to id [] = []
sent_to id (msg ∷ msgs) = message (node id) (algo msg) ∷ sent_to id msgs

-- The later of the epoch that is announced and the one that is known.
abbrev pub later_epoch : Option ℕ → ℕ → ℕ
later_epoch none epoch = epoch
later_epoch (some e) epoch = if ltb e epoch then epoch else e

-- `SenderQueueBuilder::new`, with the peers in the epoch 0.
unfoldable pub initial_epochs : List NodeId → BTreeMap ℕ → BTreeMap ℕ
initial_epochs [] peers = peers
initial_epochs (id ∷ ids) peers = initial_epochs ids (insert id 0 peers)

module _ (A : Algorithm) where
  -- Whether the peer is known and in no newer epoch than its last one.
  unfoldable pub is_up_to : NodeId → ℕ → SenderQueue A → Bool
  is_up_to id last_epoch s = elim (get s.peer_epochs id) [
    | none ↦ false
    | some peer_epoch ↦ leb peer_epoch last_epoch
  ]

  unfoldable pub remove_peer : NodeId → ℕ → SenderQueue A → Bool × SenderQueue A
  remove_peer id last_epoch s = if is_up_to id last_epoch s then (false, s) else (
    true,
    record s {
      peer_epochs = remove id s.peer_epochs;
      outgoing_queue = remove id s.outgoing_queue;
      last_epochs = remove id s.last_epochs;
    },
  )

  unfoldable pub remove_participant_if_old : NodeId → SenderQueue A → Bool × SenderQueue A
  remove_participant_if_old id s = elim (get s.last_epochs id) [
    | none ↦ (false, s)
    | some last_epoch ↦
        if leb (A.epoch s.algo) last_epoch
        then (false, s)
        else if id == s.our_id
        then (true, record s { is_removed = true; last_epochs = remove id s.last_epochs })
        else remove_peer id last_epoch s
  ]

  unfoldable pub remove_participant_after : NodeId → ℕ → SenderQueue A → Bool × SenderQueue A
  remove_participant_after id last_epoch s =
      remove_participant_if_old id (record s { last_epochs = insert id last_epoch s.last_epochs })

  -- The release of the messages for a peer that has come to an epoch.
  unfoldable pub process_new_epoch : NodeId → ℕ → SenderQueue A → Step A × SenderQueue A
  process_new_epoch sender_id epoch s = elim (get s.outgoing_queue sender_id) [
    | none ↦ (default, s)
    | some queue ↦
        let earlier_keys = take_while (λ this_epoch. leb this_epoch epoch) (keys queue) in
        let (msgs, rest) = release earlier_keys queue in
        let fresh = keep (λ msg. not (A.queueable.is_obsolete msg epoch)) msgs in
        (
          record { output = []; fault_log = []; messages = sent_to sender_id fresh },
          record s { outgoing_queue = insert sender_id rest s.outgoing_queue },
        )
  ]

  unfoldable pub handle_epoch_started : NodeId → ℕ → SenderQueue A → Step A × SenderQueue A
  handle_epoch_started sender_id epoch s =
      let known = record s {
        peer_epochs =
            insert sender_id (later_epoch (get s.peer_epochs sender_id) epoch) s.peer_epochs;
      } in
      let (removed, t) = remove_participant_if_old sender_id known in
      if removed then (default, t) else process_new_epoch sender_id epoch t

  -- A participant of the next epoch becomes a peer, and is not removed on account of an epoch
  -- before the output.
  unfoldable pub insert_candidate : ℕ → NodeId → SenderQueue A → SenderQueue A
  insert_candidate output_epoch id s = if id == s.our_id then s else (record s {
    peer_epochs = or_insert id 0 s.peer_epochs;
    last_epochs = elim (get s.last_epochs id) [
      | none ↦ s.last_epochs
      | some last ↦ if ltb last output_epoch then remove id s.last_epochs else s.last_epochs
    ];
  })

  unfoldable pub insert_candidates : ℕ → List NodeId → SenderQueue A → SenderQueue A
  insert_candidates output_epoch [] s = s
  insert_candidates output_epoch (id ∷ ids) s =
      insert_candidates output_epoch ids (insert_candidate output_epoch id s)

  unfoldable pub remove_participants : ℕ → List NodeId → SenderQueue A → SenderQueue A
  remove_participants output_epoch [] s = s
  remove_participants output_epoch (id ∷ ids) s =
      remove_participants output_epoch ids (remove_participant_after id output_epoch s).1

  -- A change of the participants, and whether it removes this node.
  unfoldable pub change_participants : ℕ → BTreeSet → SenderQueue A → Bool × SenderQueue A
  change_participants output_epoch next_participants s =
      let t = insert_candidates output_epoch next_participants s in
      let gone = keep (λ id. not (contains next_participants id)) t.participants_after_change in
      let u = remove_participants output_epoch gone t in
      (
        contains u.participants_after_change u.our_id && not (contains next_participants u.our_id),
        record u { participants_after_change = next_participants },
      )

  unfoldable pub update_participants : List A.Output → Bool → SenderQueue A → Bool × SenderQueue A
  update_participants [] send_last s = (send_last, s)
  update_participants (batch ∷ batches) send_last s = elim (A.participant_change batch) [
    | none ↦ update_participants batches send_last s
    | some next_participants ↦
        let (leaves, t) = change_participants (A.output_epoch batch) next_participants s in
        update_participants batches (if leaves then true else send_last) t
  ]

  unfoldable pub update_epoch : List A.Output → SenderQueue A → Step A × SenderQueue A
  update_epoch [] s = (default, s)
  update_epoch (batch ∷ batches) s =
      let (send_last, t) = update_participants (batch ∷ batches) false s in
      if t.is_removed && not send_last
      then (default, t)
      else (from_message (message Messaging.all (epoch_started (A.epoch t.algo))), t)

  -- The step of the algorithm turned into a step of the sender queue.
  unfoldable pub process_step :
      Traits.Step A.Message A.Output A.FaultKind → SenderQueue A → Step A × SenderQueue A
  process_step step s =
      let (sender_queue_step, t) = update_epoch step.output s in
      let (deferred, rest) =
        defer_messages A.queueable (A.max_future_epochs t.algo) t.peer_epochs step in
      (
        extend sender_queue_step (step_map (λ o. o) (λ f. f) algo rest),
        record t { outgoing_queue = enqueue A.queueable.first_epoch deferred t.outgoing_queue },
      )

  -- What `apply` makes of the result of the algorithm.
  unfoldable pub applied :
      Outcome A.Error (Traits.Step A.Message A.Output A.FaultKind) × A.State → Sq A (Step A)
  applied (ok step, a) s = let (out, t) = process_step step (record s { algo = a }) in (ok out, t)
  applied (err e, a) s = (err (apply_error e), record s { algo = a })
  applied (panicked, a) s = (panicked, record s { algo = a })
  applied (exhausted, a) s = (exhausted, record s { algo = a })

  unfoldable pub apply :
      Effect A.State A.Error (Traits.Step A.Message A.Output A.FaultKind) → Sq A (Step A)
  apply f s = applied (f s.algo) s

  unfoldable pub handle_input : A.Input → Sq A (Step A)
  handle_input input s = if s.is_removed then (ok default, s) else apply (A.handle_input input) s

  unfoldable pub dispatch : NodeId → Message A.Message → Sq A (Step A)
  dispatch sender_id (epoch_started epoch) s =
      let (step, t) = handle_epoch_started sender_id epoch s in (ok step, t)
  dispatch sender_id (algo msg) s = apply (A.handle_message sender_id msg) s

  unfoldable pub handle_message : NodeId → Message A.Message → Sq A (Step A)
  handle_message sender_id msg s =
      if s.is_removed then (ok default, s) else dispatch sender_id msg s

  unfoldable pub build : A.State → BTreeMap ℕ → NodeId → SenderQueue A × Step A
  build a peer_epochs our_id = (
    record {
      algo = a;
      our_id = our_id;
      outgoing_queue = [];
      peer_epochs = peer_epochs;
      last_epochs = [];
      participants_after_change = [];
      is_removed = false;
    },
    from_message (message Messaging.all (epoch_started (A.epoch a))),
  )
