-- ===== src/SenderQueue/Queued.antt =====
-- src/sender_queue/mod.rs: where the messages of a step of the algorithm go.
use hbbft.Prelude.{
  ℕ, ◌≡◌, refl, sym, ap, ◌∙◌, true, false, some, List, [], ◌∷◌, ◌++◌, keep, keep-pass, keep-drop,
  map, append-nil, append_assoc, ◌==◌, ==_iff, ==_refl, Bool-cases, inl, inr, ◌⊎◌, map-append,
}
use hbbft.Prelude.BTreeMap.{BTreeMap, get, insert, get-insert_same, get-insert_other}
use hbbft.Prelude.BTreeMap.Ascending.{IsAscending}
use hbbft.FaultLog.{NodeId}
use hbbft.Messaging.{TargetedMessage, targeted_map}
use hbbft.Traits
use hbbft.SenderQueue.Interface.{Algorithm, algo, is_accepted}
use hbbft.SenderQueue.Delivery.{addressed, waiting, is_for, keep-append, defer_messages-Splits}
use hbbft.SenderQueue.Instance.{SenderQueue, get_or, enqueue, update_epoch, process_step}

-- The messages for a peer that wait for an epoch.
abbrev pub queued : {M : Type 0} → BTreeMap (BTreeMap (List M)) → NodeId → ℕ → List M
queued outgoing id k = get_or [] (get (get_or [] (get outgoing id)) k)

module _ {M : Type 0} (id : NodeId) where
  addressed-pass :
      (m : TargetedMessage M) (msgs : List (TargetedMessage M))
      → is_for id m.target ≡ true
      → addressed id (m ∷ msgs) ≡ m.message ∷ addressed id msgs
  addressed-pass m msgs e =
      ap (map (λ x. x.message)) (keep-pass (λ (x : TargetedMessage M). is_for id x.target) m msgs e)

  addressed-drop :
      (m : TargetedMessage M) (msgs : List (TargetedMessage M))
      → is_for id m.target ≡ false
      → addressed id (m ∷ msgs) ≡ addressed id msgs
  addressed-drop m msgs e =
      ap (map (λ x. x.message)) (keep-drop (λ (x : TargetedMessage M). is_for id x.target) m msgs e)

  waiting-pass :
      (p : NodeId) (m : M) (msgs : List (NodeId × M))
      → (p == id) ≡ true
      → waiting id ((p, m) ∷ msgs) ≡ m ∷ waiting id msgs
  waiting-pass p m msgs e =
      ap (map {A = NodeId × M} (λ x. x.1)) (keep-pass (λ (x : NodeId × M). x.0 == id) (p, m) msgs e)

  waiting-drop :
      (p : NodeId) (m : M) (msgs : List (NodeId × M))
      → (p == id) ≡ false
      → waiting id ((p, m) ∷ msgs) ≡ waiting id msgs
  waiting-drop p m msgs e =
      ap (map {A = NodeId × M} (λ x. x.1)) (keep-drop (λ (x : NodeId × M). x.0 == id) (p, m) msgs e)

  waiting-cons :
      (p : NodeId) (m : M) (msgs : List (NodeId × M))
      → waiting id ((p, m) ∷ []) ++ waiting id msgs ≡ waiting id ((p, m) ∷ msgs)
  waiting-cons p m msgs = elim (Bool-cases (p == id)) [
    | inl e ↦ rw (waiting-pass p m [] e) (sym (waiting-pass p m msgs e))
    | inr e ↦ rw (waiting-drop p m [] e) (sym (waiting-drop p m msgs e))
  ]

module _ {M : Type 0} (first_epoch : M → ℕ) (id : NodeId) (k : ℕ) where
  -- The place of one message for the peer, and for any.
  queued-own :
      (m : M) (outgoing : BTreeMap (BTreeMap (List M)))
      → let queue = get_or [] (get outgoing id) in
        queued
          (insert id
            (insert (first_epoch m) (get_or [] (get queue (first_epoch m)) ++ m ∷ []) queue)
            outgoing)
          id
          k
        ≡ queued outgoing id k ++ keep (λ m. first_epoch m == k) (waiting id ((id, m) ∷ []))
  queued-own m outgoing =
      let queue = get_or [] (get outgoing id) in
      let msgs = get_or [] (get queue (first_epoch m)) ++ m ∷ [] in
      let mine = waiting-pass id id m [] (==_refl id) in
      ap (λ o. get_or [] (get (get_or [] o) k))
        (get-insert_same id (insert (first_epoch m) msgs queue) outgoing id (==_refl id))
      ∙ (elim (Bool-cases (first_epoch m == k)) [
        | inl now ↦
            ap (get_or []) (get-insert_same (first_epoch m) msgs queue k now)
            ∙ ap (λ i. queued outgoing id i ++ m ∷ []) ((==_iff (first_epoch m) k).0 now)
            ∙ ap (λ l. queued outgoing id k ++ l)
                (sym (
                  ap (keep (λ m. first_epoch m == k)) mine
                  ∙ keep-pass (λ m. first_epoch m == k) m [] now))
        | inr other ↦
            ap (get_or []) (get-insert_other (first_epoch m) msgs queue k other)
            ∙ sym (append-nil (queued outgoing id k))
            ∙ ap (λ l. queued outgoing id k ++ l)
                (sym (
                  ap (keep (λ m. first_epoch m == k)) mine
                  ∙ keep-drop (λ m. first_epoch m == k) m [] other))
      ])

  queued-insert :
      (p : NodeId) (m : M) (outgoing : BTreeMap (BTreeMap (List M)))
      → let queue = get_or [] (get outgoing p) in
        queued
          (insert p
            (insert (first_epoch m) (get_or [] (get queue (first_epoch m)) ++ m ∷ []) queue)
            outgoing)
          id
          k
        ≡ queued outgoing id k ++ keep (λ m. first_epoch m == k) (waiting id ((p, m) ∷ []))
  queued-insert p m outgoing = elim (Bool-cases (p == id)) [
    | inr other ↦
        ap (λ o. get_or [] (get (get_or [] o) k)) (get-insert_other p _ outgoing id other)
        ∙ sym (append-nil (queued outgoing id k))
        ∙ ap (λ l. queued outgoing id k ++ keep (λ m. first_epoch m == k) l)
            (sym (waiting-drop id p m [] other))
    | inl same ↦ rw ((==_iff p id).0 same) (queued-own m outgoing)
  ]

  queued-enqueue :
      (msgs : List (NodeId × M)) (outgoing : BTreeMap (BTreeMap (List M)))
      → queued (enqueue first_epoch msgs outgoing) id k
        ≡ queued outgoing id k ++ keep (λ m. first_epoch m == k) (waiting id msgs)
  unfolding enqueue
  queued-enqueue [] outgoing = sym (append-nil (queued outgoing id k))
  queued-enqueue ((p, m) ∷ msgs) outgoing =
      queued-enqueue msgs _
      ∙ ap (λ l. l ++ keep (λ m. first_epoch m == k) (waiting id msgs)) (queued-insert p m outgoing)
      ∙ append_assoc (queued outgoing id k) _ _
      ∙ ap (λ l. queued outgoing id k ++ l)
          (sym (keep-append (λ m. first_epoch m == k) (waiting id ((p, m) ∷ [])) (waiting id msgs))
            ∙ ap (keep (λ m. first_epoch m == k)) (waiting-cons id p m msgs))

addressed-map :
    {M N : Type 0} (f : M → N) (id : NodeId) (msgs : List (TargetedMessage M))
    → addressed id (map (targeted_map f) msgs) ≡ map f (addressed id msgs)
addressed-map f id [] = refl
addressed-map f id (m ∷ msgs) = go (Bool-cases (is_for id m.target)) (addressed-map f id msgs)
  where
    go :
        (is_for id m.target ≡ true) ⊎ (is_for id m.target ≡ false)
        → addressed id (map (targeted_map f) msgs) ≡ map f (addressed id msgs)
        → addressed id (map (targeted_map f) (m ∷ msgs)) ≡ map f (addressed id (m ∷ msgs))
    go (inl e) ih =
        addressed-pass id (targeted_map f m) (map (targeted_map f) msgs) e
        ∙ ap (λ l. f m.message ∷ l) ih
        ∙ ap (map f) (sym (addressed-pass id m msgs e))
    go (inr e) ih =
        addressed-drop id (targeted_map f m) (map (targeted_map f) msgs) e
        ∙ ih
        ∙ ap (map f) (sym (addressed-drop id m msgs e))

module _ (A : Algorithm) where
  -- For a peer of which an epoch is known after the participants were updated for a step of the
  -- algorithm, among peers in ascending order: of the algorithm's messages that are for the peer,
  -- those that it accepts in its epoch are sent behind the messages of the update; those that are
  -- premature go to the end of its queue for their first epoch; and its queues hold nothing else
  -- that is new.
  pub process_step-Accounts :
      (step : Traits.Step A.Message A.Output A.FaultKind) (s : SenderQueue A) (id : NodeId)
      (them k : ℕ)
      → let (update, t) = update_epoch A step.output s in
        let (out, u) = process_step A step s in
        let own = addressed id step.messages in
        get t.peer_epochs id ≡ some them
        → IsAscending t.peer_epochs
        → (addressed id out.messages
            ≡ addressed id update.messages
              ++ map algo
                  (keep (λ m. is_accepted A.queueable m them (A.max_future_epochs t.algo)) own))
          × (queued u.outgoing_queue id k
              ≡ queued t.outgoing_queue id k
                ++ keep
                    (λ m. A.queueable.first_epoch m == k)
                    (keep (λ m. A.queueable.is_premature m them (A.max_future_epochs t.algo)) own))
  unfolding process_step
  process_step-Accounts step s id them k known ascending =
      let (update, t) = update_epoch A step.output s in
      let (sent, waits) =
        defer_messages-Splits A.queueable (A.max_future_epochs t.algo) id them t.peer_epochs step
          known ascending in
      (
        ap (map (λ m. m.message)) (keep-append (λ m. is_for id m.target) update.messages _)
            ∙ map-append (λ m. m.message) (keep (λ m. is_for id m.target) update.messages) _
            ∙ ap (λ l. addressed id update.messages ++ l)
                (addressed-map algo id _ ∙ ap (map algo) sent),
        queued-enqueue A.queueable.first_epoch id k _ t.outgoing_queue
            ∙ ap (λ l. queued t.outgoing_queue id k ++ keep (λ m. A.queueable.first_epoch m == k) l)
                waits,
      )
