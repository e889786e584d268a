-- ===== src/SenderQueue/Invariant.antt =====
-- src/sender_queue/mod.rs: what the state of a sender queue keeps.
use hbbft.Prelude.{
  ℕ, ◌≡◌, refl, sym, ap, ◌∙◌, subst, Bool, true, false, not, none, List, [], ◌∷◌, is_some, ◌==◌,
  ==_iff, Bool-cases, Option-cases, inl, inr, leb, arith, ◌&&◌,
}
use hbbft.Prelude.BTreeMap.{BTreeMap, get, insert, remove, get-insert_same, get-insert_other}
use hbbft.Prelude.BTreeMap.Ascending.{
  IsAscending, insert-IsAscending, remove-IsAscending, get-remove, keep-IsAscending,
}
use hbbft.FaultLog.{NodeId}
use hbbft.SenderQueue.Interface.{Algorithm}
use hbbft.SenderQueue.Release.{after, release_lem}
use hbbft.SenderQueue.Instance.{
  SenderQueue, get_or, is_up_to, remove_peer, remove_participant_if_old, remove_participant_after,
  later_epoch, process_new_epoch, handle_epoch_started, insert_candidate, insert_candidates,
  remove_participants, change_participants, update_participants, update_epoch,
}

-- The messages that wait, by the peer and the epoch: all maps are in ascending order, and only
-- peers have queues.
pub record AreQueues {M : Type 0} (peers : BTreeMap ℕ) (outgoing : BTreeMap (BTreeMap (List M)))
    : Type 0 where
  pub peers_ascend : IsAscending peers
  pub outgoing_ascends : IsAscending outgoing
  pub queues_ascend : (id : NodeId) → IsAscending (get_or [] (get outgoing id))
  pub known : (id : NodeId) → get peers id ≡ none → get outgoing id ≡ none

abbrev pub IsWellFormed : {A : Algorithm} → SenderQueue A → Type 0
IsWellFormed s = AreQueues s.peer_epochs s.outgoing_queue

module _ {M : Type 0} (peers : BTreeMap ℕ) (outgoing : BTreeMap (BTreeMap (List M))) where
  -- A new epoch of a peer.
  pub AreQueues-peer :
      (id : NodeId) (e : ℕ) → AreQueues peers outgoing → AreQueues (insert id e peers) outgoing
  AreQueues-peer id e h = record {
    peers_ascend = insert-IsAscending id e peers h.peers_ascend;
    outgoing_ascends = h.outgoing_ascends;
    queues_ascend = h.queues_ascend;
    known = λ j missing. elim (Bool-cases (id == j)) [
      | inl same ↦
          let found = get-insert_same id e peers j same in absurd (ground (arith, missing, found))
      | inr other ↦ h.known j (sym (get-insert_other id e peers j other) ∙ missing)
    ];
  }

  -- A queue of a peer.
  pub AreQueues-queue :
      (id : NodeId) (queue : BTreeMap (List M))
      → AreQueues peers outgoing
      → IsAscending queue
      → is_some (get peers id) ≡ true
      → AreQueues peers (insert id queue outgoing)
  AreQueues-queue id queue h ascends there = record {
    peers_ascend = h.peers_ascend;
    outgoing_ascends = insert-IsAscending id queue outgoing h.outgoing_ascends;
    queues_ascend = λ j. elim (Bool-cases (id == j)) [
      | inl same ↦ rw (get-insert_same id queue outgoing j same) ascends
      | inr other ↦ rw (get-insert_other id queue outgoing j other) (h.queues_ascend j)
    ];
    known = λ j missing. elim (Bool-cases (id == j)) [
      | inl same ↦
          let here : get peers id ≡ none = rw ((==_iff id j).0 same) missing in
          absurd (ground (arith, here, there))
      | inr other ↦ get-insert_other id queue outgoing j other ∙ h.known j missing
    ];
  }

  -- A peer that is removed with its queue.
  pub AreQueues-remove :
      (id : NodeId) → AreQueues peers outgoing → AreQueues (remove id peers) (remove id outgoing)
  AreQueues-remove id h = record {
    peers_ascend = remove-IsAscending id peers h.peers_ascend;
    outgoing_ascends = remove-IsAscending id outgoing h.outgoing_ascends;
    queues_ascend = λ j. elim (Bool-cases (id == j)) [
      | inl same ↦
          let gone : get (remove id outgoing) j ≡ none =
            get-remove id outgoing j h.outgoing_ascends ∙ rw same refl in
          rw gone tt
      | inr other ↦
          let kept : get (remove id outgoing) j ≡ get outgoing j =
            get-remove id outgoing j h.outgoing_ascends ∙ rw other refl in
          rw kept (h.queues_ascend j)
    ];
    known = λ j missing. elim (Bool-cases (id == j)) [
      | inl same ↦ get-remove id outgoing j h.outgoing_ascends ∙ rw same refl
      | inr other ↦
          let kept : get (remove id peers) j ≡ get peers j =
            get-remove id peers j h.peers_ascend ∙ rw other refl in
          get-remove id outgoing j h.outgoing_ascends ∙ rw other (h.known j (sym kept ∙ missing))
    ];
  }

module _ {A : Algorithm} where
  remove_participant_if_old-IsWellFormed :
      (id : NodeId) (s : SenderQueue A)
      → IsWellFormed s
      → IsWellFormed (remove_participant_if_old A id s).1
  unfolding remove_participant_if_old remove_peer
  remove_participant_if_old-IsWellFormed id s h = elim (Option-cases (get s.last_epochs id)) [
    | inl stays ↦ rw (stays, remove_participant_if_old) h
    | inr (last, leaves) ↦
        rw (leaves, remove_participant_if_old)
          (elim (Bool-cases (leb (A.epoch s.algo) last)) [
            | inl early ↦ rw early h
            | inr due ↦ rw due (elim (Bool-cases (id == s.our_id)) [
              | inl own ↦ rw own h
              | inr other ↦ rw other (elim (Bool-cases (is_up_to A id last s)) [
                | inl behind ↦ rw (behind, remove_peer) h
                | inr done ↦
                    rw (done, remove_peer) (AreQueues-remove s.peer_epochs s.outgoing_queue id h)
              ])
            ])
          ])
  ]

  remove_participants-IsWellFormed :
      (e : ℕ) (ids : List NodeId) (s : SenderQueue A)
      → IsWellFormed s
      → IsWellFormed (remove_participants A e ids s)
  unfolding remove_participants remove_participant_after
  remove_participants-IsWellFormed e [] s h = h
  remove_participants-IsWellFormed e (id ∷ ids) s h =
      remove_participants-IsWellFormed e ids (remove_participant_after A id e s).1 (
        remove_participant_if_old-IsWellFormed id
          (record s { last_epochs = insert id e s.last_epochs }) h)

  insert_candidates-IsWellFormed :
      (e : ℕ) (ids : List NodeId) (s : SenderQueue A)
      → IsWellFormed s
      → IsWellFormed (insert_candidates A e ids s)
  unfolding insert_candidates insert_candidate
  insert_candidates-IsWellFormed e [] s h = h
  insert_candidates-IsWellFormed e (id ∷ ids) s h =
      insert_candidates-IsWellFormed e ids (insert_candidate A e id s) first
    where
      first : IsWellFormed (insert_candidate A e id s)
      first = elim (Bool-cases (id == s.our_id)) [
        | inl own ↦ rw (own, insert_candidate) h
        | inr other ↦
            rw (other, insert_candidate) (AreQueues-peer s.peer_epochs s.outgoing_queue id _ h)
      ]

  update_participants-IsWellFormed :
      (batches : List A.Output) (b : Bool) (s : SenderQueue A)
      → IsWellFormed s
      → IsWellFormed (update_participants A batches b s).1
  unfolding update_participants change_participants
  update_participants-IsWellFormed [] b s h = h
  update_participants-IsWellFormed (batch ∷ batches) b s h =
      elim (Option-cases (A.participant_change batch)) [
        | inl same ↦ rw (same, update_participants) (update_participants-IsWellFormed batches b s h)
        | inr (next, changed) ↦
            rw (changed, update_participants)
              (update_participants-IsWellFormed batches _
                (change_participants A (A.output_epoch batch) next s).1
                (remove_participants-IsWellFormed (A.output_epoch batch) _ _
                  (insert_candidates-IsWellFormed (A.output_epoch batch) next s h)))
      ]

  pub update_epoch-IsWellFormed :
      (batches : List A.Output) (s : SenderQueue A)
      → IsWellFormed s
      → IsWellFormed (update_epoch A batches s).1
  unfolding update_epoch
  update_epoch-IsWellFormed [] s h = h
  update_epoch-IsWellFormed (batch ∷ batches) s h =
      let (send_last, t) = update_participants A (batch ∷ batches) false s in
      let kept : IsWellFormed t = update_participants-IsWellFormed (batch ∷ batches) false s h in
      elim (Bool-cases (t.is_removed && not send_last)) [
        | inl silent ↦ rw (silent, update_epoch) kept
        | inr announced ↦ rw (announced, update_epoch) kept
      ]

  process_new_epoch-IsWellFormed :
      (id : NodeId) (e : ℕ) (s : SenderQueue A)
      → IsWellFormed s
      → IsWellFormed (process_new_epoch A id e s).1
  unfolding process_new_epoch
  process_new_epoch-IsWellFormed id e s h = elim (Option-cases (get s.outgoing_queue id)) [
    | inl nothing ↦ rw (nothing, process_new_epoch) h
    | inr (queue, there) ↦
        let ascends : IsAscending queue =
          subst IsAscending (ap (get_or []) there) (h.queues_ascend id) in
        rw (there, process_new_epoch)
          (rw (release_lem e queue ascends) (
            AreQueues-queue s.peer_epochs s.outgoing_queue id (after e queue) h
              (keep-IsAscending (λ i. not (leb i e)) queue ascends)
              (elim (Option-cases (get s.peer_epochs id)) [
                | inl unknown ↦
                    let missing = h.known id unknown in absurd (ground (arith, missing, there))
                | inr (x, found) ↦ rw found refl
              ])))
  ]

  pub handle_epoch_started-IsWellFormed :
      (id : NodeId) (e : ℕ) (s : SenderQueue A)
      → IsWellFormed s
      → IsWellFormed (handle_epoch_started A id e s).1
  unfolding handle_epoch_started
  handle_epoch_started-IsWellFormed id e s h =
      let known = record s {
        peer_epochs = insert id (later_epoch (get s.peer_epochs id) e) s.peer_epochs;
      } in
      let kept = remove_participant_if_old-IsWellFormed id known (
        AreQueues-peer s.peer_epochs s.outgoing_queue id (later_epoch (get s.peer_epochs id) e)
          h) in
      elim (Bool-cases (remove_participant_if_old A id known).0) [
        | inl removed ↦ rw removed kept
        | inr stays ↦
            rw stays
              (process_new_epoch-IsWellFormed id e (remove_participant_if_old A id known).1 kept)
      ]
