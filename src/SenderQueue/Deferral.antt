-- ===== src/SenderQueue/Deferral.antt =====
-- src/traits.rs: the messages of a step that their recipients accept, and those that have to wait.
use hbbft.Prelude.{ℕ, not, none, some, List, [], ◌∷◌, ◌++◌, all, if◌then◌else◌}
use hbbft.Prelude.BTreeMap.{BTreeMap, get, values}
use hbbft.FaultLog.{NodeId}
use hbbft.Messaging.{Target, node, TargetedMessage, message}
use hbbft.Messaging
use hbbft.Traits.{Step}
use hbbft.SenderQueue.Interface.{Queueable, is_accepted}

pub record Deferral (M : Type 0) : Type 0 where
  pub deferred_msgs : List (NodeId × M)
  pub passed_msgs : List (TargetedMessage M)

module _ {M : Type 0} (q : Queueable M) (max_future_epochs : ℕ) where
  -- A message to one peer, which is in the epoch `them`.
  unfoldable pub defer_one : NodeId → ℕ → M → Deferral M → Deferral M
  defer_one id them msg d =
      if q.is_premature msg them max_future_epochs
      then record d { deferred_msgs = d.deferred_msgs ++ (id, msg) ∷ [] }
      else if not (q.is_obsolete msg them)
      then record d { passed_msgs = d.passed_msgs ++ message (node id) msg ∷ [] }
      else d

  -- A message to all, split into one for each peer.
  unfoldable pub defer_split : BTreeMap ℕ → M → Deferral M → Deferral M
  defer_split [] msg d = d
  defer_split ((id, them) ∷ peers) msg d = defer_split peers msg (defer_one id them msg d)

  unfoldable pub defer_target : BTreeMap ℕ → Target → M → Deferral M → Deferral M
  defer_target peer_epochs (node id) msg d = elim (get peer_epochs id) [
    | none ↦ d
    | some them ↦ defer_one id them msg d
  ]
  defer_target peer_epochs Messaging.all msg d =
      if all (λ them. is_accepted q msg them max_future_epochs) (values peer_epochs)
      then record d { passed_msgs = d.passed_msgs ++ message Messaging.all msg ∷ [] }
      else defer_split peer_epochs msg d

  unfoldable pub defer_all : BTreeMap ℕ → List (TargetedMessage M) → Deferral M → Deferral M
  defer_all peer_epochs [] d = d
  defer_all peer_epochs (msg ∷ msgs) d =
      defer_all peer_epochs msgs (defer_target peer_epochs msg.target msg.message d)

  -- The messages that wait, and the step without them.
  unfoldable pub defer_messages :
      {O F : Type 0} → BTreeMap ℕ → Step M O F → List (NodeId × M) × Step M O F
  defer_messages peer_epochs step =
      let d =
        defer_all peer_epochs step.messages (record { deferred_msgs = []; passed_msgs = [] }) in
      (d.deferred_msgs, record step { messages = d.passed_msgs })
