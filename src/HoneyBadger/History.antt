-- ===== src/HoneyBadger/History.antt =====
-- src/honey_badger/honey_badger.rs: an instance through any sequence of proposals and messages.
use hbbft.Prelude.{
  ℕ, refl, ◌⊎◌, inl, inr, Bool, true, false, Bool-cases, List, [], ◌++◌, ◌∷◌, ltb, add_u64, Outcome,
  if◌then◌else◌,
}
use hbbft.FaultLog.{NodeId}
use hbbft.Crypto.{Crypto}
use hbbft.NetworkInfo.{is_node_validator}
use hbbft.Broadcast.Merkle.{Digest}
use hbbft.Broadcast.Coding.{ReedSolomon}
use hbbft.Subset.Proposal.{BaSessionId}
use hbbft.HoneyBadger.Content.{Codec, EpochId, Message, Error, Batch, Step}
use hbbft.HoneyBadger.Numbered.{outputs_of, propose-IsQuiet, handle_message_content-IsQuiet}
use hbbft.HoneyBadger.Instance.{HoneyBadger, Hb, with_epoch_state, propose, handle_message}
use hbbft.HoneyBadger.Batches.{
  Consecutive-append, IsNumbered, Emits, CallEmits, with_epoch_state-IsNumbered, then_output-Emits,
}

-- What an instance is told.
pub data Event (C : Crypto) (B : Codec C) : Type 0 where
  input : B.Contribution → B.Rng → Event C B
  receive : NodeId → Message C → Event C B

module _ {C : Crypto} {R : ReedSolomon} (B : Codec C) where
  CallEmits-test :
      (s : HoneyBadger C R) (b : Bool) (r q : Outcome (Error C B) (Step C B) × HoneyBadger C R)
      → CallEmits B s r
      → CallEmits B s q
      → CallEmits B s (if b then r else q)
  CallEmits-test s true r q h k = h
  CallEmits-test s false r q h k = k

module _ {C : Crypto} {R : ReedSolomon} (B : Codec C) (sha3_256 : List ℕ → Digest)
    (serialize_id : BaSessionId EpochId → ℕ → List ℕ ⊎ List ℕ) (fuel : ℕ) where
  propose-Emits :
      (proposal : B.Contribution) (rng : B.Rng) (s : HoneyBadger C R)
      → IsNumbered s
      → CallEmits B s (propose {B = B} sha3_256 serialize_id fuel proposal rng s)
  unfolding propose
  propose-Emits proposal rng s h =
      CallEmits-test B s s.netinfo.is_validator _ _
        (then_output-Emits B (with_epoch_state s.epoch _) (record s { has_input = true })
          (with_epoch_state-IsNumbered B s.epoch _ (record s { has_input = true }) h
            (propose-IsQuiet B s.epoch sha3_256 serialize_id fuel proposal rng)))
        (h, refl)

  handle_message-Emits :
      (id : NodeId) (msg : Message C) (s : HoneyBadger C R)
      → IsNumbered s
      → CallEmits B s (handle_message {B = B} sha3_256 serialize_id fuel id msg s)
  unfolding handle_message
  handle_message-Emits id msg s h = elim (Bool-cases (is_node_validator s.netinfo id)) [
    | inr unknown ↦ rw (unknown, handle_message) (h, refl)
    | inl known ↦
        rw (known, handle_message)
          (CallEmits-test B s (ltb (add_u64 s.epoch s.params.max_future_epochs) msg.epoch) _ _
            (h, refl)
            (CallEmits-test B s (ltb msg.epoch s.epoch) _ _ (h, refl)
              (then_output-Emits B (with_epoch_state msg.epoch _) s (
                with_epoch_state-IsNumbered B msg.epoch _ s h (
                  handle_message_content-IsQuiet B msg.epoch sha3_256 serialize_id fuel id
                    msg.content)))))
  ]

  abbrev pub on_event : Event C B → Hb C R B (Step C B)
  on_event (input proposal rng) = propose {B = B} sha3_256 serialize_id fuel proposal rng
  on_event (receive id msg) = handle_message {B = B} sha3_256 serialize_id fuel id msg

  -- All batches of a sequence of calls, whose errors the caller drops.
  unfoldable pub history :
      List (Event C B) → HoneyBadger C R → List (Batch B.Contribution) × HoneyBadger C R
  history [] s = ([], s)
  history (e ∷ es) s =
      let (first, t) = on_event e s in
      let (rest, u) = history es t in (outputs_of {B = B} first ++ rest, u)

  on_event-Emits :
      (e : Event C B) (s : HoneyBadger C R) → IsNumbered s → CallEmits B s (on_event e s)
  on_event-Emits (input proposal rng) s h = propose-Emits proposal rng s h
  on_event-Emits (receive id msg) s h = handle_message-Emits id msg s h

  -- Whatever an instance is told, in whatever order, also when calls fail or run out of
  -- fuel, if each of its epochs stands under its own number, as in one that is new: the batches
  -- that it outputs have the consecutive numbers from its epoch at the start up to its epoch at
  -- the end, one batch each, and its epochs stand under their numbers.
  pub history-Emits :
      (es : List (Event C B)) (s : HoneyBadger C R)
      → IsNumbered s
      → Emits s (history es s).0 (history es s).1
  unfolding history
  history-Emits [] s h = (h, refl)
  history-Emits (e ∷ es) s h =
      let (now, before) = on_event-Emits e s h in
      let (final, after) = history-Emits es (on_event e s).1 now in
      (final, Consecutive-append s.epoch _ _ _ _ before after)
