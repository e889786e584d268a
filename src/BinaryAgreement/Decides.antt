-- ===== src/BinaryAgreement/Decides.antt =====
-- src/binary_agreement/binary_agreement.rs: the decision, over any sequence of calls.
use hbbft.Prelude.{
  ℕ, zero, suc, ◌≡◌, ◌⊎◌, inl, inr, refl, ap, Bool, true, false, not, ◌&&◌, ◌||◌, none, some, List,
  [], ◌∷◌, ◌++◌, is_some, arith, if◌then◌else◌, Outcome, ok, err, panicked, exhausted, and_then,
  ◌>>=◌, ◌>>◌, return, gets, modify, ltb, add_u64,
}
use hbbft.Prelude.BTreeMap
use hbbft.Prelude.BTreeMap.{get}
use hbbft.FaultLog.{NodeId}
use hbbft.Traits.{extend}
use hbbft.Crypto.{Crypto}
use hbbft.BinaryAgreement.Faults.{Error}
use hbbft.BinaryAgreement.SbvBroadcast
use hbbft.BinaryAgreement.Content.{MessageContent, Message, can_expire}
use hbbft.BinaryAgreement.Instance.{
  BinaryAgreement, Step, Ba, Call, content_from, next_epoch, with_sbv, start_epoch, coin_of_epoch,
  queued, can_propose,
}
use hbbft.BinaryAgreement.Handlers.{
  handle_sbvb_step, drain_queue, update_with, run_fuel, propose, enqueue, handle_message,
}
use hbbft.BinaryAgreement.Latch.{
  Latch, unchanged, reached, lost, failed, Latched, Latch-append, Latch-lost, Latch-moved,
  Latched-if, Latched-test, Latched-then, outputs_of,
}
use hbbft.BinaryAgreement.Decision.{content-Latched, handle_sbvb_step-Latched}

module _ {C : Crypto} {S : Type 0} (call : Call C → Ba C S (Step C))
    (calls : (c : Call C) (s : BinaryAgreement C S) → Latched s (call c s)) where
  drain_queue-Latched :
      (epoch : ℕ) (step : Step C) (queue : List (NodeId × MessageContent C))
      (s t : BinaryAgreement C S)
      → Latch s step.output false t
      → Latched s (drain_queue call epoch step queue t)
  unfolding drain_queue
  drain_queue-Latched epoch step [] s t h = h
  drain_queue-Latched epoch step ((id, m) ∷ queue) s t h =
      go (call (content_from id m) t) (calls _ t)
        (λ more u l. drain_queue-Latched epoch more queue s u l)
    where
      go :
          (r : Outcome (Error C) (Step C) × BinaryAgreement C S)
          → Latched t r
          → ((more : Step C) (u : BinaryAgreement C S)
              → Latch s more.output false u
              → Latched s (drain_queue call epoch more queue u))
          → Latched s (
              and_then r (λ out. gets (λ u. is_some u.decision || ltb epoch u.epoch) >>= λ over.
              if over
              then return (extend step out)
              else drain_queue call epoch (extend step out) queue))
      go (ok out, u) k rest =
          Latched-test (is_some u.decision || ltb epoch u.epoch) _ _ s u (Latch-append h k)
            (rest (extend step out) u (Latch-append h k))
      go (err e, u) k rest = Latch-lost (Latch-append h k)
      go (panicked, u) k rest = Latch-lost (Latch-append h k)
      go (exhausted, u) k rest = Latch-lost (Latch-append h k)

  update-Latched :
      (serialize_id : S → ℕ → List ℕ ⊎ List ℕ) (b : Bool) (s : BinaryAgreement C S)
      → Latched s (update_with call serialize_id b s)
  unfolding update_with start_epoch
  update-Latched serialize_id b s =
      Latched-then s (coin_of_epoch serialize_id (start_epoch s), start_epoch s) _ refl
        (λ coin t e.
          let u : BinaryAgreement C S = record t { coin_state = coin; estimated = some b } in
          Latched-then t (with_sbv (SbvBroadcast.send_bval b) u) _ refl (λ sbvb_step v f.
            drain (handle_sbvb_step call sbvb_step v) v
              (handle_sbvb_step-Latched call calls sbvb_step v)))
    where
      drain :
          (r : Outcome (Error C) (Step C) × BinaryAgreement C S) (v : BinaryAgreement C S)
          → Latched v r
          → Latched v (
              and_then r (λ step. gets (λ w. w.epoch) >>= λ epoch.
              gets (λ w. get w.incoming_queue epoch) >>= λ queue.
              modify (λ w. record w { incoming_queue = BTreeMap.remove epoch w.incoming_queue })
              >> drain_queue call epoch step (elim queue [ none ↦ [] | some q ↦ queued q ])))
      drain (ok step, w) v h =
          let x : BinaryAgreement C S = record w {
            incoming_queue = BTreeMap.remove w.epoch w.incoming_queue;
          } in
          drain_queue-Latched w.epoch step _ v x (Latch-moved h refl)
      drain (err e, w) v h = h
      drain (panicked, w) v h = h
      drain (exhausted, w) v h = h

module _ {C : Crypto} {S : Type 0} (serialize_id : S → ℕ → List ℕ ⊎ List ℕ) where
  run_fuel-Latched :
      (n : ℕ) (c : Call C) (s : BinaryAgreement C S) → Latched s (run_fuel serialize_id n c s)
  unfolding run_fuel
  run_fuel-Latched zero c s = unchanged refl refl
  run_fuel-Latched (suc n) (content_from id m) s =
      content-Latched (run_fuel serialize_id n) (run_fuel-Latched n) id m s
  run_fuel-Latched (suc n) (next_epoch b) s =
      update-Latched (run_fuel serialize_id n) (run_fuel-Latched n) serialize_id b s

  propose-Latched :
      (fuel : ℕ) (b : Bool) (s : BinaryAgreement C S) → Latched s (propose serialize_id fuel b s)
  unfolding propose
  propose-Latched fuel b s =
      let t : BinaryAgreement C S = record s { estimated = some b } in
      Latched-if (not (can_propose s)) _ _ s (unchanged refl refl) (
        Latched-then s (with_sbv (SbvBroadcast.send_bval b) t) _ refl (λ step u e.
          handle_sbvb_step-Latched (run_fuel serialize_id fuel) (run_fuel-Latched fuel) step u))

  enqueue-Latched :
      (id : NodeId) (msg : Message C) (s : BinaryAgreement C S) → Latched s (enqueue id msg s)
  unfolding enqueue
  enqueue-Latched id msg s = ground arith

  handle_message-Latched :
      (fuel : ℕ) (id : NodeId) (msg : Message C) (s : BinaryAgreement C S)
      → Latched s (handle_message serialize_id fuel id msg s)
  unfolding handle_message
  handle_message-Latched fuel id msg s =
      Latched-if (is_some s.decision || (ltb msg.epoch s.epoch && can_expire msg.content)) _ _ s
        (unchanged refl refl)
        (Latched-if (ltb (add_u64 s.epoch s.max_future_epochs) msg.epoch) _ _ s
          (unchanged refl refl)
          (Latched-if (ltb s.epoch msg.epoch) _ _ s (enqueue-Latched id msg s)
            (run_fuel-Latched fuel (content_from id msg.content) s)))

-- What the calls output, one after the other.
abbrev pub all_outputs : {C : Crypto} → List (Outcome (Error C) (Step C)) → List Bool
all_outputs [] = []
all_outputs (r ∷ rs) = outputs_of r ++ all_outputs rs

module _ {C : Crypto} {S : Type 0} where
  -- From one state to another by calls with these results: the decision is as before and nothing is
  -- output, or one of the calls decided: it output the decision or failed.
  pub data Settles (s : BinaryAgreement C S) (rs : List (Outcome (Error C) (Step C)))
      (t : BinaryAgreement C S) : Type 0 where
    kept : t.decision ≡ s.decision → all_outputs rs ≡ [] → Settles s rs t
    by_call :
        (b : Bool)
        → s.decision ≡ none
        → t.decision ≡ some b
        → (before : List (Outcome (Error C) (Step C))) (r : Outcome (Error C) (Step C))
          (after : List (Outcome (Error C) (Step C)))
        → rs ≡ before ++ r ∷ after
        → all_outputs before ≡ []
        → (outputs_of r ≡ b ∷ []) ⊎ (failed r ≡ true)
        → all_outputs after ≡ []
        → Settles s rs t

  Settles-more :
      (s t u : BinaryAgreement C S) (r : Outcome (Error C) (Step C))
      (rs : List (Outcome (Error C) (Step C)))
      → Latch s (outputs_of r) (failed r) t
      → Settles t rs u
      → Settles s (r ∷ rs) u
  Settles-more s t u r rs (unchanged p q) (kept v w) = kept (cc) (rw (q, w) refl)
  Settles-more s t u r rs (unchanged p q) (by_call b v w before x after e f g h) =
      by_call b (cc) w (r ∷ before) x after (ap (λ l. r ∷ l) e) (rw (q, f) refl) g h
  Settles-more s t u r rs (reached b p q o) (kept v w) =
      by_call b p (cc) [] r rs refl refl (inl o) w
  Settles-more s t u r rs (reached b p q o) (by_call c v w before x after e f g h) = absurd (cc)
  Settles-more s t u r rs (lost b p q o fails) (kept v w) =
      by_call b p (cc) [] r rs refl refl (inr fails) w
  Settles-more s t u r rs (lost b p q o fails) (by_call c v w before x after e f g h) = absurd (cc)

-- What an instance is told.
pub data Event (C : Crypto) : Type 0 where
  input : Bool → Event C
  receive : NodeId → Message C → Event C

module _ {C : Crypto} {S : Type 0} (serialize_id : S → ℕ → List ℕ ⊎ List ℕ) (fuel : ℕ) where
  abbrev pub on_event : Event C → Ba C S (Step C)
  on_event (input b) = propose serialize_id fuel b
  on_event (receive id msg) = handle_message serialize_id fuel id msg

  -- The results of a sequence of calls, whose errors the caller drops.
  unfoldable pub history :
      List (Event C) → BinaryAgreement C S → List (Outcome (Error C) (Step C)) × BinaryAgreement C S
  history [] s = ([], s)
  history (e ∷ es) s =
      let (first, t) = on_event e s in let (rest, u) = history es t in (first ∷ rest, u)

  on_event-Latched : (e : Event C) (s : BinaryAgreement C S) → Latched s (on_event e s)
  on_event-Latched (input b) s = propose-Latched serialize_id fuel b s
  on_event-Latched (receive id msg) s = handle_message-Latched serialize_id fuel id msg s

  -- Whatever an instance is told, in whatever state, in whatever order, through all its epochs and
  -- also when calls fail or run out of fuel: either the decision stays as it was and no call outputs
  -- anything, or there was no decision and there is one now, and there is one call that decided:
  -- it has a step that outputs the decision, once, or it failed and so has no step; no call before
  -- or after it outputs anything.
  pub history-Settles :
      (es : List (Event C)) (s : BinaryAgreement C S) → Settles s (history es s).0 (history es s).1
  unfolding history
  history-Settles [] s = kept refl refl
  history-Settles (e ∷ es) s =
      let (first, t) = on_event e s in
      Settles-more s t (history es t).1 first (history es t).0 (on_event-Latched e s)
        (history-Settles es t)
