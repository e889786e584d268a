-- ===== src/BinaryAgreement/Decision.antt =====
-- src/binary_agreement/binary_agreement.rs: the decision, handler by handler.
use hbbft.Prelude.{
  inl, inr, ◌≡◌, refl, Bool, not, ◌||◌, Option, none, some, is_some, Option-cases, if◌then◌else◌,
  ◌>>=◌, ◌>>◌, return, modify, ltb, bool_eq, length, head?,
}
use hbbft.Prelude.BTreeMap
use hbbft.Prelude.BTreeSet.{insert as set_insert}
use hbbft.BinaryAgreement.BoolMultimap.{index, update}
use hbbft.FaultLog.{NodeId}
use hbbft.Traits.{default, extend, join, from_message}
use hbbft.Messaging.{Target, message}
use hbbft.Crypto.{Crypto}
use hbbft.NetworkInfo.{num_correct}
use hbbft.ThresholdSign
use hbbft.ThresholdSign.{ThresholdSign}
use hbbft.BinaryAgreement.Faults.{handle_threshold_sign, invoke_coin}
use hbbft.BinaryAgreement.BoolSet
use hbbft.BinaryAgreement.BoolSet.{BoolSet}
use hbbft.BinaryAgreement.SbvBroadcast
use hbbft.BinaryAgreement.SbvBroadcast.{Sbv}
use hbbft.BinaryAgreement.Content.{MessageContent, with_epoch, sbv_broadcast, conf, term, coin}
use hbbft.BinaryAgreement.Instance.{
  BinaryAgreement, CoinState, decided, in_progress, Step, Ba, coin_value, Call, content_from,
  next_epoch, with_sbv, with_coin, decide, count_conf, lift_sbv_step, lift_coin_step,
}
use hbbft.BinaryAgreement.Handlers.{
  try_update_epoch, on_coin_step, try_finish_conf_round, handle_conf, send, send_conf,
  handle_sbvb_step, handle_sbv_broadcast, handle_term, handle_coin, content_with,
}
use hbbft.BinaryAgreement.Latch.{
  unchanged, Latched, Latched-if, Latched_from, Latched-then, Latched-after, Latched-join,
  decide-Latched,
}

module _ {C : Crypto} {S : Type 0} (call : Call C → Ba C S (Step C))
    (calls : (c : Call C) (s : BinaryAgreement C S) → Latched s (call c s)) where
  try_update_epoch-Latched : (s : BinaryAgreement C S) → Latched s (try_update_epoch call s)
  unfolding try_update_epoch
  try_update_epoch-Latched s =
      Latched-if (is_some s.decision) _ _ s (unchanged refl refl) (go (coin_value s.coin_state))
    where
      go_set :
          (coin_bit : Bool) (d : Option Bool)
          → Latched s (elim d [
            | none ↦ call (next_epoch coin_bit) s
            | some b ↦ if bool_eq coin_bit b then decide coin_bit s else call (next_epoch b) s
          ])
      go_set coin_bit none = calls (next_epoch coin_bit) s
      go_set coin_bit (some b) =
          Latched-if (bool_eq coin_bit b) _ _ s (decide-Latched coin_bit s) (calls (next_epoch b) s)

      go_conf :
          (coin_bit : Bool) (c : Option BoolSet)
          → Latched s (elim c [
            | none ↦ return default s
            | some conf_set ↦ elim (BoolSet.definite conf_set) [
              | none ↦ call (next_epoch coin_bit) s
              | some b ↦ if bool_eq coin_bit b then decide coin_bit s else call (next_epoch b) s
            ]
          ])
      go_conf coin_bit none = unchanged refl refl
      go_conf coin_bit (some set) = go_set coin_bit (BoolSet.definite set)

      go :
          (v : Option Bool)
          → Latched s (elim v [
            | none ↦ return default s
            | some coin_bit ↦ elim s.conf_values [
              | none ↦ return default s
              | some conf_set ↦ elim (BoolSet.definite conf_set) [
                | none ↦ call (next_epoch coin_bit) s
                | some b ↦ if bool_eq coin_bit b then decide coin_bit s else call (next_epoch b) s
              ]
            ]
          ])
      go none = unchanged refl refl
      go (some coin_bit) = go_conf coin_bit s.conf_values

  on_coin_step-Latched :
      (ts_step : ThresholdSign.Step C) (s : BinaryAgreement C S)
      → Latched s (on_coin_step call ts_step s)
  unfolding on_coin_step
  on_coin_step-Latched ts_step s = elim (Option-cases (head? ts_step.output)) [
    | inl nothing ↦ rw nothing (unchanged refl refl)
    | inr (sig, e) ↦
        let t : BinaryAgreement C S = record s { coin_state = decided (C.parity sig) } in
        rw e (
          Latched-after s t (lift_coin_step s.epoch ts_step).0 (try_update_epoch call t)
            (unchanged refl refl) (try_update_epoch-Latched t))
  ]

  try_finish-Latched : (s : BinaryAgreement C S) → Latched s (try_finish_conf_round call s)
  unfolding try_finish_conf_round
  try_finish-Latched s =
      Latched-if (not (is_some s.conf_values) || ltb (count_conf s) (num_correct s.netinfo)) _ _ s
        (unchanged refl refl) (go s.coin_state refl)
    where
      go :
          (c : CoinState C)
          → s.coin_state ≡ c
          → Latched s (elim c [
            | decided _ ↦ return default s
            | in_progress ts ↦
                (do
                  ts_step ← with_coin invoke_coin ts ThresholdSign.sign
                  first ← on_coin_step call ts_step
                  second ← try_update_epoch call
                  return (join first second))
                  s
          ])
      go (decided b) e = unchanged refl refl
      go (in_progress ts) e =
          Latched-then s (with_coin invoke_coin ts ThresholdSign.sign s) _ refl (λ ts_step t same.
            Latched-join t (on_coin_step call ts_step t) (try_update_epoch call)
              (on_coin_step-Latched ts_step t) try_update_epoch-Latched)

  handle_conf-Latched :
      (id : NodeId) (v : BoolSet) (s : BinaryAgreement C S) → Latched s (handle_conf call id v s)
  unfolding handle_conf
  handle_conf-Latched id v s =
      let t : BinaryAgreement C S = record s {
        received_conf = BTreeMap.insert id v s.received_conf;
      } in
      Latched_from {t = t} refl (try_finish-Latched t)

  send-Latched :
      (content : MessageContent C) (s : BinaryAgreement C S) → Latched s (send call content s)
  unfolding send
  send-Latched content s =
      Latched-if s.netinfo.is_validator _ _ s
        (Latched-after s s (from_message (message Target.all (with_epoch content s.epoch)))
          (call (content_from s.netinfo.our_id content) s) (unchanged refl refl) (calls _ s))
        (unchanged refl refl)

  send_conf-Latched : (vals : BoolSet) (s : BinaryAgreement C S) → Latched s (send_conf call vals s)
  unfolding send_conf
  send_conf-Latched vals s =
      let t : BinaryAgreement C S = record s { conf_values = some vals } in
      Latched-if (is_some s.conf_values) _ _ s (unchanged refl refl) (
        Latched-if s.netinfo.is_validator _ _ s (Latched_from {t = t} refl (send-Latched _ t))
          (Latched_from {t = t} refl (try_finish-Latched t)))

  pub handle_sbvb_step-Latched :
      (sbvb_step : SbvBroadcast.Step) (s : BinaryAgreement C S)
      → Latched s (handle_sbvb_step call sbvb_step s)
  unfolding handle_sbvb_step
  handle_sbvb_step-Latched sbvb_step s =
      Latched-if (is_some s.conf_values) _ _ s (unchanged refl refl) (go (head? sbvb_step.output))
    where
      step : Step C
      step = (lift_sbv_step s.epoch sbvb_step).0

      go_coin :
          (vals : BoolSet) (c : CoinState C)
          → Latched s (elim c [
            | decided _ ↦
                (do
                  modify (λ t. record t { conf_values = some vals })
                  out ← try_update_epoch call
                  return (extend step out))
                  s
            | in_progress ts ↦ (do out ← send_conf call vals; return (extend step out)) s
          ])
      go_coin vals (decided b) =
          let t : BinaryAgreement C S = record s { conf_values = some vals } in
          Latched-after s t step (try_update_epoch call t) (unchanged refl refl)
            (try_update_epoch-Latched t)
      go_coin vals (in_progress ts) =
          Latched-after s s step (send_conf call vals s) (unchanged refl refl)
            (send_conf-Latched vals s)

      go :
          (o : Option BoolSet)
          → Latched s (elim o [
            | none ↦ return step s
            | some aux_vals ↦ elim s.coin_state [
              | decided _ ↦
                  (do
                    modify (λ t. record t { conf_values = some aux_vals })
                    out ← try_update_epoch call
                    return (extend step out))
                    s
              | in_progress ts ↦ (do out ← send_conf call aux_vals; return (extend step out)) s
            ]
          ])
      go none = unchanged refl refl
      go (some vals) = go_coin vals s.coin_state

  handle_sbv_broadcast-Latched :
      (id : NodeId) (msg : SbvBroadcast.Message) (s : BinaryAgreement C S)
      → Latched s (handle_sbv_broadcast call id msg s)
  unfolding handle_sbv_broadcast
  handle_sbv_broadcast-Latched id msg s =
      Latched-then s (with_sbv (SbvBroadcast.handle_message id msg) s) (handle_sbvb_step call) refl
        (λ step t e. handle_sbvb_step-Latched step t)

  -- A message of a term, as the messages of the epoch that it stands for.
  term_as_messages-Latched :
      (id : NodeId) (b : Bool) (t : BinaryAgreement C S)
      → Latched t (
          (do
            bval_step ← with_sbv (SbvBroadcast.handle_bval id b)
            aux_step ← with_sbv (SbvBroadcast.handle_aux id b)
            step ← handle_sbvb_step call (extend bval_step aux_step)
            out ← handle_conf call id (BoolSet.from b)
            return (join step out))
            t)
  term_as_messages-Latched id b t =
      Latched-then t (with_sbv (SbvBroadcast.handle_bval id b) t) _ refl (λ bval_step u e.
        Latched-then u (with_sbv (SbvBroadcast.handle_aux id b) u) _ refl (λ aux_step v f.
          Latched-join v (handle_sbvb_step call (extend bval_step aux_step) v)
            (handle_conf call id (BoolSet.from b)) (handle_sbvb_step-Latched _ v)
            (handle_conf-Latched id (BoolSet.from b))))

  handle_term-Latched :
      (id : NodeId) (b : Bool) (s : BinaryAgreement C S) → Latched s (handle_term call id b s)
  unfolding handle_term
  handle_term-Latched id b s =
      let t : BinaryAgreement C S = record s {
        received_term = update s.received_term b (set_insert id (index s.received_term b));
      } in
      Latched-if (is_some s.decision) _ _ s (unchanged refl refl) (
        Latched-if (ltb t.netinfo.num_faulty (length (index t.received_term b))) _ _ s
          (Latched_from {t = t} refl (decide-Latched b t))
          (Latched_from {t = t} refl (term_as_messages-Latched id b t)))

  handle_coin-Latched :
      (id : NodeId) (msg : ThresholdSign.Message C) (s : BinaryAgreement C S)
      → Latched s (handle_coin call id msg s)
  unfolding handle_coin
  handle_coin-Latched id msg s = go s.coin_state
    where
      go :
          (c : CoinState C)
          → Latched s (elim c [
            | decided _ ↦ return default s
            | in_progress ts ↦
                (do
                  ts_step ← with_coin handle_threshold_sign ts (ThresholdSign.handle_message id msg)
                  on_coin_step call ts_step)
                  s
          ])
      go (decided b) = unchanged refl refl
      go (in_progress ts) =
          Latched-then s
            (with_coin handle_threshold_sign ts (ThresholdSign.handle_message id msg) s)
            (on_coin_step call) refl (λ step t e. on_coin_step-Latched step t)

  pub content-Latched :
      (id : NodeId) (m : MessageContent C) (s : BinaryAgreement C S)
      → Latched s (content_with call id m s)
  unfolding content_with
  content-Latched id (sbv_broadcast m) s = handle_sbv_broadcast-Latched id m s
  content-Latched id (conf v) s = handle_conf-Latched id v s
  content-Latched id (term b) s = handle_term-Latched id b s
  content-Latched id (coin m) s = handle_coin-Latched id m s
