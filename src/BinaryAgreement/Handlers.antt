-- ===== src/BinaryAgreement/Handlers.antt =====
-- src/binary_agreement/binary_agreement.rs: the handlers, over the calls by which they reach
-- themselves.
use hbbft.Prelude.{
  ℕ, zero, suc, ◌⊎◌, Bool, not, ◌&&◌, ◌||◌, none, some, List, [], ◌∷◌, length, head?, ltb, bool_eq,
  add_u64, is_some, if◌then◌else◌, exhausted, ◌>>=◌, ◌>>◌, return, gets, modify,
}
use hbbft.Prelude.BTreeSet.{insert as set_insert}
use hbbft.Prelude.BTreeMap.{BTreeMap, get, values}
use hbbft.Prelude.BTreeMap
use hbbft.FaultLog.{NodeId}
use hbbft.Messaging.{Target, message}
use hbbft.Traits.{default, extend, join, from_fault, from_message}
use hbbft.Crypto.{Crypto}
use hbbft.NetworkInfo.{num_correct}
use hbbft.ThresholdSign
use hbbft.ThresholdSign.{ThresholdSign}
use hbbft.BinaryAgreement.Faults.{handle_threshold_sign, invoke_coin, agreement_epoch}
use hbbft.BinaryAgreement.BoolSet
use hbbft.BinaryAgreement.BoolSet.{BoolSet}
use hbbft.BinaryAgreement.BoolMultimap.{index, update}
use hbbft.BinaryAgreement.SbvBroadcast
use hbbft.BinaryAgreement.SbvBroadcast.{SbvBroadcast, Sbv}
use hbbft.BinaryAgreement.Content.{
  MessageContent, sbv_broadcast, conf, term, coin, Message, with_epoch, can_expire,
  ReceivedMessages, messages,
}
use hbbft.BinaryAgreement.Content
use hbbft.BinaryAgreement.Instance.{
  decided, in_progress, Step, Ba, coin_value, Call, content_from, next_epoch, with_sbv, with_coin,
  decide, count_conf, lift_sbv_step, lift_coin_step, queued, start_epoch, coin_of_epoch,
  can_propose,
}

module _ {C : Crypto} {S : Type 0} (call : Call C → Ba C S (Step C)) where
  unfoldable pub try_update_epoch : Ba C S (Step C)
  unfolding decide
  try_update_epoch s =
      if is_some s.decision then return default s else elim (coin_value s.coin_state) [
        | none ↦ return default s
        | some coin_bit ↦ elim s.conf_values [
          | none ↦ return default s
          | some conf_set ↦ elim (BoolSet.definite conf_set) [
            | none ↦ call (next_epoch coin_bit) s
            | some b ↦ if bool_eq coin_bit b then decide coin_bit s else call (next_epoch b) s
          ]
        ]
      ]

  unfoldable pub on_coin_step : ThresholdSign.Step C → Ba C S (Step C)
  unfolding try_update_epoch
  on_coin_step ts_step s =
      let (step, ts_output) = lift_coin_step s.epoch ts_step in
      elim (head? ts_output) [
        | none ↦ return step s
        | some sig ↦
            (do
              modify (λ t. record t { coin_state = decided (C.parity sig) })
              out ← try_update_epoch
              return (extend step out))
              s
      ]

  unfoldable pub try_finish_conf_round : Ba C S (Step C)
  unfolding on_coin_step try_update_epoch count_conf
  try_finish_conf_round s =
      if not (is_some s.conf_values) || ltb (count_conf s) (num_correct s.netinfo)
      then return default s
      else elim s.coin_state [
        | decided _ ↦ return default s
        | in_progress ts ↦
            (do
              ts_step ← with_coin invoke_coin ts ThresholdSign.sign
              first ← on_coin_step ts_step
              second ← try_update_epoch
              return (join first second))
              s
      ]

  unfoldable pub handle_conf : NodeId → BoolSet → Ba C S (Step C)
  unfolding try_finish_conf_round
  handle_conf sender_id v s =
      try_finish_conf_round
        (record s { received_conf = BTreeMap.insert sender_id v s.received_conf })

  unfoldable pub send : MessageContent C → Ba C S (Step C)
  send content s =
      if s.netinfo.is_validator
      then (do
        step ← call (content_from s.netinfo.our_id content)
        return (join (from_message (message Target.all (with_epoch content s.epoch))) step))
          s
      else return default s

  unfoldable pub send_conf : BoolSet → Ba C S (Step C)
  unfolding send try_finish_conf_round
  send_conf vals s =
      if is_some s.conf_values
      then return default s
      else (let t = record s { conf_values = some vals } in
          if t.netinfo.is_validator then send (conf vals) t else try_finish_conf_round t)

  unfoldable pub handle_sbvb_step : SbvBroadcast.Step → Ba C S (Step C)
  unfolding send_conf try_update_epoch
  handle_sbvb_step sbvb_step s =
      let (step, output) = lift_sbv_step s.epoch sbvb_step in
      if is_some s.conf_values then return step s else elim (head? output) [
        | none ↦ return step s
        | some aux_vals ↦ elim s.coin_state [
          | decided _ ↦
              (do
                modify (λ t. record t { conf_values = some aux_vals })
                out ← try_update_epoch
                return (extend step out))
                s
          | in_progress ts ↦ (do out ← send_conf aux_vals; return (extend step out)) s
        ]
      ]

  unfoldable pub handle_sbv_broadcast : NodeId → SbvBroadcast.Message → Ba C S (Step C)
  unfolding handle_sbvb_step
  handle_sbv_broadcast sender_id msg = do
    sbvb_step ← with_sbv (SbvBroadcast.handle_message sender_id msg)
    handle_sbvb_step sbvb_step

  unfoldable pub handle_term : NodeId → Bool → Ba C S (Step C)
  unfolding handle_sbvb_step handle_conf decide
  handle_term sender_id b s =
      let t = record s {
        received_term = update s.received_term b (set_insert sender_id (index s.received_term b));
      } in
      if is_some t.decision
      then return default t
      else if ltb t.netinfo.num_faulty (length (index t.received_term b))
      then decide b t
      else (do
        bval_step ← with_sbv (SbvBroadcast.handle_bval sender_id b)
        aux_step ← with_sbv (SbvBroadcast.handle_aux sender_id b)
        step ← handle_sbvb_step (extend bval_step aux_step)
        out ← handle_conf sender_id (BoolSet.from b)
        return (join step out))
          t

  unfoldable pub handle_coin : NodeId → ThresholdSign.Message C → Ba C S (Step C)
  unfolding on_coin_step
  handle_coin sender_id msg s = elim s.coin_state [
    | decided _ ↦ return default s
    | in_progress ts ↦
        (do
          ts_step ← with_coin handle_threshold_sign ts (ThresholdSign.handle_message sender_id msg)
          on_coin_step ts_step)
          s
  ]

  -- `handle_message_content`, over the calls that lead back to it.
  unfoldable pub content_with : NodeId → MessageContent C → Ba C S (Step C)
  unfolding handle_sbv_broadcast handle_conf handle_term handle_coin
  content_with sender_id (sbv_broadcast msg) = handle_sbv_broadcast sender_id msg
  content_with sender_id (conf v) = handle_conf sender_id v
  content_with sender_id (term v) = handle_term sender_id v
  content_with sender_id (coin msg) = handle_coin sender_id msg

  -- The queue of an epoch is worked off until the instance decides or the epoch ends.
  unfoldable pub drain_queue : ℕ → Step C → List (NodeId × MessageContent C) → Ba C S (Step C)
  drain_queue epoch step [] = return step
  drain_queue epoch step ((sender_id, m) ∷ rest) = do
    out ← call (content_from sender_id m)
    over ← gets (λ s. is_some s.decision || ltb epoch s.epoch)
    if over then return (extend step out) else drain_queue epoch (extend step out) rest

  unfoldable pub update_with : (S → ℕ → List ℕ ⊎ List ℕ) → Bool → Ba C S (Step C)
  unfolding start_epoch handle_sbvb_step drain_queue queued coin_of_epoch
  update_with serialize_id b = do
    modify start_epoch
    coin_now ← (λ s. (coin_of_epoch serialize_id s, s))
    modify (λ s. record s { coin_state = coin_now })
    modify (λ s. record s { estimated = some b })
    sbvb_step ← with_sbv (SbvBroadcast.send_bval b)
    step ← handle_sbvb_step sbvb_step
    epoch ← gets (λ s. s.epoch)
    queue ← gets (λ s. get s.incoming_queue epoch)
    modify (λ s. record s { incoming_queue = BTreeMap.remove epoch s.incoming_queue })
    drain_queue epoch step (elim queue [ none ↦ [] | some q ↦ queued q ])

module _ {C : Crypto} {S : Type 0} where
  -- A message of a later epoch joins the queue.
  unfoldable pub enqueue : NodeId → Message C → Ba C S (Step C)
  enqueue sender_id msg s =
      let epoch_state : BTreeMap (ReceivedMessages C) = elim (get s.incoming_queue msg.epoch) [
        | none ↦ []
        | some q ↦ q
      ] in
      let received : ReceivedMessages C = elim (get epoch_state sender_id) [
        | none ↦ Content.new
        | some r ↦ r
      ] in
      let (received', fault) = Content.insert msg.content received in
      let t = record s {
        incoming_queue =
            BTreeMap.insert msg.epoch (BTreeMap.insert sender_id received' epoch_state)
              s.incoming_queue;
      } in
      elim fault [ none ↦ return default t | some kind ↦ return (from_fault sender_id kind) t ]

module _ {C : Crypto} {S : Type 0} (serialize_id : S → ℕ → List ℕ ⊎ List ℕ) where
  -- Each epoch that ends within a call takes a unit of fuel, and so does each message that the
  -- instance sends to itself.
  unfoldable pub run_fuel : ℕ → Call C → Ba C S (Step C)
  unfolding content_with update_with
  run_fuel zero c s = (exhausted, s)
  run_fuel (suc n) (content_from id m) s = content_with (run_fuel n) id m s
  run_fuel (suc n) (next_epoch b) s = update_with (run_fuel n) serialize_id b s

  unfoldable pub propose : ℕ → Bool → Ba C S (Step C)
  unfolding run_fuel handle_sbvb_step
  propose fuel input s =
      if not (can_propose s)
      then return default s
      else (do
        modify (λ t. record t { estimated = some input })
        sbvb_step ← with_sbv (SbvBroadcast.send_bval input)
        handle_sbvb_step (run_fuel fuel) sbvb_step)
          s

  unfoldable pub handle_message : ℕ → NodeId → Message C → Ba C S (Step C)
  unfolding run_fuel enqueue
  handle_message fuel sender_id msg s =
      if is_some s.decision || (ltb msg.epoch s.epoch && can_expire msg.content)
      then return default s
      else if ltb (add_u64 s.epoch s.max_future_epochs) msg.epoch
      then return (from_fault sender_id agreement_epoch) s
      else if ltb s.epoch msg.epoch
      then enqueue sender_id msg s
      else run_fuel fuel (content_from sender_id msg.content) s
