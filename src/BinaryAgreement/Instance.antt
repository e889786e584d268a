-- ===== src/BinaryAgreement/Instance.antt =====
-- src/binary_agreement/binary_agreement.rs: an instance of Binary Agreement and its handlers.
use hbbft.Prelude.{
  ℕ, ◌%◌, ◌⊎◌, inl, inr, Bool, true, false, not, ◌&&◌, Option, none, some, List, [], ◌∷◌, ◌++◌, map,
  keep, length, ◌==◌, add_u64, is_some, if◌then◌else◌, M, Outcome, ok, err, exhausted, panicked,
  map_err, return,
}
use hbbft.Prelude.BTreeMap.{BTreeMap, get, values}
use hbbft.Prelude.BTreeMap
use hbbft.FaultLog.{NodeId}
use hbbft.Messaging.{Target, message}
use hbbft.Traits
use hbbft.Traits.{default, extend, join, with_output, from_fault, from_message, extend_with}
use hbbft.Crypto.{Crypto}
use hbbft.NetworkInfo.{NetworkInfo}
use hbbft.ThresholdSign
use hbbft.ThresholdSign.{ThresholdSign}
use hbbft.BinaryAgreement.Faults.{Error, invoke_coin, serialize, FaultKind, coin_fault}
use hbbft.BinaryAgreement.BoolSet
use hbbft.BinaryAgreement.BoolSet.{BoolSet}
use hbbft.BinaryAgreement.BoolMultimap
use hbbft.BinaryAgreement.BoolMultimap.{BoolMultimap, index, update}
use hbbft.BinaryAgreement.SbvBroadcast
use hbbft.BinaryAgreement.SbvBroadcast.{SbvBroadcast, Sbv}
use hbbft.BinaryAgreement.Content.{
  MessageContent, sbv_broadcast, term, coin, Message, with_epoch, ReceivedMessages, messages,
}

pub data CoinState (C : Crypto) : Type 0 where
  decided : Bool → CoinState C
  in_progress : ThresholdSign C → CoinState C

pub record BinaryAgreement (C : Crypto) (S : Type 0) : Type 0 where
  pub netinfo : NetworkInfo C
  pub session_id : S
  pub epoch : ℕ  -- u64
  pub max_future_epochs : ℕ  -- u64
  pub sbv : SbvBroadcast C
  pub received_conf : BTreeMap BoolSet
  pub received_term : BoolMultimap
  pub estimated : Option Bool
  pub decision : Option Bool
  pub incoming_queue : BTreeMap (BTreeMap (ReceivedMessages C))
  pub conf_values : Option BoolSet
  pub coin_state : CoinState C

abbrev pub Step : (C : Crypto) → Type 0
Step C = Traits.Step (Message C) Bool FaultKind

abbrev pub Ba : (C : Crypto) → Type 0 → Type 0 → Type 0
Ba C S A = M (BinaryAgreement C S) (Error C) A

-- `CoinState::value`.
abbrev pub coin_value : {C : Crypto} → CoinState C → Option Bool
coin_value (decided value) = some value
coin_value (in_progress ts) = none

-- The two calls by which the handlers below reach themselves: `handle_message_content` and
-- `update_epoch`.
pub data Call (C : Crypto) : Type 0 where
  content_from : NodeId → MessageContent C → Call C
  next_epoch : Bool → Call C

module _ {C : Crypto} where
  -- The conversion of a step of the inner broadcast, and its outputs.
  abbrev pub lift_sbv_step : ℕ → SbvBroadcast.Step → Step C × List BoolSet
  lift_sbv_step epoch sbvb_step =
      extend_with default sbvb_step (λ fault. fault) (λ msg. with_epoch (sbv_broadcast msg) epoch)

  abbrev pub lift_coin_step : ℕ → ThresholdSign.Step C → Step C × List C.Signature
  lift_coin_step epoch ts_step =
      extend_with default ts_step coin_fault (λ msg. with_epoch (coin msg) epoch)

  -- The queued messages of an epoch, sender by sender.
  unfoldable pub queued : BTreeMap (ReceivedMessages C) → List (NodeId × MessageContent C)
  queued [] = []
  queued ((id, received) ∷ rest) = map (λ m. (id, m)) (messages received) ++ queued rest

-- The loop over `received_term` in `update_epoch`.
conf_of_terms : BTreeMap BoolSet → List (Bool × NodeId) → BTreeMap BoolSet
conf_of_terms m [] = m
conf_of_terms m ((v, id) ∷ rest) = conf_of_terms (BTreeMap.insert id (BoolSet.from v) m) rest

module _ {C : Crypto} {S : Type 0} where
  unfoldable pub new : NetworkInfo C → S → BinaryAgreement C S
  new netinfo session_id = record {
    netinfo = netinfo;
    session_id = session_id;
    epoch = 0;
    max_future_epochs = 1000;
    sbv = SbvBroadcast.new netinfo;
    received_conf = [];
    received_term = BoolMultimap.default;
    estimated = none;
    decision = none;
    incoming_queue = [];
    conf_values = none;
    coin_state = decided true;
  }

  abbrev pub can_propose : BinaryAgreement C S → Bool
  can_propose s = (s.epoch == 0) && not (is_some s.estimated)

  -- A call of the inner broadcast.
  abbrev pub with_sbv : {A : Type 0} → Sbv C A → Ba C S A
  with_sbv m s = let (r, t) = m s.sbv in (r, record s { sbv = t })

  -- A call of the coin, whose errors are wrapped.
  abbrev pub with_coin :
      {A : Type 0}
      → (ThresholdSign.Error C → Error C)
      → ThresholdSign C
      → M (ThresholdSign C) (ThresholdSign.Error C) A
      → Ba C S A
  with_coin f ts m s = let (r, t) = m ts in (map_err f r, record s { coin_state = in_progress t })

  unfoldable pub decide : Bool → Ba C S (Step C)
  decide b s =
      if is_some s.decision
      then return default s
      else (let msgs =
            if s.netinfo.is_validator
            then message Target.all (with_epoch (term b) (add_u64 s.epoch 1)) ∷ []
            else [] in
          return (record { output = b ∷ []; fault_log = []; messages = msgs })
            (record s { decision = some b }))

  unfoldable pub count_conf : BinaryAgreement C S → ℕ
  count_conf s =
      length (keep (λ c. BoolSet.is_subset c (s.sbv.bin_values)) (values s.received_conf))

  -- The state at the start of an epoch, without its coin.
  unfoldable pub start_epoch : BinaryAgreement C S → BinaryAgreement C S
  unfolding conf_of_terms
  start_epoch s = record s {
    sbv = SbvBroadcast.clear s.received_term s.sbv;
    received_conf = conf_of_terms [] (BoolMultimap.entries s.received_term);
    conf_values = none;
    epoch = add_u64 s.epoch 1;
  }

  -- `serialize` of the crate `bincode` is a parameter: bytes, or a message of failure.
  module _ (serialize_id : S → ℕ → List ℕ ⊎ List ℕ) where
    unfoldable pub coin_of_epoch : BinaryAgreement C S → Outcome (Error C) (CoinState C)
    coin_of_epoch s =
        if s.epoch % 3 == 0
        then ok (decided true)
        else if s.epoch % 3 == 1
        then ok (decided false)
        else elim (serialize_id s.session_id s.epoch) [
          | inl e ↦ err (serialize e)
          | inr coin_id ↦ elim (ThresholdSign.new_with_document s.netinfo coin_id) [
            | ok ts ↦ ok (in_progress ts)
            | err e ↦ err (invoke_coin e)
            | panicked ↦ panicked
            | exhausted ↦ exhausted
          ]
        ]
