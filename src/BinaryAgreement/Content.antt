-- ===== src/BinaryAgreement/Content.antt =====
-- src/binary_agreement/mod.rs: message contents; and the messages of a later epoch, as
-- binary_agreement.rs keeps them.
use hbbft.Prelude.{
  ℕ, Bool, true, false, Option, none, some, List, [], ◌∷◌, ◌++◌, map, is_some, if◌then◌else◌,
}
use hbbft.Crypto.{Crypto}
use hbbft.ThresholdSign
use hbbft.BinaryAgreement.Faults.{
  FaultKind, duplicate_bval, duplicate_aux, multiple_conf, multiple_term, agreement_epoch,
}
use hbbft.BinaryAgreement.BoolSet
use hbbft.BinaryAgreement.BoolSet.{BoolSet}
use hbbft.BinaryAgreement.SbvBroadcast

pub data MessageContent (C : Crypto) : Type 0 where
  sbv_broadcast : SbvBroadcast.Message → MessageContent C
  conf : BoolSet → MessageContent C
  term : Bool → MessageContent C
  coin : ThresholdSign.Message C → MessageContent C

pub record Message (C : Crypto) : Type 0 where
  pub epoch : ℕ  -- u64
  pub content : MessageContent C

pub record ReceivedMessages (C : Crypto) : Type 0 where
  pub bval_set : BoolSet
  pub aux_set : BoolSet
  pub conf_set : Option BoolSet
  pub term_value : Option Bool
  pub coin_share : Option C.SignatureShare

module _ {C : Crypto} where
  abbrev pub with_epoch : MessageContent C → ℕ → Message C
  with_epoch content epoch = record { epoch = epoch; content = content }

  abbrev pub can_expire : MessageContent C → Bool
  can_expire (term b) = false
  can_expire (sbv_broadcast m) = true
  can_expire (conf v) = true
  can_expire (coin m) = true

  unfoldable pub new : ReceivedMessages C
  new = record {
    bval_set = BoolSet.empty;
    aux_set = BoolSet.empty;
    conf_set = none;
    term_value = none;
    coin_share = none;
  }

  -- The messages after the insertion, and the fault if the content is not accepted.
  unfoldable pub insert :
      MessageContent C → ReceivedMessages C → ReceivedMessages C × Option FaultKind
  insert (sbv_broadcast (SbvBroadcast.Message.bval b)) r =
      let (s, fresh) = BoolSet.insert b r.bval_set in
      (record r { bval_set = s }, (if fresh then none else some duplicate_bval))
  insert (sbv_broadcast (SbvBroadcast.Message.aux b)) r =
      let (s, fresh) = BoolSet.insert b r.aux_set in
      (record r { aux_set = s }, (if fresh then none else some duplicate_aux))
  insert (conf bs) r =
      if is_some r.conf_set
      then (r, some multiple_conf)
      else (record r { conf_set = some bs }, none)
  insert (term b) r =
      if is_some r.term_value
      then (r, some multiple_term)
      else (record r { term_value = some b }, none)
  insert (coin msg) r =
      if is_some r.coin_share
      then (r, some agreement_epoch)
      else (record r { coin_share = some msg.share }, none)

  optional : {A : Type 0} → (A → MessageContent C) → Option A → List (MessageContent C)
  optional f none = []
  optional f (some a) = f a ∷ []

  unfoldable pub messages : ReceivedMessages C → List (MessageContent C)
  unfolding optional
  messages r =
      map (λ b. sbv_broadcast (SbvBroadcast.Message.bval b)) (BoolSet.elements r.bval_set)
      ++ (map (λ b. sbv_broadcast (SbvBroadcast.Message.aux b)) (BoolSet.elements r.aux_set)
          ++ (optional conf r.conf_set
              ++ (optional term r.term_value
                  ++ optional (λ ss. coin (record { share = ss })) r.coin_share)))
