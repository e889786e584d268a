-- ===== src/ThresholdSign.antt =====
-- src/threshold_sign.rs: f + 1 validators sign a document together.
pub mod Signatures
mod Tests
use hbbft.Prelude.{
  ℕ, zero, suc, inl, inr, Bool, true, false, not, ◌&&◌, Option, none, some, List, [], ◌∷◌, keep,
  length, ltb, is_some, if◌then◌else◌, M, Outcome, ok, err, exhausted, panicked, ◌>>=◌, ◌>>◌,
  return, throw, gets, modify,
}
use hbbft.Prelude.BTreeMap.{remove_all, BTreeMap, insert, remove, values, keys}
use hbbft.FaultLog.{NodeId, FaultLog}
use hbbft.FaultLog
use hbbft.Messaging.{Target, message}
use hbbft.Traits
use hbbft.Traits.{default, extend, join, with_output, from_fault, from_fault_log, from_message}
use hbbft.Crypto.{Crypto}
use hbbft.NetworkInfo.{NetworkInfo, node_index, public_key_share}

pub data Error (C : Crypto) : Type 0 where
  multiple_messages_to_sign : Error C
  combine_and_verify_sig_crypto : C.CryptoError → Error C
  unknown_sender : Error C
  verification_failed : Error C
  document_hash_is_none : Error C

pub data FaultKind : Type 0 where
  unverified_signature_share_sender : FaultKind
  unexpected_signature_share : FaultKind

pub record Message (C : Crypto) : Type 0 where
  pub share : C.SignatureShare

abbrev pub Step : (C : Crypto) → Type 0
Step C = Traits.Step (Message C) C.Signature FaultKind

pub record ThresholdSign (C : Crypto) : Type 0 where
  pub netinfo : NetworkInfo C
  pub doc_hash : Option C.G2
  pub received_shares : BTreeMap (ℕ × C.SignatureShare)
  pub had_input : Bool
  pub terminated : Bool

abbrev Ts : (C : Crypto) → Type 0 → Type 0
Ts C A = M (ThresholdSign C) (Error C) A

blame_all : List NodeId → FaultLog FaultKind → FaultLog FaultKind
blame_all [] l = l
blame_all (id ∷ ids) l = blame_all ids (FaultLog.append l id unverified_signature_share_sender)

module _ {C : Crypto} where
  unfoldable pub new : NetworkInfo C → ThresholdSign C
  new netinfo = record {
    netinfo = netinfo;
    doc_hash = none;
    received_shares = [];
    had_input = false;
    terminated = false;
  }

  unfoldable pub set_document : List ℕ → Ts C (Unit {0})
  set_document doc = do
    already ← gets (λ s. is_some s.doc_hash)
    if already
        then throw multiple_messages_to_sign
        else modify (λ s. record s { doc_hash = some (C.hash_g2 doc) })

  -- A share counts as valid while there is no document to check it against.
  unfoldable pub is_share_valid : ThresholdSign C → NodeId → C.SignatureShare → Bool
  is_share_valid s id share = elim s.doc_hash [
    | none ↦ true
    | some hash ↦ elim (public_key_share s.netinfo id) [
      | none ↦ false
      | some pk_i ↦ C.verify_share pk_i share hash
    ]
  ]

  combine_and_verify_sig : ThresholdSign C → C.G2 → Outcome (Error C) C.Signature
  combine_and_verify_sig s hash =
      elim (C.combine_signatures s.netinfo.public_key_set (values s.received_shares)) [
        | inl e ↦ err (combine_and_verify_sig_crypto e)
        | inr sig ↦
            if C.verify_g2 (C.public_key s.netinfo.public_key_set) sig hash
            then ok sig
            else err verification_failed
      ]

  -- `sign` and `try_output` call each other; `resign` stands for the call of `sign` by
  -- `try_output`, and the recursion is closed in `sign` below.
  try_output : Ts C (Step C) → Ts C (Step C)
  unfolding combine_and_verify_sig
  try_output resign = do
    doc ← gets (λ s. s.doc_hash)
    elim doc [
      | none ↦ return default
      | some hash ↦ do
        ready ← gets (λ s. not s.terminated && ltb s.netinfo.num_faulty (length s.received_shares))
        if ready
            then (do
              sig ← (λ s. (combine_and_verify_sig s hash, s))
              modify (λ s. record s { terminated = true })
              step ← resign
              return (with_output step sig))
            else return default
    ]

  handle_share : Ts C (Step C) → NodeId → Message C → Ts C (Step C)
  unfolding try_output is_share_valid combine_and_verify_sig
  handle_share resign sender_id msg = do
    over ← gets (λ s. s.terminated)
    if over then return default else (do
      index ← gets (λ s. node_index s.netinfo sender_id)
      elim index [
        | none ↦ throw unknown_sender
        | some idx ↦ do
          valid ← gets (λ s. is_share_valid s sender_id msg.share)
          if valid
              then (do
                modify (λ s. record s {
                  received_shares = insert sender_id (idx, msg.share) s.received_shares;
                })
                try_output resign)
              else return (from_fault sender_id unverified_signature_share_sender)
      ])

  faulty_senders : ThresholdSign C → List NodeId
  unfolding is_share_valid
  faulty_senders s = keys (keep (λ e. not (is_share_valid s e.0 e.1.1)) s.received_shares)

  remove_invalid_shares : Ts C (FaultLog FaultKind)
  unfolding faulty_senders blame_all
  remove_invalid_shares = do
    ids ← gets faulty_senders
    modify (λ s. record s { received_shares = remove_all ids s.received_shares })
    return (blame_all ids [])

  sign_with : Ts C (Step C) → Ts C (Step C)
  unfolding handle_share try_output remove_invalid_shares
  sign_with resign = do
    had ← gets (λ s. s.had_input)
    if had then return default else (do
      doc ← gets (λ s. s.doc_hash)
      elim doc [
        | none ↦ throw document_hash_is_none
        | some hash ↦ do
          modify (λ s. record s { had_input = true })
          faults ← remove_invalid_shares
          share ← gets (λ s. s.netinfo.secret_key_share)
          elim share [
            | none ↦ do out ← try_output resign; return (join (from_fault_log faults) out)
            | some sks ↦ do
              let msg : Message C = record { share = C.sign_g2 sks hash }
              id ← gets (λ s. s.netinfo.our_id)
              out ← handle_share resign id msg
              return (
                  extend (join (from_fault_log faults) (from_message (message Target.all msg))) out)
          ]
      ])

  sign_fuel : ℕ → Ts C (Step C)
  unfolding sign_with
  sign_fuel zero s = (exhausted, s)
  sign_fuel (suc n) s = sign_with (sign_fuel n) s

  -- Two rounds of `sign` are enough.
  unfoldable pub sign : Ts C (Step C)
  unfolding sign_fuel
  sign = sign_fuel 2

  unfoldable pub handle_message : NodeId → Message C → Ts C (Step C)
  unfolding sign handle_share
  handle_message sender_id msg = handle_share sign sender_id msg

-- `new_with_document`.
unfoldable pub new_with_document :
    {C : Crypto} → NetworkInfo C → List ℕ → Outcome (Error C) (ThresholdSign C)
unfolding new set_document
new_with_document netinfo doc = elim ((set_document doc (new netinfo)).0) [
  | ok _ ↦ ok (set_document doc (new netinfo)).1
  | err e ↦ err e
  | panicked ↦ panicked
  | exhausted ↦ exhausted
]
