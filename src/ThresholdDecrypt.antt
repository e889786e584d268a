-- ===== src/ThresholdDecrypt.antt =====
-- src/threshold_decrypt.rs: f + 1 validators decrypt a ciphertext together.
pub mod Plaintext
mod Tests
use hbbft.Prelude.{
  ℕ, zero, suc, inl, inr, Bool, true, false, not, ◌||◌, Option, none, some, List, [], ◌∷◌, keep,
  length, leb, is_some, if◌then◌else◌, M, Outcome, ok, err, exhausted, panicked, ◌>>=◌, ◌>>◌,
  return, throw, gets, modify,
}
use hbbft.Prelude.BTreeMap.{remove_all, BTreeMap, get, insert, remove, values, keys}
use hbbft.FaultLog.{NodeId, FaultLog}
use hbbft.FaultLog
use hbbft.Messaging.{Target, message}
use hbbft.Traits
use hbbft.Traits.{default, extend, join, with_output, from_fault, from_fault_log, from_message}
use hbbft.Crypto.{Crypto}
use hbbft.NetworkInfo.{NetworkInfo, node_index, public_key_share}

pub data Error (C : Crypto) : Type 0 where
  multiple_inputs : C.Ciphertext → Error C
  invalid_ciphertext : C.Ciphertext → Error C
  unknown_sender : Error C
  decryption : C.CryptoError → Error C
  ciphertext_is_none : Error C

pub data FaultKind : Type 0 where
  multiple_decryption_shares : FaultKind
  unverified_decryption_share_sender : FaultKind

pub record Message (C : Crypto) : Type 0 where
  pub share : C.DecryptionShare

abbrev pub Step : (C : Crypto) → Type 0
Step C = Traits.Step (Message C) (List ℕ) FaultKind

pub record ThresholdDecrypt (C : Crypto) : Type 0 where
  pub netinfo : NetworkInfo C
  pub ciphertext : Option C.Ciphertext
  pub shares : BTreeMap (ℕ × C.DecryptionShare)
  pub had_input : Bool
  pub terminated : Bool

abbrev pub Td : (C : Crypto) → Type 0 → Type 0
Td C A = M (ThresholdDecrypt C) (Error C) A

blame_all : List NodeId → FaultLog FaultKind → FaultLog FaultKind
blame_all [] l = l
blame_all (id ∷ ids) l = blame_all ids (FaultLog.append l id unverified_decryption_share_sender)

module _ {C : Crypto} where
  unfoldable pub new : NetworkInfo C → ThresholdDecrypt C
  new netinfo = record {
    netinfo = netinfo;
    ciphertext = none;
    shares = [];
    had_input = false;
    terminated = false;
  }

  unfoldable pub set_ciphertext : C.Ciphertext → Td C (Unit {0})
  set_ciphertext ct = do
    already ← gets (λ s. is_some s.ciphertext)
    if already
        then throw (multiple_inputs ct)
        else if not (C.verify_ciphertext ct)
        then throw (invalid_ciphertext ct)
        else modify (λ s. record s { ciphertext = some ct })

  abbrev pub sender_ids : ThresholdDecrypt C → List NodeId
  sender_ids s = keys s.shares

  -- A share counts as valid while there is no ciphertext to check it against.
  unfoldable pub is_share_valid : ThresholdDecrypt C → NodeId → C.DecryptionShare → Bool
  is_share_valid s id share = elim s.ciphertext [
    | none ↦ true
    | some ct ↦ elim (public_key_share s.netinfo id) [
      | none ↦ false
      | some pk ↦ C.verify_decryption_share pk share ct
    ]
  ]

  pub faulty_senders : ThresholdDecrypt C → List NodeId
  unfolding is_share_valid
  faulty_senders s = keys (keep (λ e. not (is_share_valid s e.0 e.1.1)) s.shares)

  unfoldable pub remove_invalid_shares : Td C (FaultLog FaultKind)
  unfolding faulty_senders blame_all
  remove_invalid_shares = do
    ids ← gets faulty_senders
    modify (λ s. record s { shares = remove_all ids s.shares })
    return (blame_all ids [])

  -- The last lines of `try_output`; the shares are read after the call of `start_decryption`.
  unfoldable pub decrypt : C.Ciphertext → Step C → Td C (Step C)
  decrypt ct step s = elim (C.decrypt s.netinfo.public_key_set (values s.shares) ct) [
    | inl e ↦ (err (decryption e), s)
    | inr plaintext ↦ (ok (with_output step plaintext), s)
  ]

  -- `start_decryption` and `try_output` call each other; `start` stands for the call of
  -- `start_decryption` by `try_output`, and the recursion is closed in `start_fuel` below.
  unfoldable pub try_output : Td C (Step C) → Td C (Step C)
  try_output start = do
    waiting ← gets (λ s. s.terminated || leb (length s.shares) s.netinfo.num_faulty)
    if waiting then return default else (do
      ciphertext ← gets (λ s. s.ciphertext)
      elim ciphertext [
        | none ↦ return default
        | some ct ↦ do modify (λ s. record s { terminated = true }); step ← start; decrypt ct step
      ])

  -- Our own index and key share; `none` for a node that is no validator.
  unfoldable pub own_share : ThresholdDecrypt C → C.Ciphertext → Option (ℕ × C.DecryptionShare)
  own_share s ct = elim (node_index s.netinfo s.netinfo.our_id) [
    | none ↦ none
    | some idx ↦ elim s.netinfo.secret_key_share [
      | none ↦ none
      | some sks ↦ some (idx, C.decrypt_share sks ct)
    ]
  ]

  -- The second half of `start_decryption`.
  unfoldable pub send_share :
      Td C (Step C) → FaultLog FaultKind → Option (ℕ × C.DecryptionShare) → Td C (Step C)
  send_share start faults none = do
    out ← try_output start
    return (join (from_fault_log faults) out)
  send_share start faults (some (idx, share)) = do
    modify (λ s. record s { shares = insert s.netinfo.our_id (idx, share) s.shares })
    out ← try_output start
    return (
        extend
          (join (from_fault_log faults)
            (from_message (message Target.all (record { share = share }))))
          out)

  unfoldable pub start_with : Td C (Step C) → Td C (Step C)
  start_with start = do
    had ← gets (λ s. s.had_input)
    if had then return default else (do
      ciphertext ← gets (λ s. s.ciphertext)
      elim ciphertext [
        | none ↦ throw ciphertext_is_none
        | some ct ↦ do
          faults ← remove_invalid_shares
          modify (λ s. record s { had_input = true })
          own ← gets (λ s. own_share s ct)
          send_share start faults own
      ])

  unfoldable pub start_fuel : ℕ → Td C (Step C)
  start_fuel zero s = (exhausted, s)
  start_fuel (suc n) s = start_with (start_fuel n) s

  -- The nested call finds the instance terminated, so two rounds are enough.
  unfoldable pub start_decryption : Td C (Step C)
  start_decryption = start_fuel 2

  -- A second share of a sender replaces the first before it is reported.
  unfoldable pub handle_message : NodeId → Message C → Td C (Step C)
  handle_message sender_id msg = do
    over ← gets (λ s. s.terminated)
    if over then return default else (do
      index ← gets (λ s. node_index s.netinfo sender_id)
      elim index [
        | none ↦ throw unknown_sender
        | some idx ↦ do
          valid ← gets (λ s. is_share_valid s sender_id msg.share)
          if valid
              then (do
                known ← gets (λ s. is_some (get s.shares sender_id))
                modify (λ s. record s { shares = insert sender_id (idx, msg.share) s.shares })
                if known
                    then return (from_fault sender_id multiple_decryption_shares)
                    else try_output start_decryption)
              else return (from_fault sender_id unverified_decryption_share_sender)
      ])

-- `new_with_ciphertext`.
unfoldable pub new_with_ciphertext :
    {C : Crypto} → NetworkInfo C → C.Ciphertext → Outcome (Error C) (ThresholdDecrypt C)
unfolding new set_ciphertext
new_with_ciphertext netinfo ct = elim ((set_ciphertext ct (new netinfo)).0) [
  | ok _ ↦ ok (set_ciphertext ct (new netinfo)).1
  | err e ↦ err e
  | panicked ↦ panicked
  | exhausted ↦ exhausted
]
