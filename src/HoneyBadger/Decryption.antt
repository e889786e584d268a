-- ===== src/HoneyBadger/Decryption.antt =====
-- src/honey_badger/epoch_state.rs: the decryptions of the contributions of an epoch.
use hbbft.Prelude.{ℕ, not, Option, none, some, List, [], ◌∷◌, keep, M, ok, ◌>>◌}
use hbbft.Prelude.BTreeMap.{BTreeMap, get, remove, keys}
use hbbft.Prelude.BTreeSet.{BTreeSet, contains}
use hbbft.FaultLog.{NodeId, FaultLog, append}
use hbbft.Traits.{default}
use hbbft.Crypto.{Crypto}
use hbbft.NetworkInfo.{NetworkInfo}
use hbbft.ThresholdDecrypt as Td
use hbbft.HoneyBadger.Content.{FaultKind, unexpected_decryption_share}

pub data DecryptionState (C : Crypto) : Type 0 where
  ongoing : Td.ThresholdDecrypt C → DecryptionState C
  complete : List ℕ → DecryptionState C

-- A call of a decryption.
unfoldable pub handle_share :
    {C : Crypto} → NodeId → Td.Message C → M (DecryptionState C) (Td.Error C) (Td.Step C)
handle_share id msg (ongoing td) = let (r, td2) = Td.handle_message id msg td in (r, ongoing td2)
handle_share id msg (complete pt) = (ok default, complete pt)

unfoldable pub set_ciphertext :
    {C : Crypto} → C.Ciphertext → M (DecryptionState C) (Td.Error C) (Td.Step C)
set_ciphertext ct (ongoing td) =
    let (r, td2) = (Td.set_ciphertext ct >> Td.start_decryption) td in (r, ongoing td2)
set_ciphertext ct (complete pt) = (ok default, complete pt)

-- What `DecryptionState::new` gives for a new entry.
abbrev pub or_new : {C : Crypto} → NetworkInfo C → Option (DecryptionState C) → DecryptionState C
or_new netinfo none = ongoing (Td.new netinfo)
or_new netinfo (some ds) = ds

-- The reports of `senders`.
blame_all : List NodeId → FaultLog FaultKind → FaultLog FaultKind
blame_all [] l = l
blame_all (id ∷ ids) l = blame_all ids (append l id unexpected_decryption_share)

-- The reports of the senders of shares to a decryption that was under way.
unfoldable pub blame_senders :
    {C : Crypto} → Option (DecryptionState C) → FaultLog FaultKind → FaultLog FaultKind
unfolding blame_all
blame_senders (some (ongoing td)) l = blame_all (Td.sender_ids td) l
blame_senders (some (complete pt)) l = l
blame_senders none l = l

-- The removal of the decryptions of proposers that are not accepted.
unfoldable pub remove_faulty :
    {C : Crypto}
    → List NodeId
    → BTreeMap (DecryptionState C)
    → FaultLog FaultKind
    → FaultLog FaultKind × BTreeMap (DecryptionState C)
remove_faulty [] m l = (l, m)
remove_faulty (id ∷ ids) m l = remove_faulty ids (remove id m) (blame_senders (get m id) l)

unfoldable pub faulty_shares : {C : Crypto} → BTreeSet → BTreeMap (DecryptionState C) → List NodeId
faulty_shares accepted m = keep (λ id. not (contains accepted id)) (keys m)
