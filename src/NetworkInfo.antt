-- ===== src/NetworkInfo.antt =====
-- src/network_info.rs: the validators, their keys, and the numbers N and f.
pub mod Laws
pub mod Quorums
mod Tests
use hbbft.Prelude.{
  ℕ, suc, ◌-◌, ◌*◌, ltb, if◌then◌else◌, ◌≡◌, Bool, Option, none, some, List, [], ◌∷◌, map, length,
}
use hbbft.Prelude.BTreeMap.{BTreeMap, get, keys, contains_key}
use hbbft.Util.{max_faulty}
use hbbft.FaultLog.{NodeId}
use hbbft.Crypto.{Crypto}

pub record NetworkInfo (C : Crypto) : Type 0 where
  pub our_id : NodeId
  pub num_nodes : ℕ
  pub num_faulty : ℕ
  pub is_validator : Bool
  pub secret_key_share : Option C.SecretKeyShare
  pub secret_key : C.SecretKey
  pub public_key_set : C.PublicKeySet
  pub public_key_shares : BTreeMap C.PublicKeyShare
  pub public_keys : BTreeMap C.PublicKey
  pub node_indices : BTreeMap ℕ

-- `keys().enumerate()`, with the index behind the key.
enumerate_from : ℕ → List NodeId → BTreeMap ℕ
enumerate_from n [] = []
enumerate_from n (id ∷ ids) = (id, n) ∷ enumerate_from (suc n) ids

module _ {C : Crypto} where
  create :
      NodeId
      → Option C.SecretKeyShare
      → C.PublicKeySet
      → C.SecretKey
      → BTreeMap C.PublicKey
      → ℕ
      → NetworkInfo C
  unfolding enumerate_from
  create our_id sks pks sk public_keys num_faulty =
      let node_indices = enumerate_from 0 (keys public_keys) in
      record {
        our_id = our_id;
        num_nodes = length public_keys;
        num_faulty = num_faulty;
        is_validator = contains_key public_keys our_id;
        secret_key_share = sks;
        secret_key = sk;
        public_key_set = pks;
        public_key_shares = map (λ e. (e.0, C.key_share pks e.1)) node_indices;
        public_keys = public_keys;
        node_indices = node_indices;
      }

  -- `none` is a panic: of `max_faulty` on an empty map of keys, or of the assertion `3 f < N`.
  unfoldable pub new :
      NodeId
      → Option C.SecretKeyShare
      → C.PublicKeySet
      → C.SecretKey
      → BTreeMap C.PublicKey
      → Option (NetworkInfo C)
  unfolding create
  new our_id sks pks sk public_keys = elim (max_faulty (length public_keys)) [
    | none ↦ none
    | some num_faulty ↦
        if ltb (3 * num_faulty) (length public_keys)
        then some (create our_id sks pks sk public_keys num_faulty)
        else none
  ]

  abbrev pub all_ids : NetworkInfo C → List NodeId
  all_ids n = keys n.public_keys

  abbrev pub num_correct : NetworkInfo C → ℕ
  num_correct n = n.num_nodes - n.num_faulty

  abbrev pub public_key_share : NetworkInfo C → NodeId → Option C.PublicKeyShare
  public_key_share n id = get n.public_key_shares id

  abbrev pub public_key : NetworkInfo C → NodeId → Option C.PublicKey
  public_key n id = get n.public_keys id

  abbrev pub node_index : NetworkInfo C → NodeId → Option ℕ
  node_index n id = get n.node_indices id

  abbrev pub is_node_validator : NetworkInfo C → NodeId → Bool
  is_node_validator n id = contains_key n.public_keys id
