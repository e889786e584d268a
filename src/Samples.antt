-- ===== src/Samples.antt =====
-- Test data: a toy cryptosystem over numbers, and a network of four nodes.
use hbbft.Prelude.{
  Option, none, false, all, is_some, ◌≡◌, refl, Bool-cases, arith, ℕ, ◌%◌, ◌+◌, ◌==◌, true, List,
  [], ◌∷◌, some, ◌⊎◌, inl, inr, length,
}
use hbbft.Prelude.BTreeMap.{BTreeMap}
use hbbft.Crypto.{Crypto}
use hbbft.NetworkInfo.{NetworkInfo}
use hbbft.Broadcast.Coding.{ReedSolomon}
use hbbft.Broadcast.Decoding.{Restores}

-- A share is the document itself, and two equal shares make a signature.
abbrev pub toy : Crypto
toy = record {
  PublicKey = ℕ;
  SecretKey = ℕ;
  PublicKeySet = ℕ;
  PublicKeyShare = ℕ;
  SecretKeyShare = ℕ;
  Signature = ℕ;
  SignatureShare = ℕ;
  G2 = ℕ;
  CryptoError = ℕ;
  hash_g2 = λ doc. length doc;
  key_share = λ set i. i;
  public_key = λ set. set;
  sign_g2 = λ key doc. doc;
  verify_share = λ key share doc. share == doc;
  verify_g2 = λ key sig doc. sig == doc;
  combine_signatures = λ set shares. combine shares;
  parity = λ sig. sig % 2 == 1;
  Ciphertext = ℕ;
  DecryptionShare = ℕ;
  verify_ciphertext = λ ct. true;
  decrypt_share = λ key ct. ct;
  verify_decryption_share = λ key share ct. share == ct;
  decrypt = λ set shares ct. plain shares;
}
  where
    combine : List (ℕ × ℕ) → ℕ ⊎ ℕ
    combine [] = inl 0
    combine ((i, share) ∷ rest) = inr share

    plain : List (ℕ × ℕ) → ℕ ⊎ List ℕ
    plain [] = inl 0
    plain ((i, share) ∷ rest) = inr (share ∷ [])

abbrev pub four_keys : BTreeMap ℕ
four_keys = (10, 0) ∷ (20, 1) ∷ (30, 2) ∷ (40, 3) ∷ []

-- Node 10 of the network 10, 20, 30, 40, which tolerates one faulty node.
abbrev pub four_nodes : NetworkInfo toy
four_nodes = record {
  our_id = 10;
  num_nodes = 4;
  num_faulty = 1;
  is_validator = true;
  secret_key_share = some 7;
  secret_key = 8;
  public_key_set = 9;
  public_key_shares = (10, 0) ∷ (20, 1) ∷ (30, 2) ∷ (40, 3) ∷ [];
  public_keys = four_keys;
  node_indices = (10, 0) ∷ (20, 1) ∷ (30, 2) ∷ (40, 3) ∷ [];
}

-- Not a good hash function, but it depends on every byte.
abbrev pub toy_hash : List ℕ → List ℕ
toy_hash [] = 1 ∷ []
toy_hash (b ∷ bs) = mix b (toy_hash bs)
  where
    mix : ℕ → List ℕ → List ℕ
    mix b [] = b ∷ []
    mix b (c ∷ cs) = ((b + c + c + c) % 256) ∷ []

-- Codes that restore nothing: no parity is computed, and all shards are wanted.
abbrev pub no_code : ReedSolomon
no_code = record {
  Codec = ℕ × ℕ;
  create = λ data_shards parity_shards. some (data_shards, parity_shards);
  data_shard_count = λ c. c.0;
  parity_shard_count = λ c. c.1;
  encode = λ c shards. some shards;
  reconstruct_shards = λ c shards. elim (all is_some shards) [ true ↦ some shards | false ↦ none ];
}

pub no_code-Restores : Restores no_code
no_code-Restores = record { restored = λ c shards out e. go shards out e }
  where
    go :
        (shards out : List (Option (List ℕ)))
        → no_code.reconstruct_shards (0, 0) shards ≡ some out
        → (all is_some out ≡ true) × (length out ≡ length shards)
    go shards out e = elim (Bool-cases (all is_some shards)) [
      | inl there ↦ let same : shards ≡ out = ground arith in rw (← same) (there, refl)
      | inr short ↦ absurd (ground arith)
    ]
