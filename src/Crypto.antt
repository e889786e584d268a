-- ===== src/Crypto.antt =====
-- The threshold cryptography that the library takes from the crate `threshold_crypto`: a parameter
-- of the models. Byte strings are lists of numbers.
use hbbft.Prelude.{ℕ, Bool, List, ◌⊎◌}

pub record Crypto : Type 1 where
  pub PublicKey : Type 0
  pub SecretKey : Type 0
  pub PublicKeySet : Type 0
  pub PublicKeyShare : Type 0
  pub SecretKeyShare : Type 0
  pub Signature : Type 0
  pub SignatureShare : Type 0
  pub G2 : Type 0
  pub CryptoError : Type 0
  pub hash_g2 : List ℕ → G2
  -- `PublicKeySet::public_key_share` and `public_key`.
  pub key_share : PublicKeySet → ℕ → PublicKeyShare
  pub public_key : PublicKeySet → PublicKey
  pub sign_g2 : SecretKeyShare → G2 → SignatureShare
  -- `PublicKeyShare::verify_g2` and `PublicKey::verify_g2`.
  pub verify_share : PublicKeyShare → SignatureShare → G2 → Bool
  pub verify_g2 : PublicKey → Signature → G2 → Bool
  pub combine_signatures : PublicKeySet → List (ℕ × SignatureShare) → CryptoError ⊎ Signature
  pub parity : Signature → Bool
  pub Ciphertext : Type 0
  pub DecryptionShare : Type 0
  -- `Ciphertext::verify`, `decrypt_share_no_verify`, `verify_decryption_share` and `decrypt`.
  pub verify_ciphertext : Ciphertext → Bool
  pub decrypt_share : SecretKeyShare → Ciphertext → DecryptionShare
  pub verify_decryption_share : PublicKeyShare → DecryptionShare → Ciphertext → Bool
  pub decrypt : PublicKeySet → List (ℕ × DecryptionShare) → Ciphertext → CryptoError ⊎ List ℕ
