-- ===== src/Broadcast/Recovery.antt =====
-- src/broadcast/broadcast.rs: the value of a correct proposer, out of any large enough part of
-- its shards.
use hbbft.Prelude.{
  ℕ, zero, suc, ◌+◌, ◌≤◌, ◌<◌, ◌^◌, ◌≡◌, refl, ap, ◌∙◌, true, Option, none, some, List, [], ◌∷◌,
  length, map, all, take, count, is_some, ok, arith, bytes_eq, bytes_eq_iff,
}
use hbbft.Broadcast.Merkle.{Digest, MerkleTree, from_vec, build}
use hbbft.Broadcast.Coding.{
  ReedSolomon, Coding, reed_solomon, trivial, data_shard_count, parity_shard_count, encode,
  reconstruct_shards,
}
use hbbft.Broadcast.Payload.{chunks, split, glue}
use hbbft.Broadcast.Payload.RoundTrip.{glue-split}
use hbbft.Broadcast.Instance.{present, decode_from_shards}

-- The shards with some of them lost.
pub data Masks : List (Option (List ℕ)) → List (List ℕ) → Type 0 where
  done : Masks [] []
  kept :
      {x : List ℕ} {leaves : List (Option (List ℕ))} {shards : List (List ℕ)}
      → Masks leaves shards
      → Masks (some x ∷ leaves) (x ∷ shards)
  lost :
      {x : List ℕ} {leaves : List (Option (List ℕ))} {shards : List (List ℕ)}
      → Masks leaves shards
      → Masks (none ∷ leaves) (x ∷ shards)

-- What the crate documents: encoding overwrites the parity shards only, and any part of the
-- shards with at least as many shards as there are data shards is completed to all of them.
pub record Recovers (R : ReedSolomon) : Type 0 where
  pub encoded :
      (c : R.Codec) (shards out : List (List ℕ))
      → R.encode c shards ≡ some out
      → take (R.data_shard_count c) out ≡ take (R.data_shard_count c) shards
  pub recovered :
      (c : R.Codec) (shards out : List (List ℕ)) (leaves : List (Option (List ℕ)))
      → R.encode c shards ≡ some out
      → Masks leaves out
      → R.data_shard_count c ≤ count is_some leaves
      → R.reconstruct_shards c leaves ≡ some (map some out)

length-chunks : (n len : ℕ) (xs : List ℕ) → length (chunks n len xs) ≡ n
unfolding chunks
length-chunks zero len xs = refl
length-chunks (suc n) len xs = ap suc (length-chunks n len _)

length-split : (d p : ℕ) (value : List ℕ) → length (split d p value) ≡ d + p
unfolding split
length-split d p value = length-chunks (d + p) _ _

Masks-count :
    {leaves : List (Option (List ℕ))} {shards : List (List ℕ)}
    → Masks leaves shards
    → count is_some leaves ≤ length shards
Masks-count done = omega arith
Masks-count (kept m) = omega (arith, Masks-count m)
Masks-count (lost m) = omega (arith, Masks-count m)

-- With as many leaves as shards, none is lost.
Masks-complete :
    {leaves : List (Option (List ℕ))} {shards : List (List ℕ)}
    → Masks leaves shards
    → length shards ≤ count is_some leaves
    → (all is_some leaves ≡ true) × (leaves ≡ map some shards)
Masks-complete done h = (refl, refl)
Masks-complete (kept {x} m) h =
    let (there, same) = Masks-complete m (omega arith) in (there, ap (λ r. some x ∷ r) same)
Masks-complete (lost m) h = absurd (omega (arith, Masks-count m))

present-map : (xs : List (List ℕ)) → present (map some xs) ≡ xs
unfolding present
present-map [] = refl
present-map (x ∷ xs) = ap (λ r. x ∷ r) (present-map xs)

from_vec-values :
    (sha3_256 : List ℕ → Digest) (vals : List (List ℕ)) (t : MerkleTree)
    → from_vec sha3_256 vals ≡ some t
    → t.values ≡ vals
unfolding from_vec
from_vec-values sha3_256 vals t e = go (build sha3_256 (length vals) (map sha3_256 vals)).1 e
  where
    go :
        (top : List Digest)
        → (elim top [
          | [] ↦ none
          | root ∷ rest ↦ some (record {
            levels = (build sha3_256 (length vals) (map sha3_256 vals)).0;
            values = vals;
            root_hash = root;
          })
        ])
          ≡ some t
        → t.values ≡ vals
    go [] e = absurd (cc)
    go (root ∷ rest) e = ground arith

glue-take : (d : ℕ) (xs ys : List (List ℕ)) → take d xs ≡ take d ys → glue d xs ≡ glue d ys
unfolding glue
glue-take d xs ys e = rw e refl

module _ {R : ReedSolomon} (L : Recovers R) where
  encode-data :
      (coding : Coding R) (shards out : List (List ℕ))
      → encode coding shards ≡ some out
      → take (data_shard_count coding) out ≡ take (data_shard_count coding) shards
  unfolding encode data_shard_count
  encode-data (reed_solomon c) shards out e = L.encoded c shards out e
  encode-data (trivial d) shards out e = let same : shards ≡ out = ground arith in rw same refl

  reconstruct-encode :
      (coding : Coding R) (value : List ℕ) (out : List (List ℕ)) (leaves : List (Option (List ℕ)))
      → encode coding (split (data_shard_count coding) (parity_shard_count coding) value) ≡ some out
      → Masks leaves out
      → data_shard_count coding ≤ count is_some leaves
      → reconstruct_shards coding leaves ≡ some (map some out)
  unfolding encode data_shard_count parity_shard_count reconstruct_shards
  reconstruct-encode (reed_solomon c) value out leaves e m h = L.recovered c _ out leaves e m h
  reconstruct-encode (trivial d) value out leaves e m h =
      let same : split d 0 value ≡ out = ground arith in
      let size : length out ≡ d + 0 = rw (← same) (length-split d 0 value) in
      let (there, full) = Masks-complete m (omega arith) in rw there (ap some full)

  -- For a code that recovers lost shards and has a data shard: a correct proposer's value of less
  -- than 2 ^ 32 bytes, split, encoded and put in a Merkle tree, is decoded from any part of its
  -- shards that has at least as many shards as there are data shards, under the root hash of the
  -- tree.
  pub decode-encode :
      (sha3_256 : List ℕ → Digest) (coding : Coding R) (value : List ℕ) (shards : List (List ℕ))
      (t : MerkleTree) (leaves : List (Option (List ℕ)))
      → 0 < data_shard_count coding
      → length value < 2 ^ 32
      → encode coding (split (data_shard_count coding) (parity_shard_count coding) value)
        ≡ some shards
      → from_vec sha3_256 shards ≡ some t
      → Masks leaves shards
      → data_shard_count coding ≤ count is_some leaves
      → decode_from_shards sha3_256 coding leaves t.root_hash ≡ ok (some value)
  unfolding decode_from_shards
  decode-encode sha3_256 coding value shards t leaves pos small e built m h =
      let d = data_shard_count coding in
      let p = parity_shard_count coding in
      let there = reconstruct-encode coding value shards leaves e m h in
      let same_root : bytes_eq t.root_hash t.root_hash ≡ true =
        (bytes_eq_iff t.root_hash t.root_hash).1 refl in
      let back : glue d shards ≡ some value =
        glue-take d shards (split d p value) (encode-data coding (split d p value) shards e)
        ∙ glue-split d p value pos small in
      let values = from_vec-values sha3_256 shards t built in
      rw (there, present-map shards, built, same_root, values, decode_from_shards) (ap ok back)
