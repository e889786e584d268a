-- ===== src/Broadcast/Decoding.antt =====
-- src/broadcast/broadcast.rs: when the shards can be decoded.
use hbbft.Prelude.{
  ℕ, suc, ◌<◌, ◌≡◌, refl, ap, true, Option, none, some, List, [], ◌∷◌, length, all, is_some, ok,
  arith, bytes_eq, Bool-cases, Option-cases, inl, inr,
}
use hbbft.Broadcast.Merkle.{Digest}
use hbbft.Broadcast.Merkle.Validate.{from_vec-total}
use hbbft.Broadcast.Coding.{
  ReedSolomon, Coding, reed_solomon, trivial, reconstruct_shards, data_shard_count,
}
use hbbft.Broadcast.Payload.{glue}
use hbbft.Broadcast.Instance.{present, decode_from_shards}

-- What the crate documents of `reconstruct`: after a success every shard is there, and their
-- number is unchanged.
pub record Restores (R : ReedSolomon) : Type 0 where
  pub restored :
      (c : R.Codec) (shards out : List (Option (List ℕ)))
      → R.reconstruct_shards c shards ≡ some out
      → (all is_some out ≡ true) × (length out ≡ length shards)

length-present :
    (xs : List (Option (List ℕ))) → all is_some xs ≡ true → length (present xs) ≡ length xs
unfolding present
length-present [] h = refl
length-present (none ∷ xs) h = absurd (cc)
length-present (some x ∷ xs) h = ap suc (length-present xs h)

module _ {R : ReedSolomon} (L : Restores R) where
  reconstruct-present :
      (coding : Coding R) (shards out : List (Option (List ℕ)))
      → reconstruct_shards coding shards ≡ some out
      → length (present out) ≡ length shards
  unfolding reconstruct_shards
  reconstruct-present (reed_solomon c) shards out e =
      let (there, same) = L.restored c shards out e in omega (arith, length-present out there, same)
  reconstruct-present (trivial d) shards out e = elim (Bool-cases (all is_some shards)) [
    | inl there ↦
        let same : shards ≡ out = ground arith in rw (← same) (length-present shards there)
    | inr short ↦ absurd (ground arith)
  ]

  pub decode_from_shards-total :
      (sha3_256 : List ℕ → Digest) (coding : Coding R) (leaves : List (Option (List ℕ)))
      (hash : Digest)
      → 0 < length leaves
      → (v : Option (List ℕ)) × (decode_from_shards sha3_256 coding leaves hash ≡ ok v)
  unfolding decode_from_shards
  decode_from_shards-total sha3_256 coding leaves hash h =
      elim (Option-cases (reconstruct_shards coding leaves)) [
        | inl lost ↦ (none, rw (lost, decode_from_shards) refl)
        | inr (out, e) ↦
            let (t, built) =
              from_vec-total sha3_256 (present out)
                (omega (arith, reconstruct-present coding leaves out e)) in
            elim (Bool-cases (bytes_eq t.root_hash hash)) [
              | inl same ↦ (
                glue (data_shard_count coding) t.values,
                rw (e, built, same, decode_from_shards) refl,
              )
              | inr other ↦ (none, rw (e, built, other, decode_from_shards) refl)
            ]
      ]
