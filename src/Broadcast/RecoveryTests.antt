-- ===== src/Broadcast/RecoveryTests.antt =====
-- A code that repeats one shard, and a value recovered from one of three copies.
use hbbft.Prelude.{
  ℕ, zero, suc, ◌≤◌, ◌<◌, ◌≡◌, refl, sym, subst, ap, ◌∙◌, Option, none, some, List, [], ◌∷◌, length,
  map, take, count, is_some, replicate, ok, arith,
}
use hbbft.Samples.{toy_hash}
use hbbft.Broadcast.Merkle.{MerkleTree, from_vec}
use hbbft.Broadcast.Coding.{ReedSolomon, reed_solomon, encode, data_shard_count}
use hbbft.Broadcast.Payload.{split}
use hbbft.Broadcast.Instance.{decode_from_shards}
use hbbft.Broadcast.Recovery.{Masks, done, kept, lost, Recovers, decode-encode}

first_some : List (Option (List ℕ)) → Option (List ℕ)
first_some [] = none
first_some (none ∷ xs) = first_some xs
first_some (some x ∷ xs) = some x

abbrev restored : Option (List ℕ) → ℕ → Option (List (Option (List ℕ)))
restored none n = none
restored (some x) n = some (replicate n (some x))

-- One data shard; the codec is the number of parity shards.
abbrev copies : ReedSolomon
copies = record {
  Codec = ℕ;
  create = λ d p. some p;
  data_shard_count = λ p. 1;
  parity_shard_count = λ p. p;
  encode = λ p shards. elim shards [ [] ↦ none | x ∷ xs ↦ some (replicate (suc p) x) ];
  reconstruct_shards = λ p leaves. restored (first_some leaves) (length leaves);
}

Masks-first :
    (n : ℕ) (x : List ℕ) (leaves : List (Option (List ℕ)))
    → Masks leaves (replicate n x)
    → 1 ≤ count is_some leaves
    → first_some leaves ≡ some x
unfolding first_some
Masks-first zero x [] done h = absurd (omega arith)
Masks-first zero x (_ ∷ leaves) m h = elim m [ ]
Masks-first (suc n) x [] m h = elim m [ ]
Masks-first (suc n) x (some y ∷ leaves) (kept m) h = refl
Masks-first (suc n) x (none ∷ leaves) (lost m) h = Masks-first n x leaves m (omega arith)

Masks-copies :
    (n : ℕ) (x : List ℕ) (leaves : List (Option (List ℕ)))
    → Masks leaves (replicate n x)
    → replicate (length leaves) (some x) ≡ map some (replicate n x)
Masks-copies zero x [] done = refl
Masks-copies zero x (_ ∷ leaves) m = elim m [ ]
Masks-copies (suc n) x [] m = elim m [ ]
Masks-copies (suc n) x (some y ∷ leaves) (kept m) = ap (λ r. some x ∷ r) (Masks-copies n x leaves m)
Masks-copies (suc n) x (none ∷ leaves) (lost m) = ap (λ r. some x ∷ r) (Masks-copies n x leaves m)

reconstruct_first :
    (p : ℕ) (x : List ℕ) (leaves : List (Option (List ℕ)))
    → first_some leaves ≡ some x
    → copies.reconstruct_shards p leaves ≡ some (replicate (length leaves) (some x))
reconstruct_first p x leaves e = ap (λ r. restored r (length leaves)) e

copies-Recovers : Recovers copies
copies-Recovers = record { encoded = encoded; recovered = recovered }
  where
    encoded :
        (p : ℕ) (shards out : List (List ℕ))
        → copies.encode p shards ≡ some out
        → take 1 out ≡ take 1 shards
    encoded p [] out e = absurd (cc)
    encoded p (x ∷ xs) out e =
        let same : replicate (suc p) x ≡ out = ground arith in rw (← same) refl

    recovered :
        (p : ℕ) (shards out : List (List ℕ)) (leaves : List (Option (List ℕ)))
        → copies.encode p shards ≡ some out
        → Masks leaves out
        → 1 ≤ count is_some leaves
        → copies.reconstruct_shards p leaves ≡ some (map some out)
    recovered p [] out leaves e m h = absurd (cc)
    recovered p (x ∷ xs) out leaves e m h =
        let same : replicate (suc p) x ≡ out = ground arith in
        let n : Masks leaves (replicate (suc p) x) = subst (λ r. Masks leaves r) (sym same) m in
        reconstruct_first p x leaves (Masks-first (suc p) x leaves n h)
        ∙ ap some (Masks-copies (suc p) x leaves n)
        ∙ ap (λ r. some (map some r)) same

abbrev framed_value : List ℕ
framed_value = 0 ∷ 0 ∷ 0 ∷ 2 ∷ 7 ∷ 8 ∷ []

abbrev three : List (List ℕ)
three = framed_value ∷ framed_value ∷ framed_value ∷ []

three_encoded : encode {R = copies} (reed_solomon 2) (split 1 2 (7 ∷ 8 ∷ [])) ≡ some three
unfolding encode split hbbft.Broadcast.Payload.framed hbbft.Broadcast.Payload.resize
    hbbft.Broadcast.Payload.write_u32 hbbft.Broadcast.Payload.chunks
    hbbft.Broadcast.Payload.shard_len
three_encoded = refl

tree : Option MerkleTree
tree = from_vec toy_hash three

-- Only the last copy is left.
one_left : List (Option (List ℕ))
one_left = none ∷ none ∷ some framed_value ∷ []

tree_of_three : MerkleTree
tree_of_three = elim tree [
  | none ↦ record { levels = []; values = []; root_hash = [] }
  | some t ↦ t
]

tree_built : from_vec toy_hash three ≡ some tree_of_three
unfolding tree_of_three tree from_vec
tree_built = refl

one_left-Masks : Masks one_left three
unfolding one_left
one_left-Masks = lost (lost (kept done))

one_left_enough : 1 ≤ count is_some one_left
unfolding one_left
one_left_enough = omega arith

one_data_shard : 0 < data_shard_count {R = copies} (reed_solomon 2)
unfolding data_shard_count
one_data_shard = omega arith

decode-encode_example :
    decode_from_shards {R = copies} toy_hash (reed_solomon 2) one_left tree_of_three.root_hash
    ≡ ok (some (7 ∷ 8 ∷ []))
unfolding data_shard_count hbbft.Broadcast.Coding.parity_shard_count
decode-encode_example =
    decode-encode copies-Recovers toy_hash (reed_solomon 2) (7 ∷ 8 ∷ []) three tree_of_three
      one_left one_data_shard (omega arith) three_encoded tree_built one_left-Masks one_left_enough
