-- ===== src/Broadcast/Merkle.antt =====
-- src/broadcast/merkle.rs: Merkle trees over byte strings, and proofs for their leaves. The hash
-- function of the crate `tiny_keccak` is a parameter.
pub mod Validate
mod Tests
use hbbft.Prelude.{
  ℕ, zero, suc, ◌+◌, ◌/◌, bit_and, bit_xor, Bool, true, false, Option, none, some, List, [], ◌∷◌,
  ◌++◌, map, length, get_elem?, ltb, ◌==◌, bytes_eq, if◌then◌else◌,
}

-- 32 bytes.
abbrev pub Digest : Type 0
Digest = List ℕ

pub record MerkleTree : Type 0 where
  pub levels : List (List Digest)
  pub values : List (List ℕ)
  pub root_hash : Digest

pub record Proof : Type 0 where
  pub value : List ℕ
  pub index : ℕ
  pub digests : List Digest
  pub root_hash : Digest

digests_eq : List Digest → List Digest → Bool
digests_eq [] [] = true
digests_eq [] (y ∷ ys) = false
digests_eq (x ∷ xs) [] = false
digests_eq (x ∷ xs) (y ∷ ys) = if bytes_eq x y then digests_eq xs ys else false

-- The derived equality of proofs.
unfoldable pub proof_eq : Proof → Proof → Bool
unfolding digests_eq
proof_eq p q =
    if bytes_eq p.value q.value
    then (if p.index == q.index
        then (if digests_eq p.digests q.digests then bytes_eq p.root_hash q.root_hash else false)
        else false)
    else false

-- The loop of `proof`.
unfoldable pub siblings : List (List Digest) → ℕ → List Digest
siblings [] lvl_i = []
siblings (level ∷ levels) lvl_i =
    let rest = siblings levels (lvl_i / 2) in
    elim (get_elem? level (bit_xor lvl_i 1)) [ none ↦ rest | some digest ↦ digest ∷ rest ]

unfoldable pub proof : MerkleTree → ℕ → Option Proof
unfolding siblings
proof t i = elim (get_elem? t.values i) [
  | none ↦ none
  | some v ↦
      some (record { value = v; index = i; digests = siblings t.levels i; root_hash = t.root_hash })
]

module _ (sha3_256 : List ℕ → Digest) where
  abbrev pub hash_pair : List ℕ → List ℕ → Digest
  hash_pair v0 v1 = sha3_256 (v0 ++ v1)

  -- `chunks(2)`, each under `hash_chunk`.
  unfoldable pub hash_chunks : List Digest → List Digest
  hash_chunks [] = []
  hash_chunks (d ∷ []) = d ∷ []
  hash_chunks (d0 ∷ d1 ∷ ds) = hash_pair d0 d1 ∷ hash_chunks ds

  -- The loop of `from_vec`: the levels below the last, and the last. A level of n digests takes
  -- no more than n rounds.
  unfoldable pub build : ℕ → List Digest → List (List Digest) × List Digest
  build zero cur_lvl = ([], cur_lvl)
  build (suc fuel) cur_lvl =
      let rest = build fuel (hash_chunks cur_lvl) in
      if ltb 1 (length cur_lvl) then (cur_lvl ∷ rest.0, rest.1) else ([], cur_lvl)

  -- `none` is the panic of `cur_lvl[0]` when there is no value.
  unfoldable pub from_vec : List (List ℕ) → Option MerkleTree
  unfolding build hash_chunks
  from_vec vals =
      let built = build (length vals) (map sha3_256 vals) in
      elim built.1 [
        | [] ↦ none
        | root ∷ rest ↦ some (record { levels = built.0; values = vals; root_hash = root })
      ]

  -- The loop of `validate`: the digest at the top and the digests left over; `none` when the
  -- proof has not enough levels. A level of n digests takes no more than n rounds.
  unfoldable pub climb : ℕ → Digest → ℕ → ℕ → List Digest → Option (Digest × List Digest)
  climb zero digest lvl_i lvl_n digests = none
  climb (suc fuel) digest lvl_i lvl_n digests = elim (ltb 1 lvl_n) [
    | false ↦ some (digest, digests)
    | true ↦ elim (ltb (bit_xor lvl_i 1) lvl_n) [
      | false ↦ climb fuel digest (lvl_i / 2) ((lvl_n + 1) / 2) digests
      | true ↦ elim digests [
        | [] ↦ none
        | sibling ∷ rest ↦
            climb fuel
              (if bit_and lvl_i 1 == 1 then hash_pair sibling digest else hash_pair digest sibling)
              (lvl_i / 2) ((lvl_n + 1) / 2) rest
      ]
    ]
  ]

  unfoldable pub validate : Proof → ℕ → Bool
  validate p n = elim (climb (suc n) (sha3_256 p.value) p.index n p.digests) [
    | none ↦ false
    | some (digest, rest) ↦ elim rest [ [] ↦ bytes_eq digest p.root_hash | _ ↦ false ]
  ]
