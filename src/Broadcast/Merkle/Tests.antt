-- ===== src/Broadcast/Merkle/Tests.antt =====
-- A tree of five leaves under a toy hash function.
use hbbft.Prelude.{ℕ, ◌≡◌, refl, true, some, none, Bool, false, List, [], ◌∷◌, arith}
use hbbft.Samples.{toy_hash}
use hbbft.Broadcast.Merkle.{MerkleTree, Proof, from_vec, proof, validate, climb}
use hbbft.Broadcast.Merkle.Validate.{Proves, proof-validate}

abbrev five : List (List ℕ)
five = (3 ∷ []) ∷ (1 ∷ 4 ∷ []) ∷ (1 ∷ []) ∷ (5 ∷ 9 ∷ []) ∷ (2 ∷ []) ∷ []

is_valid_at : ℕ → Bool
is_valid_at i = elim (from_vec toy_hash five) [
  | none ↦ false
  | some t ↦ elim (proof t i) [ none ↦ false | some p ↦ validate toy_hash p 5 ]
]

five_valid : is_valid_at 4 ≡ true
unfolding is_valid_at from_vec proof validate climb
five_valid = refl

five_no_sixth : is_valid_at 5 ≡ false
unfolding is_valid_at from_vec proof validate climb
five_no_sixth = refl

proof-validate_example : (t : MerkleTree) × (p : Proof) × Proves toy_hash five 4 t p
proof-validate_example = proof-validate toy_hash five 4 (omega arith)
