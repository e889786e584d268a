-- ===== src/Broadcast/Merkle/Validate.antt =====
-- src/broadcast/merkle.rs: `validate`, on the proofs that a tree gives.
use hbbft.Prelude.{
  ℕ, zero, suc, ◌+◌, ◌/◌, ◌≤◌, ◌<◌, bit_and, bit_xor, ◌≡◌, refl, subst, ◌∙◌, inl, inr, true, none,
  some, List, [], ◌∷◌, map, length, length-map, get_elem?, ◌==◌, bytes_eq_iff, if◌then◌else◌, arith,
  Option-cases, lt→ltb,
}
use hbbft.Prelude.Bits.{bit_and-one, bit_xor-one}
use hbbft.Broadcast.Merkle.{
  Digest, MerkleTree, Proof, hash_pair, hash_chunks, build, from_vec, siblings, proof, climb,
  validate,
}

module _ {ℓ} {A : Type ℓ} where
  get_elem?-lt : (xs : List A) (i : ℕ) (a : A) → get_elem? xs i ≡ some a → i < length xs
  get_elem?-lt [] i a e = absurd (cc)
  get_elem?-lt (x ∷ xs) zero a e = omega arith
  get_elem?-lt (x ∷ xs) (suc i) a e = omega (arith, get_elem?-lt xs i a e)

  get_elem?-ge : (xs : List A) (i : ℕ) → get_elem? xs i ≡ none → length xs ≤ i
  get_elem?-ge [] i e = omega arith
  get_elem?-ge (x ∷ xs) zero e = absurd (cc)
  get_elem?-ge (x ∷ xs) (suc i) e = omega (arith, get_elem?-ge xs i e)

xor_two : (i : ℕ) → bit_xor (suc (suc i)) 1 ≡ suc (suc (bit_xor i 1))
xor_two i = omega (arith, bit_xor-one (suc (suc i)), bit_xor-one i)

half_two : (i : ℕ) → suc (suc i) / 2 ≡ suc (i / 2)
half_two i = omega arith

module _ (sha3_256 : List ℕ → Digest) where
  length-hash_chunks : (ds : List Digest) → length (hash_chunks sha3_256 ds) ≡ (length ds + 1) / 2
  unfolding hash_chunks
  length-hash_chunks [] = refl
  length-hash_chunks (d ∷ []) = refl
  length-hash_chunks (d0 ∷ d1 ∷ ds) = omega (arith, length-hash_chunks ds)

  -- One step of `validate` up the tree.
  abbrev above : ℕ → Digest → Digest → Digest
  above i d sibling =
      if bit_and i 1 == 1 then hash_pair sha3_256 sibling d else hash_pair sha3_256 d sibling

  parity_two : (i : ℕ) → bit_and (suc (suc i)) 1 ≡ bit_and i 1
  parity_two i = omega (arith, bit_and-one (suc (suc i)), bit_and-one i)

  above-sibling :
      (ds : List Digest) (i : ℕ) (d e : Digest)
      → get_elem? ds i ≡ some d
      → get_elem? ds (bit_xor i 1) ≡ some e
      → get_elem? (hash_chunks sha3_256 ds) (i / 2) ≡ some (above i d e)
  unfolding hash_chunks
  above-sibling [] i d e p q = absurd (cc)
  above-sibling (x ∷ []) zero d e p q = absurd (cc)
  above-sibling (x ∷ []) (suc i) d e p q = absurd (cc)
  above-sibling (x ∷ y ∷ ds) zero d e p q = ground arith
  above-sibling (x ∷ y ∷ ds) (suc zero) d e p q = ground arith
  above-sibling (x ∷ y ∷ ds) (suc (suc i)) d e p q =
      rw (half_two i, parity_two i) (above-sibling ds i d e p (rw xor_two at q))

  above_alone :
      (ds : List Digest) (i : ℕ) (d : Digest)
      → get_elem? ds i ≡ some d
      → get_elem? ds (bit_xor i 1) ≡ none
      → get_elem? (hash_chunks sha3_256 ds) (i / 2) ≡ some d
  unfolding hash_chunks
  above_alone [] i d p q = absurd (cc)
  above_alone (x ∷ []) zero d p q = p
  above_alone (x ∷ []) (suc i) d p q = absurd (cc)
  above_alone (x ∷ y ∷ ds) zero d p q = absurd (cc)
  above_alone (x ∷ y ∷ ds) (suc zero) d p q = absurd (cc)
  above_alone (x ∷ y ∷ ds) (suc (suc i)) d p q =
      rw (half_two i) (above_alone ds i d p (rw xor_two at q))

  climb_alone :
      (f : ℕ) (d : Digest) (i n : ℕ) (ds : List Digest)
      → 1 < n
      → n ≤ bit_xor i 1
      → climb sha3_256 (suc f) d i n ds ≡ climb sha3_256 f d (i / 2) ((n + 1) / 2) ds
  unfolding climb
  climb_alone f d i n ds big none_left = ground arith

  climb_sibling :
      (f : ℕ) (d : Digest) (i n : ℕ) (e : Digest) (ds : List Digest)
      → 1 < n
      → bit_xor i 1 < n
      → climb sha3_256 (suc f) d i n (e ∷ ds)
        ≡ climb sha3_256 f (above i d e) (i / 2) ((n + 1) / 2) ds
  unfolding climb
  climb_sibling f d i n e ds big left = ground arith

  -- The branch of position `i` leads to the single digest on top.
  record Leads (levels : List (List Digest)) (top : List Digest) (m n i : ℕ) (d : Digest)
      : Type 0 where
    root : Digest
    single : top ≡ root ∷ []
    climbs : climb sha3_256 (suc m) d i n (siblings levels i) ≡ some (root, [])

  Leads-one : (m n i : ℕ) (d : Digest) → n ≤ 1 → Leads [] (d ∷ []) m n i d
  unfolding climb siblings
  Leads-one m n i d h = record { root = d; single = refl; climbs = ground arith }

  Leads-up :
      (levels : List (List Digest)) (cur top : List Digest) (m i : ℕ) (d : Digest)
      → 1 < length cur
      → get_elem? cur i ≡ some d
      → ((d' : Digest)
          → get_elem? (hash_chunks sha3_256 cur) (i / 2) ≡ some d'
          → Leads levels top m ((length cur + 1) / 2) (i / 2) d')
      → Leads (cur ∷ levels) top (suc m) (length cur) i d
  unfolding siblings
  Leads-up levels cur top m i d big at_i next = elim (Option-cases (get_elem? cur (bit_xor i 1))) [
    | inl alone ↦
        let up = next d (above_alone cur i d at_i alone) in
        record {
          root = up.root;
          single = up.single;
          climbs =
              rw (alone, siblings)
                (climb_alone (suc m) d i (length cur) (siblings levels (i / 2)) big
                    (get_elem?-ge cur _ alone)
                  ∙ up.climbs);
        }
    | inr (e, found) ↦
        let up = next (above i d e) (above-sibling cur i d e at_i found) in
        record {
          root = up.root;
          single = up.single;
          climbs =
              rw (found, siblings)
                (climb_sibling (suc m) d i (length cur) e (siblings levels (i / 2)) big
                    (get_elem?-lt cur _ e found)
                  ∙ up.climbs);
        }
  ]

  build-Leads :
      (fuel m : ℕ) (cur : List Digest) (i : ℕ) (d : Digest)
      → length cur ≤ fuel
      → length cur ≤ m
      → get_elem? cur i ≡ some d
      → let built = build sha3_256 fuel cur in Leads built.0 built.1 m (length cur) i d
  unfolding build
  build-Leads fuel m [] i d p q e = absurd (cc)
  build-Leads zero m (x ∷ cur) i d p q e = absurd (omega arith)
  build-Leads (suc fuel) zero (x ∷ cur) i d p q e = absurd (omega arith)
  build-Leads (suc fuel) (suc m) (x ∷ []) zero d p q e =
      let same : x ≡ d = cc in rw (← same) (Leads-one (suc m) 1 0 x (omega arith))
  build-Leads (suc fuel) (suc m) (x ∷ []) (suc i) d p q e = absurd (cc)
  build-Leads (suc fuel) (suc m) (x ∷ y ∷ cur) i d p q e =
      let level = x ∷ y ∷ cur in
      let rest = build sha3_256 fuel (hash_chunks sha3_256 level) in
      rw (lt→ltb 1 (length level) (omega arith)) (
        Leads-up rest.0 level rest.1 m i d (omega arith) e (λ d' at_half.
          subst (λ k. Leads rest.0 rest.1 m k (i / 2) d') (length-hash_chunks level)
            (build-Leads fuel m (hash_chunks sha3_256 level) (i / 2) d'
              (omega (arith, length-hash_chunks level)) (omega (arith, length-hash_chunks level))
              at_half)))

  get_elem?-map :
      (vals : List (List ℕ)) (i : ℕ) (v : List ℕ)
      → get_elem? vals i ≡ some v
      → get_elem? (map sha3_256 vals) i ≡ some (sha3_256 v)
  get_elem?-map [] i v e = absurd (cc)
  get_elem?-map (x ∷ vals) zero v e = cc
  get_elem?-map (x ∷ vals) (suc i) v e = get_elem?-map vals i v e

  get_elem?-total :
      (vals : List (List ℕ)) (i : ℕ) → i < length vals → (v : List ℕ) × (get_elem? vals i ≡ some v)
  get_elem?-total [] i h = absurd (omega arith)
  get_elem?-total (x ∷ vals) zero h = (x, refl)
  get_elem?-total (x ∷ vals) (suc i) h = get_elem?-total vals i (omega arith)

  validate_of_climb :
      (p : Proof) (n : ℕ)
      → climb sha3_256 (suc n) (sha3_256 p.value) p.index n p.digests ≡ some (p.root_hash, [])
      → validate sha3_256 p n ≡ true
  unfolding validate
  validate_of_climb p n e = rw (e, validate) ((bytes_eq_iff p.root_hash p.root_hash).1 refl)

  -- What the tree of `vals` gives for position `i`.
  pub record Proves (vals : List (List ℕ)) (i : ℕ) (t : MerkleTree) (p : Proof) : Type 0 where
    pub built : from_vec sha3_256 vals ≡ some t
    pub proved : proof t i ≡ some p
    pub position : p.index ≡ i
    pub leaf : get_elem? vals i ≡ some p.value
    pub root : p.root_hash ≡ t.root_hash
    pub valid : validate sha3_256 p (length vals) ≡ true

  -- For every position of a list of values the tree exists, its proof exists, and the proof is for
  -- the value at the position, under the root of the tree, and passes `validate`.
  pub proof-validate :
      (vals : List (List ℕ)) (i : ℕ)
      → i < length vals
      → (t : MerkleTree) × (p : Proof) × Proves vals i t p
  unfolding from_vec proof
  proof-validate vals i h = (
    tree,
    branch,
    record {
      built = rw (top.single, from_vec);
      proved = rw value.1;
      position = refl;
      leaf = value.1;
      root = refl;
      valid = validate_of_climb branch (length vals) top.climbs;
    },
  )
    where
      value : (v : List ℕ) × (get_elem? vals i ≡ some v)
      value = get_elem?-total vals i h

      levels : List (List Digest) × List Digest
      levels = build sha3_256 (length vals) (map sha3_256 vals)

      top : Leads levels.0 levels.1 (length vals) (length vals) i (sha3_256 value.0)
      top =
          subst (λ k. Leads levels.0 levels.1 (length vals) k i (sha3_256 value.0))
            (length-map sha3_256 vals)
            (build-Leads (length vals) (length vals) (map sha3_256 vals) i (sha3_256 value.0)
              (omega (arith, length-map sha3_256 vals)) (omega (arith, length-map sha3_256 vals))
              (get_elem?-map vals i value.0 value.1))

      tree : MerkleTree
      tree = record { levels = levels.0; values = vals; root_hash = top.root }

      branch : Proof
      branch = record {
        value = value.0;
        index = i;
        digests = siblings levels.0 i;
        root_hash = top.root;
      }

module _ (sha3_256 : List ℕ → Digest) where
  -- A tree exists for every list of at least one value.
  pub from_vec-total :
      (vals : List (List ℕ))
      → 0 < length vals
      → (t : MerkleTree) × (from_vec sha3_256 vals ≡ some t)
  from_vec-total vals h = let (t, p, proves) = proof-validate sha3_256 vals 0 h in (t, proves.built)
