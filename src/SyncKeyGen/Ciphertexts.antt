-- ===== src/SyncKeyGen/Ciphertexts.antt =====
-- src/sync_key_gen.rs: rows and values that are encrypted for each key, and their tests.
use hbbft.Prelude.{
  ℕ, zero, suc, ◌+◌, ◌≡◌, refl, ap, subst, ◌⊎◌, inl, inr, true, some, List, [], ◌∷◌, length,
  get_elem?, sum_cases, arith, ok,
}
use hbbft.Crypto.{Crypto}
use hbbft.SyncKeyGen.Instance.{Polynomials}
use hbbft.SyncKeyGen.Handlers.{add_ciphertext, encrypt_each, check_row, check_value}

module _ {C : Crypto} (P : Polynomials C) where
  -- What the crates promise: a row has the commitment that the commitment of the polynomial says,
  -- and its values lie on it, where the polynomial is symmetric; what is serialized is read back.
  pub record IsLawful : Type 0 where
    pub row_commits :
        (p : P.BivarPoly) (i : ℕ)
        → P.commitment_eq (P.poly_commitment (P.row p i)) (P.commitment_row (P.commitment p) i)
          ≡ true
    pub value_commits :
        (p : P.BivarPoly) (i j : ℕ)
        → P.g1_eq (P.commitment_at (P.commitment p) i j) (P.one_mul (P.evaluate (P.row p j) i))
          ≡ true
    pub reads_row :
        (row : P.Poly) (bytes : List ℕ)
        → P.serialize_row row ≡ inr bytes
        → P.deserialize_row bytes ≡ some row
    pub reads_value :
        (v : P.Fr) (bytes : List ℕ)
        → P.serialize_value v ≡ inr bytes
        → P.deserialize_value bytes ≡ some v

  -- The secret key opens what is encrypted with the public key.
  abbrev pub Opens : C.SecretKey → C.PublicKey → Type 0
  Opens sk pk =
      (rng : P.Rng) (bytes : List ℕ) → P.decrypt sk (P.encrypt_with_rng pk rng bytes).0 ≡ some bytes

  -- The ciphertext at a position holds the item of the number after it.
  abbrev pub Holds :
      (ℕ → P.SerializeError ⊎ List ℕ) → ℕ → List C.PublicKey → List C.Ciphertext → Type 0
  Holds item idx pks cs =
      (k : ℕ) (pk : C.PublicKey)
      → get_elem? pks k ≡ some pk
      → (bytes : List ℕ) × (q : P.Rng) × (item (idx + k + 1) ≡ inr bytes)
        × (get_elem? cs k ≡ some (P.encrypt_with_rng pk q bytes).0)

  Holds-more :
      (item : ℕ → P.SerializeError ⊎ List ℕ) (idx : ℕ) (pk : C.PublicKey) (pks : List C.PublicKey)
      (rng : P.Rng) (bytes : List ℕ) (cs : List C.Ciphertext)
      → item (idx + 1) ≡ inr bytes
      → Holds item (suc idx) pks cs
      → Holds item idx (pk ∷ pks) ((P.encrypt_with_rng pk rng bytes).0 ∷ cs)
  Holds-more item idx pk pks rng bytes cs done rest zero key e =
      let same : pk ≡ key = ground arith in
      (
        bytes,
        rng,
        subst (λ n. item n ≡ inr bytes) (omega arith) done,
        ap (λ l. some (P.encrypt_with_rng l rng bytes).0) same,
      )
  Holds-more item idx pk pks rng bytes cs done rest (suc k) key e =
      let (later, q, there, held) = rest k key e in
      (later, q, subst (λ n. item n ≡ inr later) (omega arith) there, held)

  -- One ciphertext for each key.
  pub encrypt_each_lem :
      (item : ℕ → P.SerializeError ⊎ List ℕ) (idx : ℕ) (pks : List C.PublicKey) (rng r : P.Rng)
      (cs : List C.Ciphertext)
      → encrypt_each P item idx pks rng ≡ (inr cs, r)
      → (length cs ≡ length pks) × Holds item idx pks cs
  unfolding encrypt_each add_ciphertext
  encrypt_each_lem item idx [] rng r cs made = (ground arith, λ k pk e. absurd (ground arith))
  encrypt_each_lem item idx (pk ∷ pks) rng r cs made = elim (sum_cases (item (idx + 1))) [
    | inl (e, fails) ↦ absurd (ground (arith, made, fails))
    | inr (bytes, done) ↦
        let sealed = P.encrypt_with_rng pk rng bytes in
        let rest = encrypt_each P item (suc idx) pks sealed.1 in
        elim (sum_cases rest.0) [
          | inl (e, fails) ↦ absurd (ground (arith, made, done, fails))
          | inr (ds, all) ↦
              let (lengths, held) =
                encrypt_each_lem item (suc idx) pks sealed.1 rest.1 ds
                  (ap (λ x. (x, rest.1)) all) in
              let whole : sealed.0 ∷ ds ≡ cs = ground (arith, made, done, all) in
              subst (λ xs. (length xs ≡ suc (length pks)) × Holds item idx (pk ∷ pks) xs) whole
                (ap suc lengths, Holds-more item idx pk pks rng bytes ds done held)
        ]
  ]

  -- The own row, and the own value of a row, pass their tests.
  pub check_row-honest :
      (laws : IsLawful) (p : P.BivarPoly) (sk : C.SecretKey) (pks : List C.PublicKey) (i : ℕ)
      (pk : C.PublicKey) (rows : List C.Ciphertext)
      → Holds (λ j. P.serialize_row (P.row p j)) 0 pks rows
      → get_elem? pks i ≡ some pk
      → Opens sk pk
      → check_row P sk rows i (P.commitment_row (P.commitment p) (i + 1))
        ≡ ok (some (P.row p (i + 1)))
  unfolding check_row
  check_row-honest laws p sk pks i pk rows holds known opens =
      let (bytes, q, item, there) = holds i pk known in
      let plain = opens q bytes in
      let written : P.serialize_row (P.row p (i + 1)) ≡ inr bytes =
        subst (λ n. P.serialize_row (P.row p n) ≡ inr bytes) (omega arith) item in
      let read = laws.reads_row (P.row p (i + 1)) bytes written in
      rw (check_row, there, plain, read, laws.row_commits p (i + 1)) refl

  pub check_value-honest :
      (laws : IsLawful) (p : P.BivarPoly) (sk : C.SecretKey) (pks : List C.PublicKey) (i j : ℕ)
      (pk : C.PublicKey) (cs : List C.Ciphertext)
      → Holds (λ k. P.serialize_value (P.evaluate (P.row p (j + 1)) k)) 0 pks cs
      → get_elem? pks i ≡ some pk
      → Opens sk pk
      → check_value P sk cs i (P.commitment p) j ≡ ok (P.evaluate (P.row p (j + 1)) (i + 1))
  unfolding check_value
  check_value-honest laws p sk pks i j pk cs holds known opens =
      let (bytes, q, item, there) = holds i pk known in
      let plain = opens q bytes in
      let val = P.evaluate (P.row p (j + 1)) (i + 1) in
      let written : P.serialize_value val ≡ inr bytes =
        subst (λ n. P.serialize_value (P.evaluate (P.row p (j + 1)) n) ≡ inr bytes) (omega arith)
          item in
      let read = laws.reads_value val bytes written in
      rw (check_value, there, plain, read, laws.value_commits p (i + 1) (j + 1)) refl
