-- ===== src/SyncKeyGen/Values.antt =====
-- src/sync_key_gen.rs: the values that an instance stores.
use hbbft.Prelude.{
  ℕ, zero, suc, ◌+◌, ◌<◌, ◌≡◌, refl, subst, inl, inr, true, Option, none, some, List, [], ◌∷◌,
  length, get_elem?, Bool-cases, Option-cases, arith, Outcome, ok, err, panicked, exhausted,
}
use hbbft.Prelude.BTreeMap.{Entries, Entries-insert}
use hbbft.Prelude.BTreeSet as Set
use hbbft.Prelude.BTreeSet.{contains}
use hbbft.Crypto.{Crypto}
use hbbft.SyncKeyGen.Instance.{Polynomials, ProposalState, AckFault}
use hbbft.SyncKeyGen.Handlers.{check_row, check_value, store_value, ack_part}

-- A value or an error, and no panic.
abbrev pub IsHandled : {E A : Type 0} → Outcome E A → Type 0
IsHandled (ok a) = Unit {0}
IsHandled (err e) = Unit {0}
IsHandled panicked = ⊥
IsHandled exhausted = ⊥

get_elem?-below :
    {A : Type 0} (xs : List A) (i : ℕ) → i < length xs → (x : A) × (get_elem? xs i ≡ some x)
get_elem?-below [] i below = absurd (ground arith)
get_elem?-below (x ∷ xs) zero below = (x, refl)
get_elem?-below (x ∷ xs) (suc i) below = get_elem?-below xs i (omega arith)

module _ {C : Crypto} (P : Polynomials C) where
  -- A value of a sender, at a number, lies on a commitment, at the own index.
  abbrev pub Fits : P.BivarCommitment → ℕ → ℕ → P.Fr → Type 0
  Fits commit i k v = P.g1_eq (P.commitment_at commit (i + 1) k) (P.one_mul v) ≡ true

  -- The values of a part lie on its commitment, at the own index.
  abbrev pub Matches : Option ℕ → ℕ → ProposalState C P → Type 0
  Matches our_idx proposer part =
      (i : ℕ) → our_idx ≡ some i → Entries (Fits part.commit i) part.values

  pub check_row-IsHandled :
      (k : C.SecretKey) (rows : List C.Ciphertext) (i : ℕ) (c : P.Commitment)
      → i < length rows
      → IsHandled (check_row P k rows i c)
  unfolding check_row
  check_row-IsHandled k rows i c below =
      let (item, there) = get_elem?-below rows i below in
      elim (Option-cases (P.decrypt k item)) [
        | inl fails ↦ rw (check_row, there, fails) tt
        | inr (bytes, plain) ↦ elim (Option-cases (P.deserialize_row bytes)) [
          | inl fails ↦ rw (check_row, there, plain, fails) tt
          | inr (row, read) ↦ elim (Bool-cases (P.commitment_eq (P.poly_commitment row) c)) [
            | inl fits ↦ rw (check_row, there, plain, read, fits) tt
            | inr differs ↦ rw (check_row, there, plain, read, differs) tt
          ]
        ]
      ]

  check_value_cases :
      (k : C.SecretKey) (cs : List C.Ciphertext) (i : ℕ) (c : P.BivarCommitment) (idx : ℕ)
      → i < length cs
      → IsHandled (check_value P k cs i c idx)
        × ((v : P.Fr) → check_value P k cs i c idx ≡ ok v → Fits c i (idx + 1) v)
  unfolding check_value
  check_value_cases k cs i c idx below =
      let (item, there) = get_elem?-below cs i below in
      elim (Option-cases (P.decrypt k item)) [
        | inl fails ↦ rw (check_value, there, fails) (tt, λ v e. absurd (ground arith))
        | inr (bytes, plain) ↦ elim (Option-cases (P.deserialize_value bytes)) [
          | inl fails ↦ rw (check_value, there, plain, fails) (tt, λ v e. absurd (ground arith))
          | inr (val, read) ↦
              elim (Bool-cases (P.g1_eq (P.commitment_at c (i + 1) (idx + 1)) (P.one_mul val))) [
                | inl fits ↦
                    rw (check_value, there, plain, read, fits)
                      (
                        tt,
                        λ v e.
                            let same : val ≡ v = ground arith in
                            subst (Fits c i (idx + 1)) same fits,
                      )
                | inr differs ↦
                    rw (check_value, there, plain, read, differs) (tt, λ v e. absurd (ground arith))
              ]
        ]
      ]

  -- A value that fits is stored, and no other.
  store_value_cases :
      (i idx : ℕ) (r : Outcome AckFault P.Fr) (part : ProposalState C P)
      → IsHandled r
      → ((v : P.Fr) → r ≡ ok v → Fits part.commit i (idx + 1) v)
      → Entries (Fits part.commit i) part.values
      → IsHandled (store_value idx r part).0
        × Entries (Fits (store_value idx r part).1.commit i) (store_value idx r part).1.values
  unfolding store_value
  store_value_cases i idx (ok v) part h fits old =
      (tt, Entries-insert (Fits part.commit i) (idx + 1) v part.values old (fits v refl))
  store_value_cases i idx (err fault) part h fits old = (tt, old)
  store_value_cases i idx panicked part h fits old = absurd h
  store_value_cases i idx exhausted part h fits old = absurd h

  pub ack_part_cases :
      (k : C.SecretKey) (our_idx : Option ℕ) (j idx : ℕ) (cs : List C.Ciphertext)
      (part : ProposalState C P)
      → ((i : ℕ) → our_idx ≡ some i → i < length cs)
      → Matches our_idx j part
      → IsHandled (ack_part k our_idx idx cs part).0
        × Matches our_idx j (ack_part k our_idx idx cs part).1
  unfolding ack_part
  ack_part_cases k none j idx cs part below h = elim (Bool-cases (contains part.acks idx)) [
    | inl old ↦ rw (ack_part, old) (tt, h)
    | inr first ↦ rw (ack_part, first) (tt, λ i e. absurd (ground arith))
  ]
  ack_part_cases k (some n) j idx cs part below h = elim (Bool-cases (contains part.acks idx)) [
    | inl old ↦ rw (ack_part, old) (tt, h)
    | inr first ↦
        let acked : ProposalState C P = record part { acks = Set.insert idx part.acks } in
        let checked = check_value_cases k cs n part.commit idx (below n refl) in
        let stored =
          store_value_cases n idx (check_value P k cs n part.commit idx) acked checked.0 checked.1
            (h n refl) in
        let after : ProposalState C P =
          (store_value idx (check_value P k cs n part.commit idx) acked).1 in
        rw (ack_part, first)
          (
            stored.0,
            λ i e.
                let same : n ≡ i = ground arith in
                subst (λ m. Entries (Fits after.commit m) after.values) same stored.1,
          )
  ]
