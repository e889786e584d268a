-- ===== src/SyncKeyGen/Handled.antt =====
-- src/sync_key_gen.rs: the instance of a node through any messages.
use hbbft.Prelude.{
  ℕ, suc, ◌+◌, ◌<◌, ◌≡◌, sym, ◌∙◌, subst, inl, inr, true, Option, none, some, List, [], ◌∷◌, length,
  ◌==◌, Bool-cases, Option-cases, arith, Outcome, ok, err, panicked, exhausted, ==_iff, sum_cases,
  length-map,
}
use hbbft.Prelude.BTreeMap.{
  BTreeMap, get, insert, keys, values, Entries, Entries-get, Entries-insert, Entries-set,
}
use hbbft.FaultLog.{NodeId}
use hbbft.Crypto.{Crypto}
use hbbft.SyncKeyGen.Instance.{
  Polynomials, Part, Ack, ProposalState, AckFault, PartFault, SyncKeyGen, position, node_index,
}
use hbbft.SyncKeyGen.Handlers.{
  new, encrypt_each, handle_part_or_fault, ack_row, part_outcome, handle_part, ack_part,
  handle_ack_or_fault, ack_outcome, handle_ack,
}
use hbbft.SyncKeyGen.Public.{Event, part_from, ack_from, handle, handle_all}
use hbbft.SyncKeyGen.Values.{IsHandled, Matches, check_row-IsHandled, ack_part_cases}

position-below :
    (k : ℕ) (ids : List NodeId) (id : NodeId) (i : ℕ)
    → position k ids id ≡ some i
    → i < k + length ids
unfolding position
position-below k [] id i e = absurd (ground arith)
position-below k (j ∷ ids) id i e = elim (Bool-cases (j == id)) [
  | inl same ↦ ground arith
  | inr other ↦ let below = position-below (suc k) ids id i (ground arith) in omega (arith, below)
]

module _ {C : Crypto} (P : Polynomials C) where
  abbrev pub IsWellFormed : SyncKeyGen C P → Type 0
  IsWellFormed s =
      ((i : ℕ) → s.our_idx ≡ some i → i < length s.pub_keys) × Entries (Matches P s.our_idx) s.parts

  handle_ack_or_fault_cases :
      (idx : ℕ) (ack : Ack C) (s : SyncKeyGen C P)
      → IsWellFormed s
      → IsHandled (handle_ack_or_fault idx ack s).0 × IsWellFormed (handle_ack_or_fault idx ack s).1
  unfolding handle_ack_or_fault
  handle_ack_or_fault_cases idx ack s h =
      elim (Bool-cases (length ack.values == length s.pub_keys)) [
        | inr short ↦ rw (handle_ack_or_fault, short) (tt, h)
        | inl full ↦ elim (Option-cases (get s.parts ack.proposer_idx)) [
          | inl missing ↦ rw (handle_ack_or_fault, full, missing) (tt, h)
          | inr (part, found) ↦
              let j = ack.proposer_idx in
              let all_there = (==_iff (length ack.values) (length s.pub_keys)).0 full in
              let (handled, matches) =
                ack_part_cases P s.sec_key s.our_idx j idx ack.values part
                  (λ i e. subst (λ n. i < n) (sym all_there) (h.0 i e))
                  (Entries-get (Matches P s.our_idx) s.parts j part h.1 found) in
              rw (handle_ack_or_fault, full, found)
                (
                  handled,
                  (
                    h.0,
                    Entries-set (Matches P s.our_idx) j
                        (ack_part s.sec_key s.our_idx idx ack.values part).1 s.parts h.1 matches,
                  ),
                )
        ]
      ]

  -- The first part of a sender, with a row for every node.
  first_part_cases :
      (idx : ℕ) (part : Part C P) (s : SyncKeyGen C P)
      → IsWellFormed s
      → (length part.rows == length s.pub_keys) ≡ true
      → get s.parts idx ≡ none
      → IsHandled (handle_part_or_fault idx part s).0
        × IsWellFormed (handle_part_or_fault idx part s).1
  unfolding handle_part_or_fault
  first_part_cases idx part s h full first =
      let fresh : ProposalState C P = record { commit = part.commit; values = []; acks = [] } in
      let t : SyncKeyGen C P = record s { parts = insert idx fresh s.parts } in
      let all_there = (==_iff (length part.rows) (length s.pub_keys)).0 full in
      let kept : IsWellFormed t =
        (h.0, Entries-insert (Matches P s.our_idx) idx fresh s.parts h.1 (λ i e. tt)) in
      let after : (handle_part_or_fault idx part s).1 ≡ t = ground (arith, full, first) in
      let handled : IsHandled (handle_part_or_fault idx part s).0 = elim (Option-cases s.our_idx) [
        | inl observer ↦ rw (handle_part_or_fault, full, first, observer) tt
        | inr (i, ours) ↦
            rw (handle_part_or_fault, full, first, ours)
              (check_row-IsHandled P s.sec_key part.rows i (P.commitment_row part.commit (i + 1))
                (subst (λ n. i < n) (sym all_there) (h.0 i ours)))
      ] in
      (handled, subst IsWellFormed (sym after) kept)

  handle_part_or_fault_cases :
      (idx : ℕ) (part : Part C P) (s : SyncKeyGen C P)
      → IsWellFormed s
      → IsHandled (handle_part_or_fault idx part s).0
        × IsWellFormed (handle_part_or_fault idx part s).1
  unfolding handle_part_or_fault
  handle_part_or_fault_cases idx part s h =
      elim (Bool-cases (length part.rows == length s.pub_keys)) [
        | inr short ↦ rw (handle_part_or_fault, short) (tt, h)
        | inl full ↦ elim (Option-cases (get s.parts idx)) [
          | inl first ↦ first_part_cases idx part s h full first
          | inr (state, found) ↦ elim (Bool-cases (P.bivar_eq state.commit part.commit)) [
            | inl again ↦ rw (handle_part_or_fault, full, found, again) (tt, h)
            | inr other ↦ rw (handle_part_or_fault, full, found, other) (tt, h)
          ]
        ]
      ]

  part_outcome-IsHandled :
      (idx : ℕ) (pks : BTreeMap C.PublicKey) (r : Outcome PartFault (Option P.Poly)) (rng : P.Rng)
      → IsHandled r
      → IsHandled (part_outcome {C = C} {P = P} idx pks r rng).0
  unfolding part_outcome ack_row
  part_outcome-IsHandled idx pks (ok none) rng h = tt
  part_outcome-IsHandled idx pks (ok (some row)) rng h =
      elim (sum_cases
        (encrypt_each P (λ i. P.serialize_value (P.evaluate row i)) 0 (values pks) rng).0) [
          | inl (e, fails) ↦ rw (part_outcome, ack_row, fails) tt
          | inr (cs, all) ↦ rw (part_outcome, ack_row, all) tt
        ]
  part_outcome-IsHandled idx pks (err fault) rng h = tt
  part_outcome-IsHandled idx pks panicked rng h = absurd h
  part_outcome-IsHandled idx pks exhausted rng h = absurd h

  ack_outcome-IsHandled :
      (r : Outcome AckFault (Unit {0})) → IsHandled r → IsHandled (ack_outcome {P = P} r)
  ack_outcome-IsHandled (ok done) h = tt
  ack_outcome-IsHandled (err fault) h = tt
  ack_outcome-IsHandled panicked h = absurd h
  ack_outcome-IsHandled exhausted h = absurd h

  handle_part_cases :
      (id : NodeId) (part : Part C P) (rng : P.Rng) (s : SyncKeyGen C P)
      → IsWellFormed s
      → IsHandled (handle_part id part rng s).0.0 × IsWellFormed (handle_part id part rng s).1
  unfolding handle_part
  handle_part_cases id part rng s h = elim (Option-cases (node_index s id)) [
    | inl unknown ↦ rw (handle_part, unknown) (tt, h)
    | inr (idx, known) ↦
        let (handled, kept) = handle_part_or_fault_cases idx part s h in
        let t = (handle_part_or_fault idx part s).1 in
        rw (handle_part, known)
          (
            part_outcome-IsHandled idx t.pub_keys (handle_part_or_fault idx part s).0 rng handled,
            kept,
          )
  ]

  handle_ack_cases :
      (id : NodeId) (ack : Ack C) (s : SyncKeyGen C P)
      → IsWellFormed s
      → IsHandled (handle_ack id ack s).0 × IsWellFormed (handle_ack id ack s).1
  unfolding handle_ack
  handle_ack_cases id ack s h = elim (Option-cases (node_index s id)) [
    | inl unknown ↦ rw (handle_ack, unknown) (tt, h)
    | inr (idx, known) ↦
        let (handled, kept) = handle_ack_or_fault_cases idx ack s h in
        rw (handle_ack, known)
          (ack_outcome-IsHandled (handle_ack_or_fault idx ack s).0 handled, kept)
  ]

  handle_all-IsWellFormed :
      (es : List (Event C P)) (rng : P.Rng) (s : SyncKeyGen C P)
      → IsWellFormed s
      → IsWellFormed (handle_all es rng s).1
  unfolding handle_all handle
  handle_all-IsWellFormed [] rng s h = h
  handle_all-IsWellFormed (part_from id part ∷ es) rng s h =
      let (r, t) = handle_part id part rng s in
      handle_all-IsWellFormed es r.1 t (handle_part_cases id part rng s h).1
  handle_all-IsWellFormed (ack_from id ack ∷ es) rng s h =
      handle_all-IsWellFormed es rng (handle_ack id ack s).1 (handle_ack_cases id ack s h).1

  -- An instance from `new` has no parts, and its index is one of the keys'.
  new_lem :
      (id : NodeId) (k : C.SecretKey) (keys_of : BTreeMap C.PublicKey) (n : ℕ) (rng r : P.Rng)
      (s : SyncKeyGen C P) (part : Option (Part C P))
      → new P id k keys_of n rng ≡ (inr (s, part), r)
      → (s.parts ≡ []) × (s.our_idx ≡ position 0 (keys s.pub_keys) id)
  unfolding new
  new_lem id k keys_of n rng r s part made = (ground arith, ground arith)

  -- An instance from `new`, after any messages, valid or not, from anyone: the values that it holds
  -- lie on the commitments of their parts at its own index, and it panics on no part and no
  -- acknowledgement that it is given next.
  pub new-Handles :
      (id : NodeId) (k : C.SecretKey) (keys_of : BTreeMap C.PublicKey) (n : ℕ) (rng r : P.Rng)
      (s : SyncKeyGen C P) (part : Option (Part C P))
      → new P id k keys_of n rng ≡ (inr (s, part), r)
      → (es : List (Event C P)) (q : P.Rng)
      → Entries (Matches P (handle_all es q s).1.our_idx) (handle_all es q s).1.parts
        × ((sender : NodeId) (p : Part C P) (u : P.Rng)
            → IsHandled (handle_part sender p u (handle_all es q s).1).0.0)
        × ((sender : NodeId) (ack : Ack C)
            → IsHandled (handle_ack sender ack (handle_all es q s).1).0)
  new-Handles id k keys_of n rng r s part made es q =
      let (empty, ours) = new_lem id k keys_of n rng r s part made in
      let start : IsWellFormed s = (
        λ i e.
            let below = position-below 0 (keys s.pub_keys) id i (sym ours ∙ e) in
            omega (arith, below, length-map (λ x. x.0) s.pub_keys),
        subst (λ m. Entries (Matches P s.our_idx) m) (sym empty) tt,
      ) in
      let kept = handle_all-IsWellFormed es q s start in
      let t = (handle_all es q s).1 in
      (
        kept.1,
        λ sender p u. (handle_part_cases sender p u t kept).0,
        λ sender ack. (handle_ack_cases sender ack t kept).0,
      )
