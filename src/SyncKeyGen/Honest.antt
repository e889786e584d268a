-- ===== src/SyncKeyGen/Honest.antt =====
-- src/sync_key_gen.rs: parts and acknowledgements of correct nodes are valid for correct nodes.
use hbbft.Prelude.{
  ℕ, ◌+◌, ◌≡◌, refl, sym, ap, ◌∙◌, subst, inl, inr, true, false, none, some, [], length, get_elem?,
  ◌==◌, ==_iff, sum_cases, length-map, Option-cases, arith, ok,
}
use hbbft.Prelude.BTreeMap.{BTreeMap, get, insert, set, keys, values}
use hbbft.Prelude.BTreeSet as Set
use hbbft.Prelude.BTreeSet.{contains}
use hbbft.FaultLog.{NodeId}
use hbbft.Crypto.{Crypto}
use hbbft.SyncKeyGen.Instance.{
  Polynomials, Part, Ack, ProposalState, SyncKeyGen, position, node_index, valid, valid_ack,
}
use hbbft.SyncKeyGen.Handlers.{
  encrypt_each, new, check_row, handle_part_or_fault, check_value, store_value, ack_row, ack_part,
  handle_ack_or_fault, handle_part, part_outcome, handle_ack,
}
use hbbft.SyncKeyGen.Ciphertexts.{
  IsLawful, Opens, Holds, encrypt_each_lem, check_row-honest, check_value-honest,
}

module _ {C : Crypto} (P : Polynomials C) where
  -- The part from `new` has the commitment of a polynomial, and the rows of it.
  new-part :
      (id : NodeId) (sk : C.SecretKey) (ks : BTreeMap C.PublicKey) (n : ℕ) (rng r : P.Rng)
      (g : SyncKeyGen C P) (part : Part C P)
      → new P id sk ks n rng ≡ (inr (g, some part), r)
      → (p : P.BivarPoly) × (q : P.Rng) × (part.commit ≡ P.commitment p)
        × (encrypt_each P (λ i. P.serialize_row (P.row p i)) 0 (values ks) q ≡ (inr part.rows, r))
  unfolding new
  new-part id sk ks n rng r g part made =
      let p = (P.random n rng).0 in
      let q = (P.random n rng).1 in
      let rows = encrypt_each P (λ i. P.serialize_row (P.row p i)) 0 (values ks) q in
      elim (Option-cases (position 0 (keys ks) id)) [
        | inl observer ↦ absurd (ground (arith, made, observer))
        | inr (i, ours) ↦ elim (sum_cases rows.0) [
          | inl (e, fails) ↦ absurd (ground (arith, made, ours, fails))
          | inr (cs, all) ↦
              let same : cs ≡ part.rows = ground (arith, made, ours, all) in
              let after : rows.1 ≡ r = ground (arith, made, ours, all) in
              let whole : rows.0 ≡ inr part.rows = all ∙ ap (λ x. inr x) same in
              (
                p,
                q,
                ground (arith, made, ours, all),
                ap (λ x. (x, rows.1)) whole ∙ ap (λ x. (inr part.rows, x)) after,
              )
        ]
      ]

  -- A node of the network: its index, and its secret key for the public key there.
  pub record IsMember (s : SyncKeyGen C P) (i : ℕ) (pk : C.PublicKey) : Type 0 where
    pub at_index : s.our_idx ≡ some i
    pub has_key : get_elem? (values s.pub_keys) i ≡ some pk
    pub opens : Opens P s.sec_key pk

  -- The part of a correct node, from `new`, is valid for a node of the network that had none from
  -- the sender: it records the part and acknowledges its own row of the polynomial in the part. The
  -- laws of the crates are a hypothesis.
  pub handle_part-honest :
      (laws : IsLawful P) (id : NodeId) (sk : C.SecretKey) (n : ℕ) (rng r : P.Rng)
      (g s : SyncKeyGen C P) (part : Part C P)
      → new P id sk s.pub_keys n rng ≡ (inr (g, some part), r)
      → (i : ℕ) (pk : C.PublicKey) → IsMember s i pk
      → (sender : NodeId) (idx : ℕ) → node_index s sender ≡ some idx
      → get s.parts idx ≡ none
      → (u : P.Rng)
      → (p : P.BivarPoly) × (part.commit ≡ P.commitment p)
        × (handle_part sender part u s ≡ (
          ack_row idx s.pub_keys (P.row p (i + 1)) u,
          record s {
            parts = insert idx (record { commit = part.commit; values = []; acks = [] }) s.parts;
          },
        ))
  unfolding handle_part handle_part_or_fault part_outcome
  handle_part-honest laws id sk n rng r g s part made i pk member sender idx known first u =
      let (p, q, commits, rows) = new-part id sk s.pub_keys n rng r g part made in
      let (lengths, holds) =
        encrypt_each_lem P (λ j. P.serialize_row (P.row p j)) 0 (values s.pub_keys) q r part.rows
          rows in
      let full : (length part.rows == length s.pub_keys) ≡ true =
        (==_iff (length part.rows) (length s.pub_keys)).1
          (lengths ∙ length-map (λ e. e.1) s.pub_keys) in
      let checked =
        check_row-honest P laws p s.sec_key (values s.pub_keys) i pk part.rows holds member.has_key
          member.opens in
      let mine : check_row P s.sec_key part.rows i (P.commitment_row part.commit (i + 1))
          ≡ ok (some (P.row p (i + 1))) =
        subst
          (λ c.
            check_row P s.sec_key part.rows i (P.commitment_row c (i + 1))
            ≡ ok (some (P.row p (i + 1))))
          (sym commits) checked in
      let fresh : ProposalState C P = record { commit = part.commit; values = []; acks = [] } in
      let stored : SyncKeyGen C P = record s { parts = insert idx fresh s.parts } in
      let ours = member.at_index in
      let taken : handle_part_or_fault idx part s ≡ (ok (some (P.row p (i + 1))), stored) =
        ground (arith, full, first, ours, mine) in
      (
        p,
        commits,
        rw (handle_part, known) (ap (λ x. (part_outcome idx x.1.pub_keys x.0 u, x.1)) taken),
      )

  -- The values in an acknowledgement of a row, one for each key.
  ack_row_lem :
      (proposer : ℕ) (ks : BTreeMap C.PublicKey) (row : P.Poly) (u r : P.Rng) (ack : Ack C)
      → ack_row {P = P} proposer ks row u ≡ (ok (valid (some ack)), r)
      → (ack.proposer_idx ≡ proposer)
        × (length ack.values ≡ length ks)
        × Holds P (λ k. P.serialize_value (P.evaluate row k)) 0 (values ks) ack.values
  unfolding ack_row
  ack_row_lem proposer ks row u r ack made =
      let item = λ (k : ℕ). P.serialize_value (P.evaluate row k) in
      let sealed = encrypt_each P item 0 (values ks) u in
      elim (sum_cases sealed.0) [
        | inl (e, fails) ↦ absurd (ground (arith, made, fails))
        | inr (cs, all) ↦
            let same : cs ≡ ack.values = ground (arith, made, all) in
            let (lengths, holds) =
              encrypt_each_lem P item 0 (values ks) u sealed.1 cs (ap (λ x. (x, sealed.1)) all) in
            (
              ground (arith, made, all),
              ap length (sym same) ∙ lengths ∙ length-map (λ e. e.1) ks,
              subst (Holds P item 0 (values ks)) same holds,
            )
      ]

  -- An acknowledgement that a correct node made of its row is valid for a node of the network that
  -- has the part and none from the sender: it stores its value of that row. The
  -- laws of the crates are a hypothesis.
  pub handle_ack-honest :
      (laws : IsLawful P) (p : P.BivarPoly) (t : SyncKeyGen C P) (proposer j : ℕ) (u r : P.Rng)
      (ack : Ack C)
      → ack_row {P = P} proposer t.pub_keys (P.row p (j + 1)) u ≡ (ok (valid (some ack)), r)
      → (i : ℕ) (pk : C.PublicKey) → IsMember t i pk
      → (sender : NodeId) → node_index t sender ≡ some j
      → (part : ProposalState C P) → get t.parts proposer ≡ some part
      → part.commit ≡ P.commitment p
      → contains part.acks j ≡ false
      → handle_ack sender ack t ≡ (
        ok valid_ack,
        record t {
          parts =
              set proposer
                (record part {
                  values = insert (j + 1) (P.evaluate (P.row p (j + 1)) (i + 1)) part.values;
                  acks = Set.insert j part.acks;
                })
                t.parts;
        },
      )
  unfolding handle_ack handle_ack_or_fault ack_part store_value ack_row
  handle_ack-honest laws p t proposer j u r ack made i pk member sender known part found commits
        first =
      let (mine, lengths, holds) = ack_row_lem proposer t.pub_keys (P.row p (j + 1)) u r ack made in
      let full : (length ack.values == length t.pub_keys) ≡ true =
        (==_iff (length ack.values) (length t.pub_keys)).1 lengths in
      let val = P.evaluate (P.row p (j + 1)) (i + 1) in
      let checked : check_value P t.sec_key ack.values i part.commit j ≡ ok val =
        subst (λ c. check_value P t.sec_key ack.values i c j ≡ ok val) (sym commits)
          (check_value-honest P laws p t.sec_key (values t.pub_keys) i j pk ack.values holds
            member.has_key member.opens) in
      let ours = member.at_index in
      let there : get t.parts ack.proposer_idx ≡ some part = ap (get t.parts) mine ∙ found in
      let changed : ProposalState C P = record part {
        values = insert (j + 1) val part.values;
        acks = Set.insert j part.acks;
      } in
      let stored : ack_part t.sec_key t.our_idx j ack.values part ≡ (ok tt, changed) =
        rw (ack_part, first, ours, checked) refl in
      rw (handle_ack, known, handle_ack_or_fault, full, there, stored, mine) refl
