-- ===== src/SyncKeyGen/Public.antt =====
-- src/sync_key_gen.rs: what all nodes know alike. The public view of an instance leaves out its own
-- keys and the values that it holds; a machine on public views alone says what the parts and
-- acknowledgements do to it.
use hbbft.Prelude.{
  ℕ, ◌*◌, ◌≡◌, refl, sym, ap, ◌∙◌, inl, inr, Bool, true, not, Option, none, some, List, [], ◌∷◌,
  length, count, keep, if◌then◌else◌, ltb, ◌==◌, Bool-cases, Option-cases, arith, Outcome, ok, err,
  panicked, exhausted,
}
use hbbft.Prelude.BTreeMap.{
  BTreeMap, get, insert, set, keys, values, map_values, get-map_values, map_values-insert,
  map_values-set,
}
use hbbft.Prelude.BTreeSet as Set
use hbbft.Prelude.BTreeSet.{BTreeSet, contains}
use hbbft.FaultLog.{NodeId}
use hbbft.Crypto.{Crypto}
use hbbft.SyncKeyGen.Instance.{
  Polynomials, Part, Ack, ProposalState, AckFault, SyncKeyGen, position, node_index, is_complete,
  count_complete, is_ready, sum_commitments, complete_parts, generate,
}
use hbbft.SyncKeyGen.Handlers.{
  handle_part_or_fault, handle_part, store_value, ack_part, check_value, handle_ack_or_fault,
  handle_ack,
}

pub record PublicPart (C : Crypto) (P : Polynomials C) : Type 0 where
  pub commit : P.BivarCommitment
  pub acks : BTreeSet

pub record PublicState (C : Crypto) (P : Polynomials C) : Type 0 where
  pub pub_keys : BTreeMap C.PublicKey
  pub parts : BTreeMap (PublicPart C P)
  pub threshold : ℕ

-- A message that a node is given, with its sender.
pub data Event (C : Crypto) (P : Polynomials C) : Type 0 where
  part_from : NodeId → Part C P → Event C P
  ack_from : NodeId → Ack C → Event C P

insert-old : (x : ℕ) (xs : BTreeSet) → contains xs x ≡ true → Set.insert x xs ≡ xs
unfolding Set.insert
insert-old x xs old = rw old refl

module _ {C : Crypto} {P : Polynomials C} where
  unfoldable pub public_part : ProposalState C P → PublicPart C P
  public_part p = record { commit = p.commit; acks = p.acks }

  unfoldable pub public_state : SyncKeyGen C P → PublicState C P
  public_state s = record {
    pub_keys = s.pub_keys;
    parts = map_values public_part s.parts;
    threshold = s.threshold;
  }

  -- The first part of a sender is recorded, if it has a row for every node.
  unfoldable pub see_part : ℕ → Part C P → PublicState C P → PublicState C P
  see_part idx part w =
      if not (length part.rows == length w.pub_keys) then w else elim (get w.parts idx) [
        | some seen ↦ w
        | none ↦ record w {
          parts = insert idx (record { commit = part.commit; acks = [] }) w.parts;
        }
      ]

  -- The sender of an acknowledgement is recorded, if it has a value for every node.
  unfoldable pub see_ack : ℕ → Ack C → PublicState C P → PublicState C P
  see_ack idx ack w =
      if not (length ack.values == length w.pub_keys)
      then w
      else elim (get w.parts ack.proposer_idx) [
        | none ↦ w
        | some p ↦ record w {
          parts = set ack.proposer_idx (record p { acks = Set.insert idx p.acks }) w.parts;
        }
      ]

  unfoldable pub see : Event C P → PublicState C P → PublicState C P
  see (part_from id part) w = elim (position 0 (keys w.pub_keys) id) [
    | none ↦ w
    | some idx ↦ see_part idx part w
  ]
  see (ack_from id ack) w = elim (position 0 (keys w.pub_keys) id) [
    | none ↦ w
    | some idx ↦ see_ack idx ack w
  ]

  unfoldable pub see_all : List (Event C P) → PublicState C P → PublicState C P
  see_all [] w = w
  see_all (e ∷ es) w = see_all es (see e w)

  -- An instance that handles the messages in turn, with its random source.
  unfoldable pub handle : Event C P → P.Rng → SyncKeyGen C P → P.Rng × SyncKeyGen C P
  handle (part_from id part) rng s = let (r, t) = handle_part id part rng s in (r.1, t)
  handle (ack_from id ack) rng s = (rng, (handle_ack id ack s).1)

  unfoldable pub handle_all : List (Event C P) → P.Rng → SyncKeyGen C P → P.Rng × SyncKeyGen C P
  handle_all [] rng s = (rng, s)
  handle_all (e ∷ es) rng s = let (rng_after, t) = handle e rng s in handle_all es rng_after t

  public-part :
      (idx : ℕ) (part : Part C P) (s : SyncKeyGen C P)
      → public_state (handle_part_or_fault idx part s).1 ≡ see_part idx part (public_state s)
  unfolding public_state see_part handle_part_or_fault public_part
  public-part idx part s =
      let seen = get-map_values public_part s.parts idx in
      let fresh : ProposalState C P = record { commit = part.commit; values = []; acks = [] } in
      let stored = map_values-insert public_part idx fresh s.parts in ground (arith, seen, stored)

  store_value-public :
      (idx : ℕ) (r : Outcome AckFault P.Fr) (p : ProposalState C P)
      → public_part (store_value idx r p).1 ≡ public_part p
  unfolding store_value public_part
  store_value-public idx (ok val) p = refl
  store_value-public idx (err fault) p = refl
  store_value-public idx panicked p = refl
  store_value-public idx exhausted p = refl

  ack_part-public :
      (k : C.SecretKey) (our_idx : Option ℕ) (idx : ℕ) (cs : List C.Ciphertext)
      (p : ProposalState C P)
      → public_part (ack_part k our_idx idx cs p).1
        ≡ record (public_part p) { acks = Set.insert idx p.acks }
  unfolding public_part ack_part
  ack_part-public k none idx cs p = elim (Bool-cases (contains p.acks idx)) [
    | inl old ↦ rw (old, insert-old idx p.acks old) refl
    | inr new ↦ rw new refl
  ]
  ack_part-public k (some i) idx cs p =
      let acked : ProposalState C P = record p { acks = Set.insert idx p.acks } in
      elim (Bool-cases (contains p.acks idx)) [
        | inl old ↦ rw (old, insert-old idx p.acks old) refl
        | inr new ↦ rw new (store_value-public idx (check_value P k cs i p.commit idx) acked)
      ]

  public-ack :
      (idx : ℕ) (ack : Ack C) (s : SyncKeyGen C P)
      → public_state (handle_ack_or_fault idx ack s).1 ≡ see_ack idx ack (public_state s)
  unfolding public_state see_ack handle_ack_or_fault public_part
  public-ack idx ack s =
      let seen = get-map_values public_part s.parts ack.proposer_idx in
      elim (Option-cases (get s.parts ack.proposer_idx)) [
        | inl missing ↦ ground (arith, seen, missing)
        | inr (p, found) ↦
            let changed = (ack_part s.sec_key s.our_idx idx ack.values p).1 in
            let stored = map_values-set public_part ack.proposer_idx changed s.parts in
            let same = ack_part-public s.sec_key s.our_idx idx ack.values p in
            let looked : get (map_values public_part s.parts) ack.proposer_idx
                ≡ some (public_part p) =
              seen ∙ rw found refl in
            elim (Bool-cases (length ack.values == length s.pub_keys)) [
              | inl full ↦ rw (full, found, looked, stored, same) refl
              | inr short ↦ rw short refl
            ]
      ]

  public-handle :
      (e : Event C P) (rng : P.Rng) (s : SyncKeyGen C P)
      → public_state (handle e rng s).1 ≡ see e (public_state s)
  unfolding public_state see handle handle_part handle_ack node_index
  public-handle (part_from id part) rng s = elim (Option-cases (position 0 (keys s.pub_keys) id)) [
    | inl unknown ↦
        let kept : (handle (part_from id part) rng s).1 ≡ s =
          rw (unknown, handle, handle_part, handle_ack, node_index) refl in
        ap public_state kept ∙ rw (unknown, see) refl
    | inr (idx, known) ↦
        let done : (handle (part_from id part) rng s).1 ≡ (handle_part_or_fault idx part s).1 =
          rw (known, handle, handle_part, handle_ack, node_index) refl in
        ap public_state done ∙ public-part idx part s ∙ rw (known, see) refl
  ]
  public-handle (ack_from id ack) rng s = elim (Option-cases (position 0 (keys s.pub_keys) id)) [
    | inl unknown ↦
        let kept : (handle (ack_from id ack) rng s).1 ≡ s =
          rw (unknown, handle, handle_part, handle_ack, node_index) refl in
        ap public_state kept ∙ rw (unknown, see) refl
    | inr (idx, known) ↦
        let done : (handle (ack_from id ack) rng s).1 ≡ (handle_ack_or_fault idx ack s).1 =
          rw (known, handle, handle_part, handle_ack, node_index) refl in
        ap public_state done ∙ public-ack idx ack s ∙ rw (known, see) refl
  ]

  -- Whatever parts and acknowledgements an instance is given, valid or not, in whatever order: its
  -- public view changes as that of the machine on public views, which decrypts nothing.
  pub public-handle_all :
      (es : List (Event C P)) (rng : P.Rng) (s : SyncKeyGen C P)
      → public_state (handle_all es rng s).1 ≡ see_all es (public_state s)
  unfolding handle_all see_all
  public-handle_all [] rng s = refl
  public-handle_all (e ∷ es) rng s =
      public-handle_all es (handle e rng s).0 (handle e rng s).1
      ∙ ap (see_all es) (public-handle e rng s)

  -- What a public view says of the key generation.
  unfoldable pub is_public_complete : ℕ → PublicPart C P → Bool
  is_public_complete threshold p = ltb (2 * threshold) (length p.acks)

  unfoldable pub public_count : PublicState C P → ℕ
  public_count w = count (is_public_complete w.threshold) (values w.parts)

  unfoldable pub sum_public : List (PublicPart C P) → P.Commitment → P.Commitment
  sum_public [] c = c
  sum_public (p ∷ ps) c = sum_public ps (P.add_commitment c (P.commitment_row p.commit 0))

  unfoldable pub public_key_set : PublicState C P → C.PublicKeySet
  public_key_set w =
      P.key_set
        (sum_public (keep (is_public_complete w.threshold) (values w.parts)) P.zero_commitment)

  count-public :
      (n : ℕ) (m : BTreeMap (ProposalState C P))
      → count (is_complete n) (values m)
        ≡ count (is_public_complete n) (values (map_values public_part m))
  unfolding map_values is_public_complete is_complete public_part
  count-public n [] = refl
  count-public n ((k, p) ∷ m) = ground (arith, count-public n m)

  sum-public :
      (n : ℕ) (m : BTreeMap (ProposalState C P)) (c : P.Commitment)
      → sum_commitments (keep (is_complete n) (values m)) c
        ≡ sum_public (keep (is_public_complete n) (values (map_values public_part m))) c
  unfolding map_values is_public_complete is_complete public_part sum_commitments sum_public
  sum-public n [] c = refl
  sum-public n ((k, p) ∷ m) c = elim (Bool-cases (ltb (2 * n) (length p.acks))) [
    | inl done ↦
        rw (done, sum_commitments, sum_public)
          (sum-public n m (P.add_commitment c (P.commitment_row p.commit 0)))
    | inr waits ↦ rw (waits, sum_commitments, sum_public) (sum-public n m c)
  ]

  public_count_lem : (s : SyncKeyGen C P) → count_complete s ≡ public_count (public_state s)
  unfolding count_complete public_count public_state
  public_count_lem s = count-public s.threshold s.parts

  is_public_ready : PublicState C P → Bool
  is_public_ready w = ltb w.threshold (public_count w)

  is_ready_lem : (s : SyncKeyGen C P) → is_ready s ≡ is_public_ready (public_state s)
  unfolding is_ready is_public_ready public_state
  is_ready_lem s = ap (ltb s.threshold) (public_count_lem s)

  public_key_set_lem : (s : SyncKeyGen C P) → (generate s).0 ≡ public_key_set (public_state s)
  unfolding generate complete_parts public_key_set public_state
  public_key_set_lem s = ap P.key_set (sum-public s.threshold s.parts P.zero_commitment)

  -- Two instances with the same public view, whatever their own keys and random sources, that
  -- handle the same messages in the same order count the same complete parts, are ready or not
  -- alike, and generate the same set of public keys.
  pub handle_all-same_keys :
      (es : List (Event C P)) (r q : P.Rng) (s t : SyncKeyGen C P)
      → public_state s ≡ public_state t
      → (count_complete (handle_all es r s).1 ≡ count_complete (handle_all es q t).1)
        × (is_ready (handle_all es r s).1 ≡ is_ready (handle_all es q t).1)
        × ((generate (handle_all es r s).1).0 ≡ (generate (handle_all es q t).1).0)
  handle_all-same_keys es r q s t same =
      let left = (handle_all es r s).1 in
      let right = (handle_all es q t).1 in
      let views : public_state left ≡ public_state right =
        public-handle_all es r s ∙ ap (see_all es) same ∙ sym (public-handle_all es q t) in
      (
        public_count_lem left ∙ ap public_count views ∙ sym (public_count_lem right),
        is_ready_lem left ∙ ap is_public_ready views ∙ sym (is_ready_lem right),
        public_key_set_lem left ∙ ap public_key_set views ∙ sym (public_key_set_lem right),
      )
