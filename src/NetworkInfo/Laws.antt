-- ===== src/NetworkInfo/Laws.antt =====
-- src/network_info.rs: what `NetworkInfo::new` establishes.
use hbbft.Prelude.{
  ℕ, suc, ◌+◌, ◌*◌, ◌≤◌, ◌<◌, ◌≡◌, refl, ◌⊎◌, inl, inr, Option, none, some, List, true, [], ◌∷◌,
  length, arith, get_elem?, length-map, Option-cases, Bool-cases, sym, ltb, lt→ltb, ◌==◌,
}
use hbbft.Prelude.BTreeMap.{BTreeMap, get, keys}
use hbbft.Util.{max_faulty, max_faulty-greatest}
use hbbft.FaultLog.{NodeId}
use hbbft.Crypto.{Crypto}
use hbbft.NetworkInfo.{
  NetworkInfo, enumerate_from, create, new, all_ids, node_index, is_node_validator,
}

-- The numbers fit together: fewer than a third of the nodes may be faulty, no larger number would
-- do, and `node_index` gives positions in `all_ids`.
pub record IsWellFormed {C : Crypto} (n : NetworkInfo C) : Type 0 where
  pub third : 3 * n.num_faulty < n.num_nodes
  pub greatest : n.num_nodes ≤ 3 * n.num_faulty + 3
  pub counted : n.num_nodes ≡ length (all_ids n)
  pub member : n.is_validator ≡ is_node_validator n n.our_id
  pub position :
      (id : NodeId) (i : ℕ) → node_index n id ≡ some i → get_elem? (all_ids n) i ≡ some id

position_from :
    (start : ℕ) (ids : List NodeId) (id i : ℕ)
    → get (enumerate_from start ids) id ≡ some i
    → (j : ℕ) × (i ≡ start + j) × (get_elem? ids j ≡ some id)
unfolding enumerate_from get
position_from start [] id i h = absurd (cc)
position_from start (x ∷ ids) id i h = elim (Bool-cases (x == id)) [
  | inl same ↦ (0, ground arith, ground arith)
  | inr other ↦
      let (j, e, g) = position_from (suc start) ids id i (ground arith) in (suc j, omega arith, g)
]

position-enumerate :
    (ids : List NodeId) (id i : ℕ)
    → get (enumerate_from 0 ids) id ≡ some i
    → get_elem? ids i ≡ some id
position-enumerate ids id i h =
    let (j, e, g) = position_from 0 ids id i h in let e' : i ≡ j = omega arith in rw e' g

empty_of_panic : {A : Type 0} (xs : List A) → max_faulty (length xs) ≡ none → xs ≡ []
unfolding max_faulty
empty_of_panic [] h = refl
empty_of_panic (x ∷ xs) h = ground arith

asserted : (n f : ℕ) → max_faulty n ≡ some f → ltb (3 * f) n ≡ true
asserted n f e = lt→ltb _ _ ((max_faulty-greatest n f).0 e).0

module _ {C : Crypto} (our_id : NodeId) (sks : Option C.SecretKeyShare) (pks : C.PublicKeySet)
    (sk : C.SecretKey) (public_keys : BTreeMap C.PublicKey) where
  create-IsWellFormed :
      (f : ℕ)
      → max_faulty (length public_keys) ≡ some f
      → IsWellFormed (create {C = C} our_id sks pks sk public_keys f)
  unfolding create
  create-IsWellFormed f e = record {
    third = ((max_faulty-greatest (length public_keys) f).0 e).0;
    greatest = ((max_faulty-greatest (length public_keys) f).0 e).1;
    counted = sym (length-map _ public_keys);
    member = refl;
    position = position-enumerate (keys public_keys);
  }

  -- The constructor returns a well-formed value for every map of keys but the empty one, on which
  -- it panics; its assertion `3 f < N` never fails.
  pub new-IsWellFormed :
      ((public_keys ≡ []) × (new {C = C} our_id sks pks sk public_keys ≡ none))
      ⊎ ((n : NetworkInfo C) × (new {C = C} our_id sks pks sk public_keys ≡ some n)
          × IsWellFormed n)
  unfolding new
  new-IsWellFormed = elim (Option-cases (max_faulty (length public_keys))) [
    | inl e ↦ inl (empty_of_panic public_keys e, rw (e, new))
    | inr (f, e) ↦ inr (
      create our_id sks pks sk public_keys f,
      rw (e, new) (rw (asserted _ f e)),
      create-IsWellFormed f e,
    )
  ]
