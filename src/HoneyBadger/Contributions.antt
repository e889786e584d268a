-- ===== src/HoneyBadger/Contributions.antt =====
-- src/honey_badger/epoch_state.rs: what the batch of an epoch contains.
use hbbft.Prelude.{
  ℕ, ◌≡◌, refl, ◌∙◌, Bool, true, false, ◌||◌, Option, none, some, List, [], ◌∷◌, ◌++◌, map, keep,
  all, arith, if◌then◌else◌, Option-cases, Bool-cases, inl, inr, ◌⊎◌, is_some, not, append-nil,
  map-append, keep-pass, keep-drop, append_assoc, ◌==◌, ==_iff, subst, sym, ap,
}
use hbbft.Prelude.BTreeMap.{BTreeMap, get, insert, get-insert}
use hbbft.Prelude.BTreeSet.{BTreeSet, contains}
use hbbft.FaultLog.{NodeId, FaultLog, append}
use hbbft.Crypto.{Crypto}
use hbbft.Broadcast.Coding.{ReedSolomon}
use hbbft.HoneyBadger.Content.{Codec, Batch, FaultKind, batch_deserialization_failed}
use hbbft.HoneyBadger.Decryption.{DecryptionState, ongoing, complete}
use hbbft.HoneyBadger.Epoch.{EpochState, accepted_ids}
use hbbft.HoneyBadger.Numbered.{try_output_batch-epoch}
use hbbft.HoneyBadger.Output.{plaintexts, deserialize_into, try_output_batch}

-- The plaintext of a proposer, once decrypted.
abbrev pub plaintext : {C : Crypto} → Option (DecryptionState C) → Option (List ℕ)
plaintext none = none
plaintext (some (ongoing td)) = none
plaintext (some (complete pt)) = some pt

-- What a plaintext contributes.
abbrev pub value_of : {C : Crypto} (B : Codec C) → Option (List ℕ) → Option B.Contribution
value_of B none = none
value_of B (some pt) = B.deserialize pt

module _ {C : Crypto} (B : Codec C) (m : BTreeMap (DecryptionState C)) where
  abbrev pub contributed : NodeId → Option B.Contribution
  contributed id = value_of B (plaintext (get m id))

  -- Every pair is a proposer with its plaintext.
  abbrev AreFound : BTreeSet → List (NodeId × List ℕ) → Type 0
  AreFound [] [] = Unit {0}
  AreFound [] (e ∷ found) = ⊥
  AreFound (id ∷ ids) [] = ⊥
  AreFound (id ∷ ids) ((p, pt) ∷ found) =
      (p ≡ id) × (plaintext (get m id) ≡ some pt) × AreFound ids found

  plaintexts-AreFound :
      (ids : BTreeSet) (found : List (NodeId × List ℕ))
      → plaintexts ids m ≡ some found
      → AreFound ids found
  unfolding plaintexts
  plaintexts-AreFound [] [] e = tt
  plaintexts-AreFound [] (x ∷ found) e = absurd (ground arith)
  plaintexts-AreFound (id ∷ ids) found e = elim (Option-cases (get m id)) [
    | inl missing ↦ absurd (ground arith)
    | inr (ds, there) ↦ go ds there (plaintexts-AreFound ids)
  ]
    where
      go :
          (ds : DecryptionState C)
          → get m id ≡ some ds
          → ((rest : List (NodeId × List ℕ)) → plaintexts ids m ≡ some rest → AreFound ids rest)
          → AreFound (id ∷ ids) found
      go (ongoing td) there later = absurd (ground arith)
      go (complete pt) there later = elim (Option-cases (plaintexts ids m)) [
        | inl pending ↦ absurd (ground arith)
        | inr (rest, ready) ↦
            let same : ((id, pt) ∷ rest) ≡ found = ground arith in
            subst (AreFound (id ∷ ids)) same (refl, ap plaintext there, later rest ready)
      ]

  -- The contributions of the proposers seen so far.
  abbrev Holds : BTreeSet → Batch B.Contribution → Type 0
  Holds seen b =
      (j : NodeId) → get b.contributions j ≡ (if contains seen j then contributed j else none)

  -- The proposers whose plaintexts are not contributions.
  abbrev pub fails : NodeId → Bool
  fails id = not (is_some (contributed id))

  -- What the loop leaves after the pairs of the proposers `ids`.
  abbrev Settles :
      BTreeSet → BTreeSet → FaultLog FaultKind → Batch B.Contribution × FaultLog FaultKind → Type 0
  Settles seen ids log out =
      ((j : NodeId)
        → get out.0.contributions j
          ≡ (if contains ids j || contains seen j then contributed j else none))
      × (map (λ f. f.node_id) out.1 ≡ map (λ f. f.node_id) log ++ keep fails ids)

  Settles-step :
      (id : NodeId) (ids seen : BTreeSet) (log log2 : FaultLog FaultKind)
      (out : Batch B.Contribution × FaultLog FaultKind)
      → map (λ f. f.node_id) log2 ≡ map (λ f. f.node_id) log ++ keep fails (id ∷ [])
      → Settles (id ∷ seen) ids log2 out
      → Settles seen (id ∷ ids) log out
  unfolding contains
  Settles-step id ids seen log log2 out logged (held, blamed) = (
    λ j.
        held j
        ∙ ap (λ b. if b then contributed j else none)
            (shift (id == j) (contains ids j) (contains seen j)),
    blamed
        ∙ rw logged (append_assoc _ (keep fails (id ∷ [])) (keep fails ids))
        ∙ ap (λ xs. map (λ f. f.node_id) log ++ xs) (keep-one (Bool-cases (fails id))),
  )
    where
      shift : (a b c : Bool) → (b || (a || c)) ≡ ((a || b) || c)
      shift a b c = ground arith

      keep-one :
          (fails id ≡ true) ⊎ (fails id ≡ false)
          → keep fails (id ∷ []) ++ keep fails ids ≡ keep fails (id ∷ ids)
      keep-one (inl e) = rw (keep-pass fails id [] e) (sym (keep-pass fails id ids e))
      keep-one (inr e) = rw (keep-drop fails id [] e) (sym (keep-drop fails id ids e))

  -- A contribution is entered, and it is the one that its proposer has.
  Holds-insert :
      (id : NodeId) (c : B.Contribution) (seen : BTreeSet) (batch : Batch B.Contribution)
      → contributed id ≡ some c
      → Holds seen batch
      → Holds (id ∷ seen) (record batch { contributions = insert id c batch.contributions })
  unfolding contains
  Holds-insert id c seen batch value h j =
      get-insert id c batch.contributions j ∙ (elim (Bool-cases (id == j)) [
        | inl same ↦ rw same (sym value ∙ ap contributed ((==_iff id j).0 same))
        | inr other ↦ rw other (h j)
      ])

  Holds-skip :
      (id : NodeId) (seen : BTreeSet) (batch : Batch B.Contribution)
      → contributed id ≡ none
      → Holds seen batch
      → Holds (id ∷ seen) batch
  unfolding contains
  Holds-skip id seen batch value h j = elim (Bool-cases (id == j)) [
    | inl same ↦
        let none_here : contributed j ≡ none =
          sym (ap contributed ((==_iff id j).0 same)) ∙ value in
        h j ∙ rw same (rw none_here (both (contains seen j)))
    | inr other ↦ rw other (h j)
  ]
    where
      nothing : Option B.Contribution
      nothing = none

      both : (b : Bool) → (if b then nothing else nothing) ≡ nothing
      both true = refl
      both false = refl

  reported :
      (id p : NodeId) (log : FaultLog FaultKind)
      → p ≡ id
      → fails id ≡ true
      → map (λ f. f.node_id) (append log p batch_deserialization_failed)
        ≡ map (λ f. f.node_id) log ++ keep fails (id ∷ [])
  unfolding append
  reported id p log same e =
      map-append (λ f. f.node_id) log
        (record { node_id = p; kind = batch_deserialization_failed } ∷ [])
      ∙ ap (λ xs. map (λ f. f.node_id) log ++ xs)
          (ap (λ i. i ∷ []) same ∙ sym (keep-pass fails id [] e))

  deserialize_into-Settles :
      (ids : BTreeSet) (found : List (NodeId × List ℕ)) (seen : BTreeSet)
      (batch : Batch B.Contribution) (log : FaultLog FaultKind)
      → AreFound ids found
      → Holds seen batch
      → Settles seen ids log (deserialize_into B found batch log)
  unfolding deserialize_into contains
  deserialize_into-Settles [] [] seen batch log f h = (h, sym (append-nil _))
  deserialize_into-Settles [] (x ∷ found) seen batch log f h = absurd f
  deserialize_into-Settles (id ∷ ids) [] seen batch log f h = absurd f
  deserialize_into-Settles (id ∷ ids) ((p, pt) ∷ found) seen batch log (same, there, f) h =
      elim (Option-cases (B.deserialize pt)) [
        | inl bad ↦
            let value : contributed id ≡ none = ap (value_of B) there ∙ bad in
            rw (bad, deserialize_into)
              (Settles-step id ids seen log _
                (deserialize_into B found batch (append log p batch_deserialization_failed))
                (reported id p log same (ap (λ o. not (is_some o)) value))
                (deserialize_into-Settles ids found (id ∷ seen) batch _ f
                  (Holds-skip id seen batch value h)))
        | inr (c, good) ↦
            let value : contributed id ≡ some c = ap (value_of B) there ∙ good in
            rw (good, deserialize_into)
              (Settles-step id ids seen log log
                (deserialize_into B found
                  (record batch { contributions = insert p c batch.contributions }) log)
                (rw (keep-drop fails id [] (ap (λ o. not (is_some o)) value))
                  (sym (append-nil (map (λ f. f.node_id) log))))
                (deserialize_into-Settles ids found (id ∷ seen) _ log f
                  (rw same (Holds-insert id c seen batch value h))))
      ]

  pub is_some-plaintexts :
      (ids : BTreeSet) → is_some (plaintexts ids m) ≡ all (λ id. is_some (plaintext (get m id))) ids
  unfolding plaintexts
  is_some-plaintexts [] = refl
  is_some-plaintexts (id ∷ ids) = go (get m id) refl (is_some-plaintexts ids)
    where
      go :
          (o : Option (DecryptionState C))
          → get m id ≡ o
          → is_some (plaintexts ids m) ≡ all (λ i. is_some (plaintext (get m i))) ids
          → is_some (plaintexts (id ∷ ids) m) ≡ all (λ i. is_some (plaintext (get m i))) (id ∷ ids)
      go none e h = ground arith
      go (some (ongoing td)) e h = ground arith
      go (some (complete pt)) e h = ground arith

module _ {C : Crypto} {R : ReedSolomon} (B : Codec C) where
  -- Where the set of proposers is decided, an epoch has a batch exactly when each of them has its
  -- plaintext. The batch has the number of the epoch and, for each node, what the plaintext of
  -- the node deserializes to if the node is in the set, and nothing otherwise; and the nodes of
  -- the set whose plaintexts do not deserialize are blamed, in the order of the set, and no
  -- others.
  pub try_output_batch_lem :
      (s : EpochState C R) (ids : BTreeSet)
      → accepted_ids s.subset ≡ some ids
      → (is_some (try_output_batch B s) ≡ all (λ id. is_some (plaintext (get s.decryption id))) ids)
        × ((batch : Batch B.Contribution) (log : FaultLog FaultKind)
            → try_output_batch B s ≡ some (batch, log)
            → (batch.epoch ≡ s.epoch)
              × ((j : NodeId)
                  → get batch.contributions j
                    ≡ (if contains ids j then contributed B s.decryption j else none))
              × (map (λ f. f.node_id) log ≡ keep (fails B s.decryption) ids))
  unfolding try_output_batch contains get
  try_output_batch_lem s ids decided = (
    ready (plaintexts ids s.decryption) refl ∙ is_some-plaintexts B s.decryption ids,
    λ batch log e. elim (Option-cases (plaintexts ids s.decryption)) [
      | inl pending ↦ absurd (ground arith)
      | inr (found, there) ↦
          let start : Batch B.Contribution = record { epoch = s.epoch; contributions = [] } in
          let same : deserialize_into B found start [] ≡ (batch, log) = ground arith in
          let (held, blamed) =
            deserialize_into-Settles B s.decryption ids found [] start []
              (plaintexts-AreFound B s.decryption ids found there) (λ j. refl) in
          (
            try_output_batch-epoch B s (batch, log) e,
            λ j.
                sym (ap (λ out. get out.0.contributions j) same)
                ∙ held j
                ∙ ap (λ b. if b then contributed B s.decryption j else none)
                    (no_others (contains ids j)),
            sym (ap (λ out. map (λ f. f.node_id) out.1) same) ∙ blamed,
          )
    ],
  )
    where
      no_others : (b : Bool) → (b || false) ≡ b
      no_others true = refl
      no_others false = refl

      ready :
          (o : Option (List (NodeId × List ℕ)))
          → plaintexts ids s.decryption ≡ o
          → is_some (try_output_batch B s) ≡ is_some (plaintexts ids s.decryption)
      ready none e = ground arith
      ready (some found) e = ground arith
