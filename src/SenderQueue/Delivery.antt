-- ===== src/SenderQueue/Delivery.antt =====
-- src/traits.rs: for each peer, `defer_messages` splits the messages of a step by their epochs.
use hbbft.Prelude.{
  ℕ, ◌≡◌, refl, sym, ap, ◌∙◌, subst, Bool, true, false, not, ◌&&◌, none, some, List, [], ◌∷◌, ◌++◌,
  all, keep, map, keep-pass, keep-drop, if◌then◌else◌, ◌==◌, ==_iff, ==_refl, append-nil,
  append_assoc, map-append, Bool-cases, Option-cases, inl, inr, ◌⊎◌, arith,
}
use hbbft.Prelude.BTreeMap.{BTreeMap, get, values}
use hbbft.Prelude.BTreeMap.Ascending.{IsAscending, get-below}
use hbbft.FaultLog.{NodeId}
use hbbft.Messaging
use hbbft.Messaging.{Target, node, TargetedMessage, message}
use hbbft.Traits.{Step}
use hbbft.SenderQueue.Interface.{Queueable, is_accepted}
use hbbft.SenderQueue.Deferral.{
  Deferral, defer_one, defer_split, defer_target, defer_all, defer_messages,
}

abbrev pub is_for : NodeId → Target → Bool
is_for id Messaging.all = true
is_for id (node p) = p == id

-- The messages that a peer gets, in their order.
abbrev pub addressed : {M : Type 0} → NodeId → List (TargetedMessage M) → List M
addressed id msgs = map (λ m. m.message) (keep (λ m. is_for id m.target) msgs)

-- The messages that wait for a peer, in their order.
abbrev pub waiting : {M : Type 0} → NodeId → List (NodeId × M) → List M
waiting id msgs = map (λ e. e.1) (keep (λ e. e.0 == id) msgs)

pub keep-append {ℓ} :
    {A : Type ℓ} (p : A → Bool) (xs ys : List A) → keep p (xs ++ ys) ≡ keep p xs ++ keep p ys
keep-append p [] ys = refl
keep-append p (x ∷ xs) ys = go (Bool-cases (p x)) (keep-append p xs ys)
  where
    go :
        (p x ≡ true) ⊎ (p x ≡ false)
        → keep p (xs ++ ys) ≡ keep p xs ++ keep p ys
        → keep p (x ∷ (xs ++ ys)) ≡ keep p (x ∷ xs) ++ keep p ys
    go (inl e) h = rw (keep-pass p x (xs ++ ys) e) (rw (keep-pass p x xs e) (ap (λ l. x ∷ l) h))
    go (inr e) h = rw (keep-drop p x (xs ++ ys) e) (rw (keep-drop p x xs e) h)

module _ {M : Type 0} (id : NodeId) where
  addressed-push :
      (msgs : List (TargetedMessage M)) (t : Target) (m : M) (b : Bool)
      → is_for id t ≡ b
      → addressed id (msgs ++ message t m ∷ []) ≡ addressed id msgs ++ (if b then m ∷ [] else [])
  addressed-push msgs t m true e =
      ap (map (λ m. m.message)) (keep-append (λ m. is_for id m.target) msgs (message t m ∷ []))
      ∙ map-append (λ m. m.message) (keep (λ m. is_for id m.target) msgs) _
      ∙ ap (λ xs. addressed id msgs ++ map (λ m. m.message) xs)
          (keep-pass (λ m. is_for id m.target) (message t m) [] e)
  addressed-push msgs t m false e =
      ap (map (λ m. m.message)) (keep-append (λ m. is_for id m.target) msgs (message t m ∷ []))
      ∙ map-append (λ m. m.message) (keep (λ m. is_for id m.target) msgs) _
      ∙ ap (λ xs. addressed id msgs ++ map (λ m. m.message) xs)
          (keep-drop (λ m. is_for id m.target) (message t m) [] e)

  waiting-push :
      (msgs : List (NodeId × M)) (p : NodeId) (m : M) (b : Bool)
      → (p == id) ≡ b
      → waiting id (msgs ++ (p, m) ∷ []) ≡ waiting id msgs ++ (if b then m ∷ [] else [])
  waiting-push msgs p m true e =
      ap (map {A = NodeId × M} (λ e. e.1)) (keep-append (λ e. e.0 == id) msgs ((p, m) ∷ []))
      ∙ map-append {A = NodeId × M} (λ e. e.1) (keep (λ e. e.0 == id) msgs) _
      ∙ ap (λ xs. waiting id msgs ++ map {A = NodeId × M} (λ e. e.1) xs)
          (keep-pass (λ e. e.0 == id) (p, m) [] e)
  waiting-push msgs p m false e =
      ap (map {A = NodeId × M} (λ e. e.1)) (keep-append (λ e. e.0 == id) msgs ((p, m) ∷ []))
      ∙ map-append {A = NodeId × M} (λ e. e.1) (keep (λ e. e.0 == id) msgs) _
      ∙ ap (λ xs. waiting id msgs ++ map {A = NodeId × M} (λ e. e.1) xs)
          (keep-drop (λ e. e.0 == id) (p, m) [] e)

-- Two parts of what passes a test, put together.
kept-append {ℓ} :
    {A : Type ℓ} (p : A → Bool) (a b c xs ys : List A)
    → a ≡ b ++ keep p ys
    → b ≡ c ++ keep p xs
    → a ≡ c ++ keep p (xs ++ ys)
kept-append p a b c xs ys e f =
    e
    ∙ ap (λ l. l ++ keep p ys) f
    ∙ append_assoc c (keep p xs) (keep p ys)
    ∙ ap (λ l. c ++ l) (sym (keep-append p xs ys))

module _ {M : Type 0} (q : Queueable M) (max_future_epochs : ℕ) (id : NodeId) (them : ℕ) where
  abbrev now : M → Bool
  now m = is_accepted q m them max_future_epochs

  abbrev later : M → Bool
  later m = q.is_premature m them max_future_epochs

  -- From `d` to `e` the messages `msgs` for the peer were split by its epoch.
  pub record Adds (d : Deferral M) (msgs : List M) (e : Deferral M) : Type 0 where
    pub passed : addressed id e.passed_msgs ≡ addressed id d.passed_msgs ++ keep now msgs
    pub deferred : waiting id e.deferred_msgs ≡ waiting id d.deferred_msgs ++ keep later msgs

  Adds-none : (d : Deferral M) → Adds d [] d
  Adds-none d = record {
    passed = sym (append-nil (addressed id d.passed_msgs));
    deferred = sym (append-nil (waiting id d.deferred_msgs));
  }

  Adds-append :
      (d e f : Deferral M) (xs ys : List M) → Adds d xs e → Adds e ys f → Adds d (xs ++ ys) f
  Adds-append d e f xs ys h k = record {
    passed = kept-append now _ _ _ xs ys k.passed h.passed;
    deferred = kept-append later _ _ _ xs ys k.deferred h.deferred;
  }

  -- The cases of one message: it is passed, it waits, or it is dropped.
  passed-Adds :
      (d : Deferral M) (t : Target) (m : M)
      → is_for id t ≡ true
      → now m ≡ true
      → Adds d (m ∷ []) (record d { passed_msgs = d.passed_msgs ++ message t m ∷ [] })
  passed-Adds d t m e h = record {
    passed =
        addressed-push id d.passed_msgs t m true e
        ∙ ap (λ l. addressed id d.passed_msgs ++ l) (sym (keep-pass now m [] h));
    deferred =
        sym (append-nil _)
        ∙ ap (λ l. waiting id d.deferred_msgs ++ l)
            (sym (keep-drop later m [] (early (q.is_premature m them max_future_epochs) h)));
  }
    where
      early : (b : Bool) → (not b && not (q.is_obsolete m them)) ≡ true → b ≡ false
      early true g = absurd (ground arith)
      early false g = refl

  waits-Adds :
      (d : Deferral M) (m : M)
      → later m ≡ true
      → Adds d (m ∷ []) (record d { deferred_msgs = d.deferred_msgs ++ (id, m) ∷ [] })
  waits-Adds d m h = record {
    passed =
        sym (append-nil _)
        ∙ ap (λ l. addressed id d.passed_msgs ++ l)
            (sym (keep-drop now m [] (ap (λ b. not b && not (q.is_obsolete m them)) h)));
    deferred =
        waiting-push id d.deferred_msgs id m true (==_refl id)
        ∙ ap (λ l. waiting id d.deferred_msgs ++ l) (sym (keep-pass later m [] h));
  }

  dropped-Adds : (d : Deferral M) (m : M) → now m ≡ false → later m ≡ false → Adds d (m ∷ []) d
  dropped-Adds d m h k = record {
    passed =
        sym (append-nil _) ∙ ap (λ l. addressed id d.passed_msgs ++ l) (sym (keep-drop now m [] h));
    deferred =
        sym (append-nil _)
        ∙ ap (λ l. waiting id d.deferred_msgs ++ l) (sym (keep-drop later m [] k));
  }

  -- A message to the peer.
  own-Adds : (m : M) (d : Deferral M) → Adds d (m ∷ []) (defer_one q max_future_epochs id them m d)
  unfolding defer_one
  own-Adds m d = elim (Bool-cases (q.is_premature m them max_future_epochs)) [
    | inl early ↦ rw early (waits-Adds d m early)
    | inr soon ↦ rw soon (elim (Bool-cases (q.is_obsolete m them)) [
      | inl old ↦ rw old (dropped-Adds d m (ground arith) soon)
      | inr fresh ↦ rw fresh (passed-Adds d (node id) m (==_refl id) (ground arith))
    ])
  ]

  -- A message to another peer.
  other-Adds :
      (p : NodeId) (e : ℕ) (m : M) (d : Deferral M)
      → (p == id) ≡ false
      → Adds d [] (defer_one q max_future_epochs p e m d)
  unfolding defer_one
  other-Adds p e m d other = elim (Bool-cases (q.is_premature m e max_future_epochs)) [
    | inl early ↦ rw early (record {
      passed = sym (append-nil _);
      deferred = waiting-push id d.deferred_msgs p m false other;
    })
    | inr soon ↦ rw soon (elim (Bool-cases (q.is_obsolete m e)) [
      | inl old ↦ rw old (Adds-none d)
      | inr fresh ↦ rw fresh (record {
        passed = addressed-push id d.passed_msgs (node p) m false other;
        deferred = sym (append-nil _);
      })
    ])
  ]

  -- A message to all that is split, where the peer is not one of them, and where it is.
  unknown-Adds :
      (peers : BTreeMap ℕ) (m : M) (d : Deferral M)
      → get peers id ≡ none
      → Adds d [] (defer_split q max_future_epochs peers m d)
  unfolding defer_split get
  unknown-Adds [] m d e = Adds-none d
  unknown-Adds ((p, x) ∷ peers) m d e =
      let other : (p == id) ≡ false = ground arith in
      Adds-append d _ _ [] [] (other-Adds p x m d other)
        (unknown-Adds peers m (defer_one q max_future_epochs p x m d) (ground arith))

  split-Adds :
      (peers : BTreeMap ℕ) (m : M) (d : Deferral M)
      → get peers id ≡ some them
      → IsAscending peers
      → Adds d (m ∷ []) (defer_split q max_future_epochs peers m d)
  unfolding defer_split get
  split-Adds [] m d e h = absurd (ground arith)
  split-Adds ((p, x) ∷ peers) m d e h = elim (Bool-cases (p == id)) [
    | inr other ↦
        Adds-append d _ _ [] (m ∷ []) (other-Adds p x m d other)
          (split-Adds peers m (defer_one q max_future_epochs p x m d) (ground arith) h.1)
    | inl same ↦
        let here : p ≡ id = (==_iff p id).0 same in
        let epoch : x ≡ them = ground arith in
        let first : Adds d (m ∷ []) (defer_one q max_future_epochs p x m d) =
          rw here (rw epoch (own-Adds m d)) in
        Adds-append d _ _ (m ∷ []) [] first (
          unknown-Adds peers m (defer_one q max_future_epochs p x m d)
            (get-below p peers id h.0 (omega (arith, here))))
  ]

  all_accept :
      (p : ℕ → Bool) (peers : BTreeMap ℕ)
      → all p (values peers) ≡ true
      → get peers id ≡ some them
      → p them ≡ true
  unfolding get
  all_accept p [] h e = absurd (ground arith)
  all_accept p ((i, x) ∷ peers) h e = ground (arith, all_accept p peers)

  -- What a message is to the peer.
  abbrev part : Target → M → List M
  part t m = if is_for id t then m ∷ [] else []

  target-Adds :
      (peers : BTreeMap ℕ) (t : Target) (m : M) (d : Deferral M)
      → get peers id ≡ some them
      → IsAscending peers
      → Adds d (part t m) (defer_target q max_future_epochs peers t m d)
  unfolding defer_target
  target-Adds peers (node p) m d e h = elim (Bool-cases (p == id)) [
    | inl same ↦
        let here : p ≡ id = (==_iff p id).0 same in
        let found : get peers p ≡ some them = rw here e in
        rw same (rw (found, defer_target) (rw here (own-Adds m d)))
    | inr other ↦ rw other (elim (Option-cases (get peers p)) [
      | inl unknown ↦ rw (unknown, defer_target) (Adds-none d)
      | inr (x, known) ↦ rw (known, defer_target) (other-Adds p x m d other)
    ])
  ]
  target-Adds peers Messaging.all m d e h =
      elim (Bool-cases (all (λ x. is_accepted q m x max_future_epochs) (values peers))) [
        | inl accepted ↦ rw accepted (
            passed-Adds d Messaging.all m refl
              (all_accept (λ x. is_accepted q m x max_future_epochs) peers accepted e))
        | inr mixed ↦ rw mixed (split-Adds peers m d e h)
      ]

  addressed-cons :
      (t : Target) (m : M) (msgs : List (TargetedMessage M))
      → part t m ++ addressed id msgs ≡ addressed id (message t m ∷ msgs)
  addressed-cons t m msgs = elim (Bool-cases (is_for id t)) [
    | inl e ↦ rw e refl
    | inr e ↦ rw e refl
  ]

  defer_all-Adds :
      (peers : BTreeMap ℕ) (msgs : List (TargetedMessage M)) (d : Deferral M)
      → get peers id ≡ some them
      → IsAscending peers
      → Adds d (addressed id msgs) (defer_all q max_future_epochs peers msgs d)
  unfolding defer_all
  defer_all-Adds peers [] d e h = Adds-none d
  defer_all-Adds peers (msg ∷ msgs) d e h =
      subst (λ ms. Adds d ms (defer_all q max_future_epochs peers (msg ∷ msgs) d))
        (addressed-cons msg.target msg.message msgs)
        (Adds-append d _ _ (part msg.target msg.message) (addressed id msgs)
          (target-Adds peers msg.target msg.message d e h)
          (defer_all-Adds peers msgs
            (defer_target q max_future_epochs peers msg.target msg.message d) e h))

  -- For a peer of which an epoch is known, among peers in ascending order: of the messages of a
  -- step that are for the peer, those that it accepts in its epoch are in the step after
  -- `defer_messages`, those that are premature are among the returned messages for it, each in
  -- their order, and there are no others for it.
  pub defer_messages-Splits :
      {O F : Type 0} (peers : BTreeMap ℕ) (step : Step M O F)
      → get peers id ≡ some them
      → IsAscending peers
      → let (deferred, rest) = defer_messages q max_future_epochs peers step in
        (addressed id rest.messages ≡ keep now (addressed id step.messages))
        × (waiting id deferred ≡ keep later (addressed id step.messages))
  unfolding defer_messages
  defer_messages-Splits peers step e h =
      let adds = defer_all-Adds peers step.messages _ e h in (adds.passed, adds.deferred)
