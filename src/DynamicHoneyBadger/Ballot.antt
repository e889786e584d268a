-- ===== src/DynamicHoneyBadger/Ballot.antt =====
-- src/dynamic_honey_badger/votes.rs: a counter of votes through any sequence of calls.
use hbbft.Prelude.{
  ◌<◌, ◌≡◌, refl, sym, ap, ◌∙◌, subst, ◌⊎◌, inl, inr, Bool, true, false, not, ◌||◌, some, List, [],
  ◌∷◌, leb, ◌==◌, ==_iff, if◌then◌else◌, Bool-cases, sum_cases, arith, Outcome, ok, err, panicked,
  exhausted, ◌>>=◌, return, and_then,
}
use hbbft.Prelude.BTreeMap.{get, insert, get-insert_same, get-insert_other}
use hbbft.FaultLog.{NodeId, FaultLog, extend}
use hbbft.Crypto.{Crypto}
use hbbft.DynamicHoneyBadger.Change.{Change}
use hbbft.DynamicHoneyBadger.Votes.{
  Vote, SignedVote, Ballots, Error, FaultKind, invalid_committed_vote, invalid_vote_signature,
  VoteCounter, has_num, validate, sign_vote_for, own_vote, if_valid, add_pending_vote, validate_era,
  add_committed_vote, add_committed_votes, vote_of,
}

module _ {C : Crypto} (B : Ballots C) where
  -- Every committed vote is of the era, and a signature of its voter for it was checked.
  abbrev pub IsAuthentic : VoteCounter C → Type 0
  IsAuthentic s =
      (j : NodeId) (v : Vote C)
      → get s.committed j ≡ some v
      → (v.era ≡ s.era)
        × (sig : C.Signature) × (validate B s (record { vote = v; voter = j; sig = sig })
            ≡ inr true)

  -- A vote stays or gives way to one with a higher number.
  abbrev pub IsNewer : VoteCounter C → VoteCounter C → Type 0
  IsNewer s t =
      (j : NodeId) (v : Vote C)
      → get s.committed j ≡ some v
      → (w : Vote C) × (get t.committed j ≡ some w) × ((w ≡ v) ⊎ (v.num < w.num))

  abbrev pub Counts : VoteCounter C → VoteCounter C → Type 0
  Counts s t = IsNewer s t × (IsAuthentic s → IsAuthentic t)

  Counts-none : (s : VoteCounter C) → Counts s s
  Counts-none s = (λ j v e. (v, e, inl refl), λ h. h)

  Counts-append : (s t u : VoteCounter C) → Counts s t → Counts t u → Counts s u
  Counts-append s t u h k = (λ j v e. go j v (h.0 j v e), λ a. k.1 (h.1 a))
    where
      go :
          (j : NodeId) (v : Vote C)
          → (w : Vote C) × (get t.committed j ≡ some w) × ((w ≡ v) ⊎ (v.num < w.num))
          → (w : Vote C) × (get u.committed j ≡ some w) × ((w ≡ v) ⊎ (v.num < w.num))
      go j v (w, found, inl same) =
          subst (λ x. (w : Vote C) × (get u.committed j ≡ some w) × ((w ≡ x) ⊎ (x.num < w.num)))
            same (k.0 j w found)
      go j v (w, found, inr higher) = later (k.0 j w found)
        where
          later :
              (x : Vote C) × (get u.committed j ≡ some x) × ((x ≡ w) ⊎ (w.num < x.num))
              → (w : Vote C) × (get u.committed j ≡ some w) × ((w ≡ v) ⊎ (v.num < w.num))
          later (x, there, inl same) =
              (x, there, inr (subst (λ y. v.num < y.num) (sym same) higher))
          later (x, there, inr more) = (x, there, inr (omega (arith, higher, more)))

  -- A vote that is newer than the one that is there, of the era and signed.
  accepted-Counts :
      (sv : SignedVote C) (s : VoteCounter C)
      → has_num sv.vote.num (get s.committed sv.voter) ≡ false
      → sv.vote.era ≡ s.era
      → validate B s sv ≡ inr true
      → Counts s (record s { committed = insert sv.voter sv.vote s.committed })
  unfolding validate
  accepted-Counts sv s newer era valid = (
    λ j v e. elim (Bool-cases (sv.voter == j)) [
      | inl same ↦ (
        sv.vote,
        get-insert_same sv.voter sv.vote s.committed j same,
        inr (higher j v e ((==_iff sv.voter j).0 same)),
      )
      | inr other ↦ (v, get-insert_other sv.voter sv.vote s.committed j other ∙ e, inl refl)
    ],
    λ h j v e. elim (Bool-cases (sv.voter == j)) [
      | inl same ↦
          let stored = get-insert_same sv.voter sv.vote s.committed j same in
          let this : sv.vote ≡ v = ground (arith, stored, e) in
          subst
            (λ x.
              (x.era ≡ s.era)
              × (sig : C.Signature) × (validate B s (record { vote = x; voter = j; sig = sig })
                  ≡ inr true))
            this
            (subst
              (λ i.
                (sv.vote.era ≡ s.era)
                × (sig : C.Signature) × (validate B s
                      (record { vote = sv.vote; voter = i; sig = sig })
                    ≡ inr true))
              ((==_iff sv.voter j).0 same) (era, sv.sig, valid))
      | inr other ↦ h j v (sym (get-insert_other sv.voter sv.vote s.committed j other) ∙ e)
    ],
  )
    where
      higher :
          (j : NodeId) (v : Vote C)
          → get s.committed j ≡ some v
          → sv.voter ≡ j
          → v.num < sv.vote.num
      higher j v e same =
          let here : get s.committed sv.voter ≡ some v = rw same e in
          let low : leb sv.vote.num v.num ≡ false = sym (ap (has_num sv.vote.num) here) ∙ newer in
          ground (arith, low)

  -- What the test of a vote leads to.
  if_valid-Counts :
      (r : B.BincodeError ⊎ Bool) (id : NodeId) (fault : FaultKind) (accepted s : VoteCounter C)
      → (r ≡ inr true → Counts s accepted)
      → Counts s (if_valid B r id fault accepted s).1
  unfolding if_valid
  if_valid-Counts (inl e) id fault accepted s h = Counts-none s
  if_valid-Counts (inr true) id fault accepted s h = h refl
  if_valid-Counts (inr false) id fault accepted s h = Counts-none s

  validated :
      (sv : SignedVote C) (s : VoteCounter C)
      → ((sv.vote.era == s.era) ≡ true) ⊎ ((sv.vote.era == s.era) ≡ false)
      → validate_era B s sv ≡ inr true
      → ((sv.vote.era == s.era) ≡ true) × (validate B s sv ≡ inr true)
  unfolding validate_era
  validated sv s (inl now) valid =
      (now, sym (ap (λ b. if b then validate B s sv else inr false) now) ∙ valid)
  validated sv s (inr other) valid =
      let refused = sym (ap (λ b. if b then validate B s sv else inr false) other) ∙ valid in
      absurd (ground (arith, refused))

  add_committed_vote-Counts :
      (id : NodeId) (sv : SignedVote C) (s : VoteCounter C)
      → Counts s (add_committed_vote B id sv s).1
  unfolding add_committed_vote
  add_committed_vote-Counts id sv s =
      elim (Bool-cases (has_num sv.vote.num (get s.committed sv.voter))) [
        | inl old ↦ rw (old, add_committed_vote) (Counts-none s)
        | inr newer ↦
            rw (newer, add_committed_vote)
              (if_valid-Counts (validate_era B s sv) id invalid_committed_vote _ s (λ valid.
                let (era, signed) = validated sv s (Bool-cases (sv.vote.era == s.era)) valid in
                accepted-Counts sv s newer ((==_iff sv.vote.era s.era).0 era) signed))
      ]

  add_committed_votes-Counts :
      (id : NodeId) (svs : List (SignedVote C)) (s : VoteCounter C)
      → Counts s (add_committed_votes B id svs s).1
  unfolding add_committed_votes
  add_committed_votes-Counts id [] s = Counts-none s
  add_committed_votes-Counts id (sv ∷ svs) s =
      first (add_committed_vote B id sv s) (add_committed_vote-Counts id sv s)
        (add_committed_votes-Counts id svs)
    where
      rest :
          (l : FaultLog FaultKind) (t : VoteCounter C)
          (r : Outcome (Error C B) (FaultLog FaultKind) × VoteCounter C)
          → Counts t r.1
          → Counts t (and_then r (λ m. return (extend l m))).1
      rest l t (ok m, u) h = h
      rest l t (err e, u) h = h
      rest l t (panicked, u) h = h
      rest l t (exhausted, u) h = h

      first :
          (r : Outcome (Error C B) (FaultLog FaultKind) × VoteCounter C)
          → Counts s r.1
          → ((t : VoteCounter C) → Counts t (add_committed_votes B id svs t).1)
          → Counts s (and_then r (λ l. add_committed_votes B id svs >>= λ m. return (extend l m))).1
      first (ok l, t) h ih =
          Counts-append s t _ h (rest l t (add_committed_votes B id svs t) (ih t))
      first (err e, t) h ih = h
      first (panicked, t) h ih = h
      first (exhausted, t) h ih = h

-- What a counter is told.
pub data Event (C : Crypto) : Type 0 where
  cast : Change C → Event C
  receive : NodeId → SignedVote C → Event C
  commit : NodeId → List (SignedVote C) → Event C

module _ {C : Crypto} (B : Ballots C) where
  -- The state after a call, whose error the caller drops, and after a sequence of calls.
  unfoldable pub on_event : Event C → VoteCounter C → VoteCounter C
  on_event (cast change) s = (sign_vote_for B change s).1
  on_event (receive id sv) s = (add_pending_vote B id sv s).1
  on_event (commit id svs) s = (add_committed_votes B id svs s).1

  unfoldable pub run : List (Event C) → VoteCounter C → VoteCounter C
  run [] s = s
  run (e ∷ es) s = run es (on_event e s)

  sign_vote_for-Counts :
      (change : Change C) (s : VoteCounter C) → Counts B s (sign_vote_for B change s).1
  unfolding sign_vote_for validate
  sign_vote_for-Counts change s = elim (sum_cases (B.serialize (own_vote B s change))) [
    | inl (e, bad) ↦ rw (bad, sign_vote_for) (Counts-none B s)
    | inr (ser, good) ↦ rw (good, sign_vote_for) (λ j v e. (v, e, inl refl), λ h. h)
  ]

  add_pending_vote-Counts :
      (id : NodeId) (sv : SignedVote C) (s : VoteCounter C)
      → Counts B s (add_pending_vote B id sv s).1
  unfolding add_pending_vote validate
  add_pending_vote-Counts id sv s =
      elim (Bool-cases
        (not (sv.vote.era == s.era) || has_num sv.vote.num (vote_of (get s.pending sv.voter)))) [
          | inl old ↦ rw (old, add_pending_vote) (Counts-none B s)
          | inr newer ↦
              rw (newer, add_pending_vote)
                (if_valid-Counts B (validate B s sv) id invalid_vote_signature _ s
                  (λ valid. (λ j v e. (v, e, inl refl), λ h. h)))
        ]

  on_event-Counts : (e : Event C) (s : VoteCounter C) → Counts B s (on_event e s)
  unfolding on_event
  on_event-Counts (commit id svs) s = add_committed_votes-Counts B id svs s
  on_event-Counts (cast change) s = sign_vote_for-Counts change s
  on_event-Counts (receive id sv) s = add_pending_vote-Counts id sv s

  -- Whatever a counter of votes is told, in whatever order, errors included: the committed vote
  -- of a voter stays or gives way to one of the voter with a higher number; and if every
  -- committed vote is of the era and had a valid signature of its voter, as in a new counter,
  -- that stays so.
  pub run-Counts : (es : List (Event C)) (s : VoteCounter C) → Counts B s (run es s)
  unfolding run
  run-Counts [] s = Counts-none B s
  run-Counts (e ∷ es) s =
      Counts-append B s (on_event e s) (run es (on_event e s)) (on_event-Counts e s)
        (run-Counts es (on_event e s))
