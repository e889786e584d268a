-- ===== src/Subset/History.antt =====
-- src/subset/subset.rs: an instance through any sequence of proposals and messages.
use hbbft.Prelude.{
  ℕ, ◌+◌, ◌≤◌, ◌≡◌, refl, ap, ◌∙◌, Bool, true, false, ◌||◌, Option-cases, Bool-cases, inl, inr,
  flag, count, count-append, arith, Outcome, ok, err, panicked, exhausted, List, [], ◌∷◌, ◌++◌,
  ◌==◌, ◌⊎◌, map_ok, if◌then◌else◌, ltb, ◌>>=◌, return, and_then,
}
use hbbft.Prelude.BTreeMap.{get, keys}
use hbbft.FaultLog.{NodeId}
use hbbft.Traits.{default, join}
use hbbft.Crypto.{Crypto}
use hbbft.NetworkInfo.{num_correct}
use hbbft.Broadcast.Merkle.{Digest}
use hbbft.Broadcast.Coding.{ReedSolomon}
use hbbft.Subset.Proposal as Proposal
use hbbft.Subset.Proposal.{BaSessionId, Error, ProposalState, Message, Ps}
use hbbft.Subset.Once.{Settled}
use hbbft.Subset.Instance.{
  SubsetOutput, done, Step, Subset, Su, convert_step, with_proposal, vote_remaining, try_output,
  finish, count_accepted, all_complete, propose, handle_message,
}
use hbbft.Subset.Accounts.{
  is_contribution, is_done, outputs_of, settled, settled-set, keys-set, settled-le, States-one,
  vote_all-States, propose-Settled, handle_message-Settled, convert_step-done,
}

converted-done :
    {C : Crypto} (p : NodeId) (r : Outcome (Error C) (Proposal.Step C))
    → count is_done (outputs_of (map_ok (convert_step p) r)) ≡ 0
converted-done p (ok step) = convert_step-done p step
converted-done p (err e) = refl
converted-done p panicked = refl
converted-done p exhausted = refl

-- What an instance is told.
pub data Event (C : Crypto) : Type 0 where
  input : List ℕ → Event C
  receive : NodeId → Message C → Event C

module _ {C : Crypto} {R : ReedSolomon} {S : Type 0} where
  -- The outputs of a call against the instance before and after it.
  pub record Counted (s : Subset C R S) (out : List SubsetOutput) (t : Subset C R S) : Type 0 where
    pub contributions :
        (id : NodeId)
        → count (is_contribution id) out + settled id s.proposal_states
          ≤ settled id t.proposal_states
    pub dones : count is_done out + flag s.decided ≤ flag t.decided
    pub proposers : keys t.proposal_states ≡ keys s.proposal_states

  Counted-none : (s : Subset C R S) → Counted s [] s
  Counted-none s = record {
    contributions = λ id. omega arith;
    dones = omega arith;
    proposers = refl;
  }

  Counted-append :
      {s t u : Subset C R S} {a b : List SubsetOutput}
      → Counted s a t
      → Counted t b u
      → Counted s (a ++ b) u
  Counted-append {a} {b} h k = record {
    contributions = λ id.
        omega
          (arith, h.contributions id, k.contributions id, count-append (is_contribution id) a b);
    dones = omega (arith, h.dones, k.dones, count-append is_done a b);
    proposers = k.proposers ∙ h.proposers;
  }

  -- Outputs that are lost.
  Counted-lost : {s t : Subset C R S} {a : List SubsetOutput} → Counted s a t → Counted s [] t
  Counted-lost h = record {
    contributions = λ id. omega (arith, h.contributions id);
    dones = omega (arith, h.dones);
    proposers = h.proposers;
  }

  abbrev CallCounts : Subset C R S → Outcome (Error C) (Step C) × Subset C R S → Type 0
  CallCounts s r = Counted s (outputs_of r.0) r.1

  -- The rule for a test between two calls.
  Counted_test :
      (b : Bool) (m k : Su C R S (Step C)) (s : Subset C R S)
      → CallCounts s (m s)
      → CallCounts s (k s)
      → CallCounts s ((if b then m else k) s)
  Counted_test true m k s h l = h
  Counted_test false m k s h l = l

  -- A call of a proposal state.
  with_proposal-Counted :
      (p : NodeId) (f : Ps C R S (Proposal.Step C)) (s : Subset C R S)
      → ((ps : ProposalState C R S) → Settled ps (f ps))
      → Counted s
          (outputs_of (map_ok (convert_step p) (with_proposal p f s).0))
          (with_proposal p f s).1
  unfolding with_proposal
  with_proposal-Counted p f s h = elim (Option-cases (get s.proposal_states p)) [
    | inl unknown ↦ rw (unknown, with_proposal) (Counted-none s)
    | inr (ps, known) ↦
        rw (known, with_proposal)
          (record {
            contributions = λ id. omega (
              arith,
              States-one p ps (f ps) (h ps) id,
              settled-set id p ps (f ps).1 s.proposal_states known,
            );
            dones = omega (arith, converted-done p (f ps).0);
            proposers = keys-set p (f ps).1 s.proposal_states;
          })
  ]

  -- A call, and another after it whose step is joined.
  Counted-join :
      (p : NodeId) (s : Subset C R S) (r : Outcome (Error C) (Proposal.Step C) × Subset C R S)
      (k : Su C R S (Step C))
      → Counted s (outputs_of (map_ok (convert_step p) r.0)) r.1
      → ((t : Subset C R S) → CallCounts t (k t))
      → CallCounts s
          (and_then r (λ prop_step. k >>= λ out. return (join (convert_step p prop_step) out)))
  Counted-join p s (ok step, t) k h l = go (k t) (l t)
    where
      go :
          (q : Outcome (Error C) (Step C) × Subset C R S)
          → CallCounts t q
          → CallCounts s (and_then q (λ out. return (join (convert_step p step) out)))
      go (ok out, u) m = Counted-append h m
      go (err e, u) m = Counted-lost (Counted-append h m)
      go (panicked, u) m = Counted-lost (Counted-append h m)
      go (exhausted, u) m = Counted-lost (Counted-append h m)
  Counted-join p s (err e, t) k h l = h
  Counted-join p s (panicked, t) k h l = h
  Counted-join p s (exhausted, t) k h l = h

  finish-Counted :
      (s : Subset C R S) (r : Outcome (Error C) (Step C) × Subset C R S)
      → Counted s (outputs_of r.0) r.1
      → count is_done (outputs_of r.0) ≡ 0
      → s.decided ≡ false
      → CallCounts s (and_then r finish)
  unfolding finish
  finish-Counted s (ok step, t) h none_yet fresh = elim (Bool-cases (all_complete t)) [
    | inl finished ↦ rw finished (record {
      contributions = λ id.
          omega
            (arith, h.contributions id, count-append (is_contribution id) step.output (done ∷ []));
      dones = ground (arith, none_yet, fresh, count-append is_done step.output (done ∷ []));
      proposers = h.proposers;
    })
    | inr pending ↦ rw pending h
  ]
  finish-Counted s (err e, t) h none_yet fresh = h
  finish-Counted s (panicked, t) h none_yet fresh = h
  finish-Counted s (exhausted, t) h none_yet fresh = h

  module _ (sha3_256 : List ℕ → Digest) (serialize_id : BaSessionId S → ℕ → List ℕ ⊎ List ℕ)
      (fuel : ℕ) where
    vote_remaining-Counted :
        (s : Subset C R S)
        → let r = vote_remaining sha3_256 serialize_id fuel s in
          Counted s (outputs_of r.0) r.1 × (count is_done (outputs_of r.0) ≡ 0)
    unfolding vote_remaining
    vote_remaining-Counted s =
        let h = vote_all-States sha3_256 serialize_id fuel s.proposal_states in
        (
          record {
            contributions = h.contributions;
            dones = omega (arith, h.no_done);
            proposers = h.proposers;
          },
          h.no_done,
        )

    try_output-Counted : (s : Subset C R S) → CallCounts s (try_output sha3_256 serialize_id fuel s)
    unfolding try_output
    try_output-Counted s =
        elim (Bool-cases (s.decided || ltb (count_accepted s) (num_correct s.netinfo))) [
          | inl early ↦ rw early (Counted-none s)
          | inr go ↦
              let fresh : s.decided ≡ false = ground arith in
              rw go (elim (Bool-cases (count_accepted s == num_correct s.netinfo)) [
                | inl enough ↦
                    let (h, none_yet) = vote_remaining-Counted s in
                    rw enough (finish-Counted s _ h none_yet fresh)
                | inr other ↦
                    rw other (finish-Counted s (ok default, s) (Counted-none s) refl fresh)
              ])
        ]

    propose-Counted :
        (v : List ℕ) (s : Subset C R S) → CallCounts s (propose sha3_256 serialize_id fuel v s)
    unfolding propose
    propose-Counted v s =
        Counted_test s.netinfo.is_validator _ _ s
          (Counted-join s.netinfo.our_id s _ (try_output sha3_256 serialize_id fuel)
            (with_proposal-Counted s.netinfo.our_id _ s
              (propose-Settled sha3_256 serialize_id fuel v))
            try_output-Counted)
          (Counted-none s)

    handle_message-Counted :
        (id : NodeId) (msg : Message C) (s : Subset C R S)
        → CallCounts s (handle_message sha3_256 serialize_id fuel id msg s)
    unfolding handle_message
    handle_message-Counted id msg s =
        Counted-join msg.proposer_id s _ (try_output sha3_256 serialize_id fuel)
          (with_proposal-Counted msg.proposer_id _ s
            (handle_message-Settled sha3_256 serialize_id fuel id msg.content))
          try_output-Counted

    abbrev pub on_event : Event C → Su C R S (Step C)
    on_event (input v) = propose sha3_256 serialize_id fuel v
    on_event (receive id msg) = handle_message sha3_256 serialize_id fuel id msg

    -- All outputs of a sequence of calls, whose errors the caller drops.
    unfoldable pub history : List (Event C) → Subset C R S → List SubsetOutput × Subset C R S
    history [] s = ([], s)
    history (e ∷ es) s =
        let (first, t) = on_event e s in
        let (rest, u) = history es t in (outputs_of first ++ rest, u)

    on_event-Counted : (e : Event C) (s : Subset C R S) → CallCounts s (on_event e s)
    on_event-Counted (input v) s = propose-Counted v s
    on_event-Counted (receive id msg) s = handle_message-Counted id msg s

    history-Counted :
        (es : List (Event C)) (s : Subset C R S) → Counted s (history es s).0 (history es s).1
    unfolding history
    history-Counted [] s = Counted-none s
    history-Counted (e ∷ es) s =
        Counted-append (on_event-Counted e s) (history-Counted es (on_event e s).1)

    -- Whatever an instance is told, in whatever order, also when calls fail or run out of
    -- fuel: for a proposer that
    -- stands at most once among its proposal states, at most one contribution is output, and
    -- `Done` is output at most once, and not by an instance that has not decided.
    pub history-contributions :
        (es : List (Event C)) (s : Subset C R S) (id : NodeId)
        → count (λ k. k == id) (keys s.proposal_states) ≤ 1
        → (count (is_contribution id) (history es s).0 ≤ 1)
          × (count is_done (history es s).0 ≤ flag (history es s).1.decided)
    history-contributions es s id once =
        let h = history-Counted es s in
        let same : count (λ k. k == id) (keys (history es s).1.proposal_states)
            ≡ count (λ k. k == id) (keys s.proposal_states) =
          ap (λ ks. count (λ k. k == id) ks) h.proposers in
        (
          omega (arith, h.contributions id, settled-le id (history es s).1.proposal_states, same),
          omega (arith, h.dones),
        )
