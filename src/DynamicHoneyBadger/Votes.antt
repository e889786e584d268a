-- ===== src/DynamicHoneyBadger/Votes.antt =====
-- src/dynamic_honey_badger/votes.rs, and the errors and faults of
-- src/dynamic_honey_badger/error.rs that concern votes: a counter of votes for changes.
use hbbft.Prelude.{
  ℕ, suc, ◌⊎◌, inl, inr, Bool, true, false, not, ◌||◌, Option, none, some, List, [], ◌∷◌, keep,
  if◌then◌else◌, ltb, leb, ◌==◌, add_u64, M, ok, err, ◌>>=◌, return,
}
use hbbft.Prelude.BTreeMap.{BTreeMap, get, insert, values}
use hbbft.FaultLog.{NodeId, FaultLog, init, extend}
use hbbft.Crypto.{Crypto}
use hbbft.NetworkInfo.{NetworkInfo, public_key}
use hbbft.DynamicHoneyBadger.Change.{Change, change_eq}

pub record Vote (C : Crypto) : Type 0 where
  pub change : Change C
  pub era : ℕ
  pub num : ℕ

pub record SignedVote (C : Crypto) : Type 0 where
  pub vote : Vote C
  pub voter : NodeId
  pub sig : C.Signature

-- What the votes take from elsewhere: the equality of keys, the serialization by `bincode`, and
-- `SecretKey::sign` and `PublicKey::verify`.
pub record Ballots (C : Crypto) : Type 1 where
  pub BincodeError : Type 0
  pub same_key : C.PublicKey → C.PublicKey → Bool
  pub serialize : Vote C → BincodeError ⊎ List ℕ
  pub sign : C.SecretKey → List ℕ → C.Signature
  pub verify : C.PublicKey → C.Signature → List ℕ → Bool

pub data Error (C : Crypto) (B : Ballots C) : Type 0 where
  serialize_vote : B.BincodeError → Error C B

pub data FaultKind : Type 0 where
  invalid_vote_signature : FaultKind
  invalid_committed_vote : FaultKind

pub record VoteCounter (C : Crypto) : Type 0 where
  pub netinfo : NetworkInfo C
  pub era : ℕ
  pub pending : BTreeMap (SignedVote C)
  pub committed : BTreeMap (Vote C)

abbrev pub Vc : (C : Crypto) → Ballots C → Type 0 → Type 0
Vc C B A = M (VoteCounter C) (Error C B) A

module _ {C : Crypto} where
  unfoldable pub new : NetworkInfo C → ℕ → VoteCounter C
  new netinfo era = record { netinfo = netinfo; era = era; pending = []; committed = [] }

  -- Whether a voter's vote has at least the number.
  abbrev pub has_num : ℕ → Option (Vote C) → Bool
  has_num num none = false
  has_num num (some vote) = leb num vote.num

  abbrev pub vote_of : Option (SignedVote C) → Option (Vote C)
  vote_of none = none
  vote_of (some sv) = some sv.vote

  abbrev pub next_num : Option (Vote C) → ℕ
  next_num none = 0
  next_num (some vote) = add_u64 vote.num 1

  unfoldable pub pending_votes : VoteCounter C → List (SignedVote C)
  pending_votes s =
      keep (λ sv. not (has_num sv.vote.num (get s.committed sv.voter))) (values s.pending)

-- The votes for a change that were counted, in a map with the changes for keys.
abbrev pub tally : {K : Type 0} → (K → K → Bool) → List (K × ℕ) → K → ℕ
tally eq [] c = 0
tally eq ((d, n) ∷ counts) c = if eq d c then n else tally eq counts c

-- The entry of a change, incremented.
abbrev pub bump : {K : Type 0} → (K → K → Bool) → K → List (K × ℕ) → List (K × ℕ)
bump eq c [] = (c, 1) ∷ []
bump eq c ((d, n) ∷ counts) = if eq d c then (d, suc n) ∷ counts else (d, n) ∷ bump eq c counts

-- The loop of `compute_winner` over the changes that are voted for.
abbrev pub count_votes : {K : Type 0} → (K → K → Bool) → ℕ → List K → List (K × ℕ) → Option K
count_votes eq f [] counts = none
count_votes eq f (c ∷ cs) counts =
    let rest = count_votes eq f cs (bump eq c counts) in
    if ltb f (tally eq (bump eq c counts) c) then some c else rest

abbrev pub changes : {C : Crypto} → List (Vote C) → List (Change C)
changes [] = []
changes (vote ∷ votes) = vote.change ∷ changes votes

module _ {C : Crypto} (B : Ballots C) where
  unfoldable pub compute_winner : VoteCounter C → Option (Change C)
  compute_winner s =
      count_votes (change_eq B.same_key) s.netinfo.num_faulty (changes (values s.committed)) []

  unfoldable pub verifies : Option C.PublicKey → C.Signature → List ℕ → Bool
  verifies none sig ser_vote = false
  verifies (some pk) sig ser_vote = B.verify pk sig ser_vote

  -- `validate`.
  unfoldable pub validate : VoteCounter C → SignedVote C → B.BincodeError ⊎ Bool
  validate s signed_vote = elim (B.serialize signed_vote.vote) [
    | inl e ↦ inl e
    | inr ser_vote ↦
        inr (verifies (public_key s.netinfo signed_vote.voter) signed_vote.sig ser_vote)
  ]

  -- The own vote, with the number after the one that is pending.
  unfoldable pub own_vote : VoteCounter C → Change C → Vote C
  own_vote s change = record {
    change = change;
    era = s.era;
    num = next_num (vote_of (get s.pending s.netinfo.our_id));
  }

  unfoldable pub sign_vote_for : Change C → Vc C B (SignedVote C)
  sign_vote_for change s =
      let voter = s.netinfo.our_id in
      let vote = own_vote s change in
      elim (B.serialize vote) [
        | inl e ↦ (err (serialize_vote e), s)
        | inr ser_vote ↦
            let signed_vote : SignedVote C = record {
              vote = vote;
              voter = voter;
              sig = B.sign s.netinfo.secret_key ser_vote;
            } in
            (ok signed_vote, record s { pending = insert voter signed_vote s.pending })
      ]

  -- What follows from the test of a vote: an error, a report, or the new state.
  unfoldable pub if_valid :
      B.BincodeError ⊎ Bool → NodeId → FaultKind → VoteCounter C → Vc C B (FaultLog FaultKind)
  if_valid (inl e) id fault accepted s = (err (serialize_vote e), s)
  if_valid (inr true) id fault accepted s = (ok [], accepted)
  if_valid (inr false) id fault accepted s = (ok (init id fault), s)

  unfoldable pub add_pending_vote : NodeId → SignedVote C → Vc C B (FaultLog FaultKind)
  add_pending_vote sender_id signed_vote s =
      if not (signed_vote.vote.era == s.era)
        || has_num signed_vote.vote.num (vote_of (get s.pending signed_vote.voter))
      then (ok [], s)
      else if_valid (validate s signed_vote) sender_id invalid_vote_signature
          (record s { pending = insert signed_vote.voter signed_vote s.pending }) s

  -- The signature is not looked at where the era is wrong.
  unfoldable pub validate_era : VoteCounter C → SignedVote C → B.BincodeError ⊎ Bool
  validate_era s signed_vote =
      if signed_vote.vote.era == s.era then validate s signed_vote else inr false

  unfoldable pub add_committed_vote : NodeId → SignedVote C → Vc C B (FaultLog FaultKind)
  add_committed_vote proposer_id signed_vote s =
      if has_num signed_vote.vote.num (get s.committed signed_vote.voter)
      then (ok [], s)
      else if_valid (validate_era s signed_vote) proposer_id invalid_committed_vote
          (record s { committed = insert signed_vote.voter signed_vote.vote s.committed }) s

  unfoldable pub add_committed_votes : NodeId → List (SignedVote C) → Vc C B (FaultLog FaultKind)
  add_committed_votes proposer_id [] = return []
  add_committed_votes proposer_id (signed_vote ∷ signed_votes) = do
    first ← add_committed_vote proposer_id signed_vote
    rest ← add_committed_votes proposer_id signed_votes
    return (extend first rest)
