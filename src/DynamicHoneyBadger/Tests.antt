-- ===== src/DynamicHoneyBadger/Tests.antt =====
-- A counter of votes of four nodes, and the theorems at concrete inputs.
use hbbft.Prelude.{ℕ, ◌<◌, ◌≤◌, ◌≡◌, inr, none, some, List, [], ◌∷◌, count, ◌==◌, ==_iff}
use hbbft.Prelude.BTreeMap.{values}
use hbbft.Samples.{toy, four_nodes}
use hbbft.HoneyBadger.Schedule.{never, every_nth_epoch}
use hbbft.DynamicHoneyBadger.Change.{Change, node_change, encryption_schedule, change_eq}
use hbbft.DynamicHoneyBadger.Votes.{Vote, SignedVote, Ballots, VoteCounter, changes, compute_winner}
use hbbft.DynamicHoneyBadger.Winner.{compute_winner_lem}
use hbbft.DynamicHoneyBadger.Ballot.{Counts, Event, cast, receive, commit, run, run-Counts}

-- A signature is the key that made it.
abbrev ballots : Ballots toy
ballots = record {
  BincodeError = ℕ;
  same_key = λ k l. k == l;
  serialize = λ vote. inr (vote.era ∷ vote.num ∷ []);
  sign = λ key bytes. key;
  verify = λ key sig bytes. key == sig;
}

abbrev vote_for : Change toy → Vote toy
vote_for c = record { change = c; era = 2; num = 1 }

-- Two of the four nodes want no encryption, and one other nodes.
abbrev voted : VoteCounter toy
voted = record {
  netinfo = four_nodes;
  era = 2;
  pending = [];
  committed =
      (10, vote_for (encryption_schedule never))
      ∷ (20, vote_for (node_change ((10, 0) ∷ [])))
      ∷ (30, vote_for (encryption_schedule never))
      ∷ [];
}

compute_winner_example :
    let votes = changes (values voted.committed) in
    ((w : Change toy)
      → compute_winner ballots voted ≡ some w
      → 1 < count (λ d. change_eq ballots.same_key d w) votes)
    × (compute_winner ballots voted ≡ none
        → (c : Change toy) → count (λ d. change_eq ballots.same_key d c) votes ≤ 1)
compute_winner_example = compute_winner_lem ballots voted ==_iff

signed : ℕ → ℕ → SignedVote toy
signed voter n = record {
  vote = record { change = encryption_schedule (every_nth_epoch n); era = 2; num = n };
  voter = voter;
  sig = 0;
}

abbrev events : List (Event toy)
events =
    cast (encryption_schedule never)
    ∷ receive 10 (signed 10 3)
    ∷ commit 20 (signed 10 3 ∷ signed 10 4 ∷ [])
    ∷ []

run-Counts_example : Counts ballots voted (run ballots events voted)
run-Counts_example = run-Counts ballots events voted
