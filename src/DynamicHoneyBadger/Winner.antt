-- ===== src/DynamicHoneyBadger/Winner.antt =====
-- src/dynamic_honey_badger/votes.rs: the change that wins.
use hbbft.Prelude.{
  ℕ, ◌+◌, ◌≤◌, ◌<◌, ◌≡◌, ◌↔◌, refl, sym, ap, ◌∙◌, inl, inr, Bool, true, false, none, some, List, [],
  ◌∷◌, flag, count, ltb, ltb→lt, Bool-cases, arith,
}
use hbbft.Prelude.BTreeMap.{values}
use hbbft.Crypto.{Crypto}
use hbbft.DynamicHoneyBadger.Change.{Change, change_eq, change_eq_iff}
use hbbft.DynamicHoneyBadger.Votes.{
  VoteCounter, Ballots, tally, bump, count_votes, changes, compute_winner,
}

module _ {K : Type 0} (eq : K → K → Bool) (law : (c d : K) → (eq c d ≡ true) ↔ (c ≡ d)) where
  eq_refl : (c : K) → eq c c ≡ true
  eq_refl c = (law c c).1 refl

  -- The second change is the same or not, whichever of two equal ones it is compared with.
  tally-bump :
      (c : K) (counts : List (K × ℕ)) (d : K)
      → tally eq (bump eq c counts) d ≡ flag (eq c d) + tally eq counts d
  tally-bump c [] d = elim (Bool-cases (eq c d)) [ inl e ↦ rw e refl | inr e ↦ rw e refl ]
  tally-bump c ((b, n) ∷ counts) d = elim (Bool-cases (eq b c)) [
    | inl same ↦
        let here : b ≡ c = (law b c).0 same in
        rw same (
          rw here (elim (Bool-cases (eq c d)) [
            | inl e ↦ rw e (omega arith)
            | inr e ↦ rw e (omega arith)
          ]))
    | inr other ↦ rw other (elim (Bool-cases (eq b d)) [
      | inl found ↦
          let apart : eq c d ≡ false = elim (Bool-cases (eq c d)) [
            | inl e ↦
                let same : eq b c ≡ true = (law b c).1 ((law b d).0 found ∙ sym ((law c d).0 e)) in
                absurd (ground (arith, same, other))
            | inr e ↦ e
          ] in
          rw found (rw apart (omega arith))
      | inr later ↦ rw later (tally-bump c counts d)
    ])
  ]

  still :
      (f : ℕ) (c : K) (counts : List (K × ℕ))
      → ((d : K) → tally eq counts d ≤ f)
      → ltb f (tally eq (bump eq c counts) c) ≡ false
      → (d : K) → tally eq (bump eq c counts) d ≤ f
  still f c counts h few d = elim (Bool-cases (eq c d)) [
    | inl same ↦ rw (← (law c d).0 same) (ground arith)
    | inr other ↦
        let kept = tally-bump c counts d ∙ ap (λ b. flag b + tally eq counts d) other in
        omega (arith, kept, h d)
  ]

  -- How many votes of a list are for a change.
  abbrev votes_for : List K → K → ℕ
  votes_for cs c = count (λ d. eq d c) cs

  count_votes_lem :
      (f : ℕ) (cs : List K) (counts : List (K × ℕ))
      → ((d : K) → tally eq counts d ≤ f)
      → (count_votes eq f cs counts ≡ none → (d : K) → tally eq counts d + votes_for cs d ≤ f)
        × ((w : K) → count_votes eq f cs counts ≡ some w → f < tally eq counts w + votes_for cs w)
  count_votes_lem f [] counts h = (λ e d. omega (arith, h d), λ w e. absurd (ground arith))
  count_votes_lem f (c ∷ cs) counts h = elim (Bool-cases (ltb f (tally eq (bump eq c counts) c))) [
    | inl wins ↦
        let most = ltb→lt f (tally eq (bump eq c counts) c) wins in
        rw (wins, count_votes)
          (
            λ e d. absurd (ground (arith, e)),
            λ w e.
                let same : c ≡ w = ground (arith, e) in
                rw (← same) (omega (arith, most, tally-bump c counts c)),
          )
    | inr few ↦
        let (all_below, winner) =
          count_votes_lem f cs (bump eq c counts) (still f c counts h few) in
        rw (few, count_votes)
          (
            λ e d. omega (arith, all_below e d, tally-bump c counts d),
            λ w e. omega (arith, winner w e, tally-bump c counts w),
          )
  ]

module _ {C : Crypto} (B : Ballots C) where
  -- Where the equality of keys decides it: if there is a winner, more than `num_faulty` of the
  -- committed votes are for it, and if there is none, no change has more than `num_faulty` of
  -- them.
  pub compute_winner_lem :
      (s : VoteCounter C)
      → ((k l : C.PublicKey) → (B.same_key k l ≡ true) ↔ (k ≡ l))
      → let votes = changes (values s.committed) in
        ((w : Change C)
          → compute_winner B s ≡ some w
          → s.netinfo.num_faulty < count (λ d. change_eq B.same_key d w) votes)
        × (compute_winner B s ≡ none
            → (c : Change C) → count (λ d. change_eq B.same_key d c) votes ≤ s.netinfo.num_faulty)
  unfolding compute_winner
  compute_winner_lem s law =
      let (none_won, won) =
        count_votes_lem (change_eq B.same_key) (change_eq_iff B.same_key law) s.netinfo.num_faulty
          (changes (values s.committed)) [] (λ d. omega arith) in
      (λ w e. omega (arith, won w e), λ e c. omega (arith, none_won e c))
