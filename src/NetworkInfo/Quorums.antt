-- ===== src/NetworkInfo/Quorums.antt =====
-- src/network_info.rs: what `num_correct` is for. A set of nodes is a test of node IDs, and its size
-- the number of the IDs of the network that pass.
use hbbft.Prelude.{
  ◌+◌, ◌≤◌, ◌<◌, ◌≡◌, refl, inl, inr, Bool, true, false, not, ◌&&◌, List, [], ◌∷◌, length, count,
  arith, Bool-cases, ==_refl,
}
use hbbft.Prelude.BTreeSet.{contains}
use hbbft.FaultLog.{NodeId}
use hbbft.Crypto.{Crypto}
use hbbft.NetworkInfo.{NetworkInfo, all_ids, num_correct}
use hbbft.NetworkInfo.Laws.{IsWellFormed}

-- Inclusion and exclusion.
count_both :
    (p q : NodeId → Bool) (ids : List NodeId)
    → count p ids + count q ids ≤ count (λ i. p i && q i) ids + length ids
count_both p q [] = omega arith
count_both p q (i ∷ ids) = ground (arith, count_both p q ids)

-- A set with more elements than another has one that is not in the other.
one_more :
    (p r : NodeId → Bool) (ids : List NodeId)
    → count r ids < count p ids
    → (i : NodeId) × (contains ids i ≡ true) × (p i ≡ true) × (r i ≡ false)
unfolding contains
one_more p r [] h = absurd (omega arith)
one_more p r (j ∷ ids) h = elim (Bool-cases (p j && not (r j))) [
  | inl here ↦ (j, rw (contains, ==_refl j) refl, ground arith, ground arith)
  | inr not_here ↦
      let (i, member, inside, outside) = one_more p r ids (ground arith) in
      (i, ground (arith, member), inside, outside)
]

-- In a well-formed network, two sets of num_correct nodes or more have more than num_faulty nodes
-- in common; and whichever nodes are faulty, no more than num_faulty, there is a node of the
-- network in both sets that is not faulty.
pub quorum_overlap :
    {C : Crypto} (n : NetworkInfo C)
    → IsWellFormed n
    → (p q faulty : NodeId → Bool) → num_correct n ≤ count p (all_ids n)
    → num_correct n ≤ count q (all_ids n)
    → count faulty (all_ids n) ≤ n.num_faulty
    → (n.num_faulty < count (λ i. p i && q i) (all_ids n))
      × ((i : NodeId) × (contains (all_ids n) i ≡ true)
          × (p i ≡ true)
          × (q i ≡ true)
          × (faulty i ≡ false))
quorum_overlap n w p q faulty enough_p enough_q few =
    let both = count_both p q (all_ids n) in
    let common : n.num_faulty < count (λ i. p i && q i) (all_ids n) =
      omega (arith, both, w.third, w.counted) in
    let (i, member, inside, honest) = one_more (λ i. p i && q i) faulty (all_ids n) (omega arith) in
    (common, (i, member, ground arith, ground arith, honest))
