-- ===== src/NetworkInfo/Tests.antt =====
-- Networks of four nodes and of none, and the theorems at concrete inputs.
use hbbft.Prelude.{
  ℕ, ◌+◌, ◌*◌, ◌<◌, ◌≤◌, ◌≡◌, ◌↔◌, ◌⊎◌, refl, subst, inl, inr, none, some, [], ◌∷◌, arith, count,
  ltb, ◌==◌, ◌&&◌, true, false,
}
use hbbft.Samples.{toy, four_keys, four_nodes}
use hbbft.Util.{max_faulty, max_faulty-greatest}
use hbbft.NetworkInfo.{NetworkInfo, new, all_ids}
use hbbft.NetworkInfo.Laws.{IsWellFormed, new-IsWellFormed}
use hbbft.NetworkInfo.Quorums.{quorum_overlap}
use hbbft.Prelude.BTreeSet.{contains}

max_faulty-greatest_example : (max_faulty 10 ≡ some 3) ↔ ((3 * 3 < 10) × (10 ≤ 3 * 3 + 3))
max_faulty-greatest_example = max_faulty-greatest 10 3

new_four : new {C = toy} 10 (some 7) 9 8 four_keys ≡ some four_nodes
unfolding new max_faulty hbbft.Prelude.BTreeMap.get
new_four = refl

new-IsWellFormed_example :
    ((four_keys ≡ []) × (new {C = toy} 10 (some 7) 9 8 four_keys ≡ none))
    ⊎ ((n : NetworkInfo toy) × (new {C = toy} 10 (some 7) 9 8 four_keys ≡ some n) × IsWellFormed n)
new-IsWellFormed_example = new-IsWellFormed {C = toy} 10 (some 7) 9 8 four_keys

four_nodes-IsWellFormed : IsWellFormed four_nodes
four_nodes-IsWellFormed = elim new-IsWellFormed_example [
  | inl none_there ↦ absurd (let e = none_there.0 in cc)
  | inr made ↦
      let (n, e, w) = made in
      let same : n ≡ four_nodes = cc (e, new_four) in subst IsWellFormed same w
]

-- Nodes 10, 20 and 30, nodes 20, 30 and 40, and node 30 is faulty.
quorum_overlap_example :
    (four_nodes.num_faulty < count (λ i. ltb i 35 && ltb 15 i) (all_ids four_nodes))
    × ((i : ℕ) × (contains (all_ids four_nodes) i ≡ true)
        × (ltb i 35 ≡ true)
        × (ltb 15 i ≡ true)
        × ((i == 30) ≡ false))
quorum_overlap_example =
    quorum_overlap four_nodes four_nodes-IsWellFormed (λ i. ltb i 35) (λ i. ltb 15 i) (λ i. i == 30)
      (omega arith) (omega arith) (omega arith)
