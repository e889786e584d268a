-- ===== src/BinaryAgreement/Tests.antt =====
-- Node 10 of four agrees with the others, and the theorems at concrete inputs.
use hbbft.Prelude.{
  ◌↔◌, if◌then◌else◌, ◌++◌, ◌||◌, bool_eq, arith, ℕ, ◌≡◌, refl, ◌⊎◌, inr, List, [], ◌∷◌, Bool, true,
  false, some, none, Option,
}
use hbbft.Samples.{toy, four_nodes}
use hbbft.BinaryAgreement.BoolSet.{
  only_true, only_false, both, is_subset, contains, insert, elements,
}
use hbbft.BinaryAgreement.BoolSet.Laws.{IsValid, contains-insert, is_subset_iff, elements_lem}
use hbbft.BinaryAgreement.SbvBroadcast.{bval, aux}
use hbbft.BinaryAgreement.Content.{sbv_broadcast, conf, term}
use hbbft.BinaryAgreement.Instance.{BinaryAgreement, new}
use hbbft.BinaryAgreement.Decides.{
  Event, input, receive, history, all_outputs, Settles, history-Settles,
}

abbrev serialize_toy : ℕ → ℕ → List ℕ ⊎ List ℕ
serialize_toy id epoch = inr (id ∷ epoch ∷ [])

abbrev started : BinaryAgreement toy ℕ
started = new four_nodes 5

-- Two nodes ended with `true`.
abbrev two_terms : List (Event toy)
two_terms =
    input false
    ∷ receive 20 (record { epoch = 0; content = term true })
    ∷ receive 30 (record { epoch = 0; content = term true })
    ∷ receive 40 (record { epoch = 0; content = term true })
    ∷ []

-- The coin of the first epoch is `true`, and so is the value of all nodes.
abbrev all_true : List (Event toy)
all_true =
    input true
    ∷ receive 20 (record { epoch = 0; content = sbv_broadcast (bval true) })
    ∷ receive 30 (record { epoch = 0; content = sbv_broadcast (bval true) })
    ∷ receive 20 (record { epoch = 0; content = sbv_broadcast (aux true) })
    ∷ receive 30 (record { epoch = 0; content = sbv_broadcast (aux true) })
    ∷ receive 20 (record { epoch = 0; content = conf only_true })
    ∷ receive 30 (record { epoch = 0; content = conf only_true })
    ∷ []

decision_of : List (Event toy) → List Bool × Option Bool
decision_of es = let (rs, s) = history serialize_toy 9 es started in (all_outputs rs, s.decision)

two_terms_decide : decision_of two_terms ≡ (true ∷ [], some true)
unfolding decision_of history hbbft.BinaryAgreement.Handlers.propose
    hbbft.BinaryAgreement.Handlers.handle_message new hbbft.BinaryAgreement.SbvBroadcast.send_bval
    hbbft.BinaryAgreement.BoolSet.insert hbbft.BinaryAgreement.SbvBroadcast.new
    hbbft.Prelude.BTreeSet.contains hbbft.Prelude.BTreeSet.insert
    hbbft.BinaryAgreement.SbvBroadcast.handle_bval
two_terms_decide = refl

all_true_decides : decision_of all_true ≡ (true ∷ [], some true)
unfolding decision_of history hbbft.BinaryAgreement.Handlers.propose
    hbbft.BinaryAgreement.Handlers.handle_message new hbbft.BinaryAgreement.SbvBroadcast.send_bval
    hbbft.BinaryAgreement.BoolSet.insert hbbft.BinaryAgreement.SbvBroadcast.new
    hbbft.Prelude.BTreeSet.contains hbbft.Prelude.BTreeSet.insert
    hbbft.BinaryAgreement.SbvBroadcast.count_aux hbbft.BinaryAgreement.BoolSet.elements
    hbbft.BinaryAgreement.BoolSet.definite
all_true_decides = refl

history-Settles_example :
    let h = history serialize_toy 9 two_terms started in Settles started h.0 h.1
history-Settles_example = history-Settles serialize_toy 9 two_terms started

contains-insert_example :
    contains (insert true only_false).0 true ≡ (bool_eq true true || contains only_false true)
contains-insert_example = contains-insert true only_false true

is_subset_iff_example : (is_subset only_true both ≡ true) ↔ (
    IsValid only_true
    × (contains only_true true ≡ true → contains both true ≡ true)
    × (contains only_true false ≡ true → contains both false ≡ true))
is_subset_iff_example = is_subset_iff only_true both (omega arith)

elements_lem_example :
    elements both
    ≡ (if contains both true then true ∷ [] else [])
      ++ (if contains both false then false ∷ [] else [])
elements_lem_example = elements_lem both
