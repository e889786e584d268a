-- ===== src/TransactionQueue/Tests.antt =====
-- A queue of numbers, and the theorems at concrete inputs.
use hbbft.Prelude.{
  ℕ, ◌≡◌, ◌≤◌, ◌⊎◌, zero, suc, arith, List, [], ◌∷◌, take, length, leb, ◌==◌, ==_iff, if◌then◌else◌,
  some,
}
use hbbft.TransactionQueue.{
  copies, remove_multiple, set_contains, choose, copies-remove_multiple, Chooses, choose_lem,
  copies-take-le,
}

abbrev queue : List ℕ
queue = 5 ∷ 3 ∷ 5 ∷ 7 ∷ []

copies-remove_multiple_example :
    copies (λ s t. s == t) 3 (remove_multiple (λ s t. s == t) (5 ∷ []) queue)
    ≡ (if set_contains (λ s t. s == t) (5 ∷ []) 3 then 0 else copies (λ s t. s == t) 3 queue)
copies-remove_multiple_example = copies-remove_multiple (λ s t. s == t) ==_iff (5 ∷ []) queue 3

-- The first elements.
abbrev choose_first : ℕ → List ℕ → ℕ → List ℕ
choose_first rng txs n = take n txs

length-take_min :
    (n : ℕ) (txs : List ℕ) → length (take n txs) ≡ (if leb n (length txs) then n else length txs)
length-take_min zero txs = ground arith
length-take_min (suc n) [] = ground arith
length-take_min (suc n) (t ∷ txs) = ground (arith, length-take_min n txs)

choose_first-Chooses : Chooses (λ s t. s == t) choose_first
choose_first-Chooses = record {
  size = λ rng txs n. length-take_min n txs;
  present = λ rng txs n tx. copies-take-le (λ s t. s == t) tx n txs;
}

choose_example :
    (chosen : List ℕ) × (choose choose_first 0 2 3 queue ≡ some chosen)
    × (((length chosen ≡ 2) ⊎ (length chosen ≡ 3)) ⊎ (length chosen ≡ length queue))
    × (length chosen ≤ 2)
    × (length chosen ≤ 3)
    × (length chosen ≤ length queue)
    × ((tx : ℕ) → copies (λ s t. s == t) tx chosen ≤ copies (λ s t. s == t) tx queue)
choose_example = choose_lem (λ s t. s == t) choose_first choose_first-Chooses 0 2 3 queue
