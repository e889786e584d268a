-- ===== src/Prelude/BTreeSet.antt =====
-- `BTreeSet` with numbers for elements: a list in ascending order.
use Prim.Native.Nat.{ℕ, suc, ◌<◌, ◌≤◌}
use mathlib.Core.Path.{◌≡◌, refl}
use mathlib.Core.Bool.{Bool, true, false, ◌||◌}
use mathlib.Core.List.{List, [], ◌∷◌}
use native.Mathlib.Omega.{arith}
use mathlib.Core.Logic.{inl, inr}
use hbbft.Prelude.Tests.{ltb, ◌==◌, if◌then◌else◌, Bool-cases, ==_iff}
use hbbft.Prelude.Lists.{length}

abbrev pub BTreeSet : Type 0
BTreeSet = List ℕ

unfoldable pub contains : BTreeSet → ℕ → Bool
contains [] x = false
contains (y ∷ ys) x = (y == x) || contains ys x

-- The place of a new element.
place : ℕ → BTreeSet → BTreeSet
place x [] = x ∷ []
place x (y ∷ ys) = if ltb x y then x ∷ y ∷ ys else y ∷ place x ys

unfoldable pub insert : ℕ → BTreeSet → BTreeSet
unfolding place contains
insert x s = if contains s x then s else place x s

contains-place :
    (x : ℕ) (s : BTreeSet) (y : ℕ) → contains (place x s) y ≡ ((x == y) || contains s y)
unfolding contains place
contains-place x [] y = refl
contains-place x (z ∷ s) y = ground (arith, contains-place x s y)

length-place : (x : ℕ) (s : BTreeSet) → length (place x s) ≡ suc (length s)
unfolding place
length-place x [] = refl
length-place x (z ∷ s) = ground (arith, length-place x s)

pub contains-insert :
    (x : ℕ) (s : BTreeSet) (y : ℕ) → contains (insert x s) y ≡ ((x == y) || contains s y)
unfolding insert
contains-insert x s y = elim (Bool-cases (contains s x)) [
  | inl old ↦ rw old (absorb x s y old)
  | inr new ↦ rw new (contains-place x s y)
]
  where
    absorb :
        (x : ℕ) (s : BTreeSet) (y : ℕ)
        → contains s x ≡ true
        → contains s y ≡ ((x == y) || contains s y)
    absorb x s y h = elim (Bool-cases (x == y)) [
      | inl same ↦ rw same (rw (← (==_iff x y).0 same) h)
      | inr other ↦ rw other refl
    ]

pub length-insert :
    (x : ℕ) (s : BTreeSet)
    → length (insert x s) ≡ (if contains s x then length s else suc (length s))
unfolding insert
length-insert x s = ground (arith, length-place x s)

-- Ascending order, so without repetition.
abbrev pub Above : ℕ → BTreeSet → Type 0
Above n [] = Unit {0}
Above n (y ∷ ys) = (n < y) × Above n ys

abbrev pub IsSorted : BTreeSet → Type 0
IsSorted [] = Unit {0}
IsSorted (y ∷ ys) = Above y ys × IsSorted ys

Above-le : (m n : ℕ) (s : BTreeSet) → m ≤ n → Above n s → Above m s
Above-le m n [] h a = tt
Above-le m n (y ∷ ys) h a = (omega arith, Above-le m n ys h a.1)

Above-place : (n x : ℕ) (s : BTreeSet) → n < x → Above n s → Above n (place x s)
unfolding place
Above-place n x [] h a = (h, tt)
Above-place n x (y ∷ ys) h a = ground (arith, Above-place n x ys h a.1)

place-IsSorted : (x : ℕ) (s : BTreeSet) → contains s x ≡ false → IsSorted s → IsSorted (place x s)
unfolding place contains
place-IsSorted x [] c h = (tt, tt)
place-IsSorted x (y ∷ ys) c h =
    ground (arith, place-IsSorted x ys, Above-place y x ys, Above-le x y ys)

pub insert-IsSorted : (x : ℕ) (s : BTreeSet) → IsSorted s → IsSorted (insert x s)
unfolding insert
insert-IsSorted x s h = ground (arith, place-IsSorted x s)
