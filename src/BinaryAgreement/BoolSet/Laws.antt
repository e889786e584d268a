-- ===== src/BinaryAgreement/BoolSet/Laws.antt =====
-- src/binary_agreement/bool_set.rs: the laws of the operations, from the digits of the byte.
use hbbft.Prelude.{
  refl, ℕ, ◌/◌, ◌%◌, ◌<◌, ◌≡◌, ◌↔◌, Bool, true, false, not, ◌&&◌, ◌||◌, some, [], ◌∷◌, ◌++◌, ◌==◌,
  if◌then◌else◌, arith, bool_eq, ==_iff,
}
use hbbft.Prelude.Bits.{bit_and-one, bit_and-two, bit_or-one, bit_or-two, bit_and_below}
use hbbft.BinaryAgreement.BoolSet.{
  BoolSet, empty, both, eq, from, insert, remove, contains, is_subset, definite, elements,
}

-- No bits but the two that the set uses.
abbrev pub IsValid : BoolSet → Type 0
IsValid s = s.bits < 4

-- Whether the value's digit is 1.
abbrev digit : BoolSet → Bool → ℕ
digit s b = if b then s.bits / 2 % 2 else s.bits % 2

contains-digit : (s : BoolSet) (b : Bool) → contains s b ≡ (digit s b == 1)
unfolding contains
contains-digit s true = ground (arith, bit_and-two s.bits)
contains-digit s false = ground (arith, bit_and-one s.bits)

pub contains-empty : (b : Bool) → contains empty b ≡ false
unfolding contains
contains-empty true = refl
contains-empty false = refl

-- An insertion adds the value, and nothing else.
pub contains-insert :
    (b : Bool) (s : BoolSet) (c : Bool) → contains (insert b s).0 c ≡ (bool_eq b c || contains s c)
unfolding insert
contains-insert true s true =
    ground (arith, bit_or-two s.bits, contains-digit (insert true s).0 true, contains-digit s true)
contains-insert true s false =
    ground
      (arith, bit_or-two s.bits, contains-digit (insert true s).0 false, contains-digit s false)
contains-insert false s true =
    ground (arith, bit_or-one s.bits, contains-digit (insert false s).0 true, contains-digit s true)
contains-insert false s false =
    ground
      (arith, bit_or-one s.bits, contains-digit (insert false s).0 false, contains-digit s false)

pub insert_changed : (b : Bool) (s : BoolSet) → (insert b s).1 ≡ not (contains s b)
unfolding insert
insert_changed true s = ground (arith, bit_or-two s.bits, contains-digit s true)
insert_changed false s = ground (arith, bit_or-one s.bits, contains-digit s false)

pub insert-IsValid : (b : Bool) (s : BoolSet) → IsValid s → IsValid (insert b s).0
unfolding insert
insert-IsValid true s h = omega (arith, bit_or-two s.bits)
insert-IsValid false s h = omega (arith, bit_or-one s.bits)

-- `remove` leaves the other value alone, and clears all else.
pub contains-remove :
    (b : Bool) (s : BoolSet) (c : Bool)
    → contains (remove b s) c ≡ (not (bool_eq b c) && contains s c)
unfolding remove
contains-remove true s true =
    ground (arith, bit_and-one s.bits, contains-digit (remove true s) true, contains-digit s true)
contains-remove true s false =
    ground (arith, bit_and-one s.bits, contains-digit (remove true s) false, contains-digit s false)
contains-remove false s true =
    ground (arith, bit_and-two s.bits, contains-digit (remove false s) true, contains-digit s true)
contains-remove false s false =
    ground
      (arith, bit_and-two s.bits, contains-digit (remove false s) false, contains-digit s false)

-- Within a set that uses its two bits only, `is_subset` is inclusion, and refuses every other bit.
pub is_subset_iff :
    (s t : BoolSet)
    → IsValid t
    → (is_subset s t ≡ true) ↔ (
        IsValid s
        × (contains s true ≡ true → contains t true ≡ true)
        × (contains s false ≡ true → contains t false ≡ true))
unfolding is_subset
is_subset_iff s t h = (
  (λ e. (
    omega (arith, bit_and_below s.bits t.bits (omega arith), (==_iff _ _).0 e),
    (λ c. ground (
      arith,
      bit_and_below s.bits t.bits (omega arith),
      contains-digit s true,
      contains-digit s false,
      contains-digit t true,
      contains-digit t false,
    )),
    (λ c. ground (
      arith,
      bit_and_below s.bits t.bits (omega arith),
      contains-digit s true,
      contains-digit s false,
      contains-digit t true,
      contains-digit t false,
    )),
  )),
  (λ e. ground (
    arith,
    bit_and_below s.bits t.bits (omega arith),
    contains-digit s true,
    contains-digit s false,
    contains-digit t true,
    contains-digit t false,
  )),
)

pub definite_iff : (s : BoolSet) (b : Bool) → (definite s ≡ some b) ↔ (s ≡ from b)
unfolding definite
definite_iff s true = (λ e. ground arith, λ e. rw e)
definite_iff s false = (λ e. ground arith, λ e. rw e)

-- The derived equality with the two sets that the code compares with.
pub eq-empty :
    (s : BoolSet) → IsValid s → eq s empty ≡ (not (contains s true) && not (contains s false))
eq-empty s h = ground (arith, contains-digit s true, contains-digit s false)

pub eq-both : (s : BoolSet) → IsValid s → eq s both ≡ (contains s true && contains s false)
eq-both s h = ground (arith, contains-digit s true, contains-digit s false)

-- The iterator yields `true`, then `false`, each if the set has it.
pub elements_lem :
    (s : BoolSet)
    → elements s
      ≡ (if contains s true then true ∷ [] else []) ++ (if contains s false then false ∷ [] else [])
unfolding elements
elements_lem s = ground (
  arith,
  contains-remove true s true,
  contains-remove true s false,
  contains-remove false s true,
  contains-remove false s false,
  contains-remove false (remove true s) true,
  contains-remove false (remove true s) false,
)
