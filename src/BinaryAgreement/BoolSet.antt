-- ===== src/BinaryAgreement/BoolSet.antt =====
-- src/binary_agreement/bool_set.rs: a set of Boolean values in the two lowest bits of a byte.
pub mod Laws
use hbbft.Prelude.{
  ℕ, zero, suc, bit_and, bit_or, Bool, true, false, not, Option, none, some, List, [], ◌∷◌, ◌==◌,
  if◌then◌else◌,
}

pub record BoolSet : Type 0 where
  pub bits : ℕ  -- u8

abbrev pub empty : BoolSet
empty = record { bits = 0b00 }

abbrev pub only_false : BoolSet
only_false = record { bits = 0b01 }

abbrev pub only_true : BoolSet
only_true = record { bits = 0b10 }

abbrev pub both : BoolSet
both = record { bits = 0b11 }

-- The derived equality.
abbrev pub eq : BoolSet → BoolSet → Bool
eq s t = s.bits == t.bits

-- `BoolSet::from`.
abbrev pub from : Bool → BoolSet
from b = if b then only_true else only_false

-- The set after the insertion, and whether it has changed.
unfoldable pub insert : Bool → BoolSet → BoolSet × Bool
insert b s =
    let next : BoolSet = record { bits = bit_or s.bits (from b).bits } in (next, not (eq s next))

unfoldable pub remove : Bool → BoolSet → BoolSet
remove b s = record { bits = bit_and s.bits (from (not b)).bits }

unfoldable pub contains : BoolSet → Bool → Bool
contains s b = not (bit_and s.bits (from b).bits == 0)

unfoldable pub is_subset : BoolSet → BoolSet → Bool
is_subset s other = bit_and s.bits other.bits == s.bits

unfoldable pub definite : BoolSet → Option Bool
definite s = if eq s only_false then some false else if eq s only_true then some true else none

-- `BoolSetIter::next`: the value and the rest of the set.
unfoldable pub next : BoolSet → Option Bool × BoolSet
unfolding contains remove
next s =
    if contains s true
    then (some true, remove true s)
    else if contains s false
    then (some false, remove false s)
    else (none, s)

-- The iterator run for at most the given number of calls.
collect : ℕ → BoolSet → List Bool
collect zero s = []
collect (suc n) s = let (o, r) = next s in elim o [ none ↦ [] | some b ↦ b ∷ collect n r ]

-- A loop over the set: `next` returns a value at most twice.
unfoldable pub elements : BoolSet → List Bool
unfolding collect next
elements s = collect 3 s
