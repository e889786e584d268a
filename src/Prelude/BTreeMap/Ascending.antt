-- ===== src/Prelude/BTreeMap/Ascending.antt =====
-- `BTreeMap`: the keys are in ascending order, so each stands once.
use Prim.Native.Nat.{ℕ, ◌≤◌, ◌<◌}
use mathlib.Core.Path.{◌≡◌, refl, subst}
use mathlib.Core.Logic.{inl, inr}
use mathlib.Core.Bool.{Bool, false}
use mathlib.Core.Option.{none}
use mathlib.Core.List.{[], ◌∷◌}
use native.Mathlib.Omega.{arith}
use hbbft.Prelude.Tests.{ltb, ◌==◌, if◌then◌else◌, Bool-cases, ==_iff, ltb→lt}
use hbbft.Prelude.Lists.{keep, keep-pass, keep-drop}
use hbbft.Prelude.BTreeMap.{BTreeMap, get, insert, remove, Entries, Entries-insert, Entries-remove}

module _ {V : Type 0} where
  abbrev pub IsAscending : BTreeMap V → Type 0
  IsAscending [] = Unit {0}
  IsAscending ((k, v) ∷ m) = Entries (λ j w. k < j) m × IsAscending m

  pub get-below :
      (k : ℕ) (m : BTreeMap V) (j : ℕ) → Entries (λ i w. k < i) m → j ≤ k → get m j ≡ none
  unfolding get
  get-below k [] j h le = refl
  get-below k ((i, w) ∷ m) j h le =
      let other : (i == j) ≡ false = ground arith in rw other (get-below k m j h.1 le)

  pub Entries-weaken :
      (P Q : ℕ → V → Type 0) (m : BTreeMap V)
      → ((k : ℕ) (v : V) → P k v → Q k v)
      → Entries P m
      → Entries Q m
  Entries-weaken P Q [] w h = tt
  Entries-weaken P Q ((k, v) ∷ m) w h = (w k v h.0, Entries-weaken P Q m w h.1)

  pub insert-IsAscending :
      (k : ℕ) (v : V) (m : BTreeMap V) → IsAscending m → IsAscending (insert k v m)
  unfolding insert
  insert-IsAscending k v [] h = (tt, tt)
  insert-IsAscending k v ((j, w) ∷ m) h = elim (Bool-cases (j == k)) [
    | inl same ↦
        let key : j ≡ k = (==_iff j k).0 same in
        rw same (subst (λ i. Entries (λ x y. i < x) m) key h.0, h.1)
    | inr other ↦ rw other (elim (Bool-cases (ltb k j)) [
      | inl before ↦
          let lower : k < j = ltb→lt k j before in
          rw before
            ((lower, Entries-weaken (λ x y. j < x) (λ x y. k < x) m (λ x y g. omega arith) h.0), h)
      | inr after ↦
          let higher : j < k = ground arith in
          rw after (Entries-insert (λ x y. j < x) k v m h.0 higher, insert-IsAscending k v m h.1)
    ])
  ]

  pub remove-IsAscending : (k : ℕ) (m : BTreeMap V) → IsAscending m → IsAscending (remove k m)
  unfolding remove
  remove-IsAscending k [] h = tt
  remove-IsAscending k ((j, w) ∷ m) h = elim (Bool-cases (j == k)) [
    | inl same ↦ rw same h.1
    | inr other ↦ rw other (Entries-remove (λ x y. j < x) k m h.0, remove-IsAscending k m h.1)
  ]

  pub get-remove :
      (k : ℕ) (m : BTreeMap V) (j : ℕ)
      → IsAscending m
      → get (remove k m) j ≡ (if k == j then none else get m j)
  unfolding get remove
  get-remove k [] j h = elim (Bool-cases (k == j)) [ inl e ↦ rw e refl | inr e ↦ rw e refl ]
  get-remove k ((i, w) ∷ m) j h = ground (arith, get-remove k m j h.1, get-below i m i h.0)

  pub Entries-keep :
      (P : ℕ → V → Type 0) (p : ℕ → Bool) (m : BTreeMap V)
      → Entries P m
      → Entries P (keep (λ e. p e.0) m)
  Entries-keep P p [] h = tt
  Entries-keep P p ((k, v) ∷ m) h = elim (Bool-cases (p k)) [
    | inl e ↦ rw (keep-pass (λ (x : ℕ × V). p x.0) (k, v) m e) (h.0, Entries-keep P p m h.1)
    | inr e ↦ rw (keep-drop (λ (x : ℕ × V). p x.0) (k, v) m e) (Entries-keep P p m h.1)
  ]

  pub keep-IsAscending :
      (p : ℕ → Bool) (m : BTreeMap V) → IsAscending m → IsAscending (keep (λ e. p e.0) m)
  keep-IsAscending p [] h = tt
  keep-IsAscending p ((k, v) ∷ m) h = elim (Bool-cases (p k)) [
    | inl e ↦
        rw (keep-pass (λ (x : ℕ × V). p x.0) (k, v) m e)
          (Entries-keep (λ j w. k < j) p m h.0, keep-IsAscending p m h.1)
    | inr e ↦ rw (keep-drop (λ (x : ℕ × V). p x.0) (k, v) m e) (keep-IsAscending p m h.1)
  ]
