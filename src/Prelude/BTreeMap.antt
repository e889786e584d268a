-- ===== src/Prelude/BTreeMap.antt =====
-- `BTreeMap` with numbers for keys: an association list in ascending order of the keys.
pub mod Ascending
use Prim.Native.Nat.{ℕ, suc, ◌≤◌, ◌<◌}
use mathlib.Core.Path.{◌≡◌, refl, sym, subst, ◌∙◌}
use mathlib.Core.Logic.{inl, inr}
use mathlib.Core.Bool.{Bool, true, false}
use mathlib.Core.Option.{Option, none, some, map as option_map}
use mathlib.Core.List.{List, [], ◌∷◌, map}
use native.Mathlib.Omega.{arith}
use hbbft.Prelude.Tests.{ltb, ◌==◌, if◌then◌else◌, is_some, Bool-cases, ==_iff, ltb→lt}
use hbbft.Prelude.Lists.{length}

abbrev pub BTreeMap : Type 0 → Type 0
BTreeMap V = List (ℕ × V)

module _ {V : Type 0} where
  unfoldable pub get : BTreeMap V → ℕ → Option V
  get [] k = none
  get ((j, v) ∷ m) k = if j == k then some v else get m k

  abbrev pub keys : BTreeMap V → List ℕ
  keys = map (λ e. e.0)

  abbrev pub values : BTreeMap V → List V
  values = map (λ e. e.1)

  abbrev pub contains_key : BTreeMap V → ℕ → Bool
  contains_key m k = is_some (get m k)

  -- An entry for a key that is not there goes before the first larger key; else the old value is
  -- replaced.
  unfoldable pub insert : ℕ → V → BTreeMap V → BTreeMap V
  insert k v [] = (k, v) ∷ []
  insert k v ((j, w) ∷ m) =
      let rest = insert k v m in
      if j == k then (k, v) ∷ m else if ltb k j then (k, v) ∷ (j, w) ∷ m else (j, w) ∷ rest

  pub get-insert :
      (k : ℕ) (v : V) (m : BTreeMap V) (j : ℕ)
      → get (insert k v m) j ≡ (if k == j then some v else get m j)
  unfolding get insert
  get-insert k v [] j = refl
  get-insert k v ((i, w) ∷ m) j = ground (arith, get-insert k v m j)

  pub get-insert_same :
      (k : ℕ) (v : V) (m : BTreeMap V) (j : ℕ) → (k == j) ≡ true → get (insert k v m) j ≡ some v
  get-insert_same k v m j e = get-insert k v m j ∙ rw e refl

  pub get-insert_other :
      (k : ℕ) (v : V) (m : BTreeMap V) (j : ℕ) → (k == j) ≡ false → get (insert k v m) j ≡ get m j
  get-insert_other k v m j e = get-insert k v m j ∙ rw e refl

  pub length-insert : (k : ℕ) (v : V) (m : BTreeMap V) → length (insert k v m) ≤ suc (length m)
  unfolding insert
  length-insert k v [] = omega arith
  length-insert k v ((i, w) ∷ m) = ground (arith, length-insert k v m)

  unfoldable pub remove : ℕ → BTreeMap V → BTreeMap V
  remove k [] = []
  remove k ((j, w) ∷ m) = if j == k then m else (j, w) ∷ remove k m

  -- A change through `get_mut`, where the key is there.
  unfoldable pub set : ℕ → V → BTreeMap V → BTreeMap V
  set k v [] = []
  set k v ((j, w) ∷ m) = if j == k then (j, v) ∷ m else (j, w) ∷ set k v m

  -- Without the entries of the keys.
  unfoldable pub remove_all : List ℕ → BTreeMap V → BTreeMap V
  remove_all [] m = m
  remove_all (k ∷ ks) m = remove_all ks (remove k m)

  -- A property of every entry.
  abbrev pub Entries : (ℕ → V → Type 0) → BTreeMap V → Type 0
  Entries P [] = Unit {0}
  Entries P ((k, v) ∷ m) = P k v × Entries P m

  pub Entries-get :
      (P : ℕ → V → Type 0) (m : BTreeMap V) (k : ℕ) (v : V) → Entries P m → get m k ≡ some v → P k v
  unfolding get
  Entries-get P [] k v h e = absurd (ground arith)
  Entries-get P ((j, w) ∷ m) k v h e = elim (Bool-cases (j == k)) [
    | inl same ↦
        let key : j ≡ k = (==_iff j k).0 same in
        let found : w ≡ v = ground arith in subst (λ i. P i v) key (subst (λ x. P j x) found h.0)
    | inr other ↦ Entries-get P m k v h.1 (ground arith)
  ]

  pub Entries-insert :
      (P : ℕ → V → Type 0) (k : ℕ) (v : V) (m : BTreeMap V)
      → Entries P m
      → P k v
      → Entries P (insert k v m)
  unfolding insert
  Entries-insert P k v [] h p = (p, tt)
  Entries-insert P k v ((j, w) ∷ m) h p = elim (Bool-cases (j == k)) [
    | inl same ↦ rw same (p, h.1)
    | inr other ↦ rw other (elim (Bool-cases (ltb k j)) [
      | inl before ↦ rw before (p, h)
      | inr after ↦ rw after (h.0, Entries-insert P k v m h.1 p)
    ])
  ]

  pub Entries-set :
      (P : ℕ → V → Type 0) (k : ℕ) (v : V) (m : BTreeMap V)
      → Entries P m
      → P k v
      → Entries P (set k v m)
  unfolding set
  Entries-set P k v [] h p = tt
  Entries-set P k v ((j, w) ∷ m) h p = elim (Bool-cases (j == k)) [
    | inl same ↦ rw same (subst (λ i. P i v) (sym ((==_iff j k).0 same)) p, h.1)
    | inr other ↦ rw other (h.0, Entries-set P k v m h.1 p)
  ]

  pub Entries-remove :
      (P : ℕ → V → Type 0) (k : ℕ) (m : BTreeMap V) → Entries P m → Entries P (remove k m)
  unfolding remove
  Entries-remove P k [] h = tt
  Entries-remove P k ((j, w) ∷ m) h = elim (Bool-cases (j == k)) [
    | inl same ↦ rw same h.1
    | inr other ↦ rw other (h.0, Entries-remove P k m h.1)
  ]

  pub length-remove :
      (k : ℕ) (v : V) (m : BTreeMap V) → get m k ≡ some v → suc (length (remove k m)) ≡ length m
  unfolding get remove
  length-remove k v [] e = absurd (ground arith)
  length-remove k v ((j, w) ∷ m) e = ground (arith, length-remove k v m)

-- A function on every value; the keys stay.
unfoldable pub map_values : {V W : Type 0} → (V → W) → BTreeMap V → BTreeMap W
map_values f [] = []
map_values f ((k, v) ∷ m) = (k, f v) ∷ map_values f m

module _ {V W : Type 0} (f : V → W) where
  pub get-map_values : (m : BTreeMap V) (k : ℕ) → get (map_values f m) k ≡ option_map f (get m k)
  unfolding get map_values
  get-map_values [] k = refl
  get-map_values ((j, v) ∷ m) k = ground (arith, get-map_values m k)

  pub map_values-insert :
      (k : ℕ) (v : V) (m : BTreeMap V)
      → map_values f (insert k v m) ≡ insert k (f v) (map_values f m)
  unfolding insert map_values
  map_values-insert k v [] = refl
  map_values-insert k v ((j, w) ∷ m) = ground (arith, map_values-insert k v m)

  pub map_values-set :
      (k : ℕ) (v : V) (m : BTreeMap V) → map_values f (set k v m) ≡ set k (f v) (map_values f m)
  unfolding set map_values
  map_values-set k v [] = refl
  map_values-set k v ((j, w) ∷ m) = ground (arith, map_values-set k v m)
