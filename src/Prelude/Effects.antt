-- ===== src/Prelude/Effects.antt =====
-- Fallible code over a state: what a `&mut self` method that returns a `Result` does. An error
-- keeps the changes made before it, as in the source. `panicked` is a failed assertion;
-- `exhausted` is the model's own: the fuel of a recursion ran out.
use mathlib.Core.Path.{◌≡◌, refl}
use mathlib.Core.Bool.{Bool, true, false}
use hbbft.Prelude.Tests.{if◌then◌else◌}

pub data Outcome (E A : Type 0) : Type 0 where
  ok : A → Outcome E A
  err : E → Outcome E A
  panicked : Outcome E A
  exhausted : Outcome E A

abbrev pub M : Type 0 → Type 0 → Type 0 → Type 0
M S E A = S → Outcome E A × S

module _ {S E A : Type 0} where
  abbrev pub and_then : {B : Type 0} → Outcome E A × S → (A → M S E B) → Outcome E B × S
  and_then (ok a, s) f = f a s
  and_then (err e, s) f = (err e, s)
  and_then (panicked, s) f = (panicked, s)
  and_then (exhausted, s) f = (exhausted, s)

  infixl 5 ◌>>=◌
  abbrev pub ◌>>=◌ : {B : Type 0} → M S E A → (A → M S E B) → M S E B
  ◌>>=◌ m f s = and_then (m s) f

  infixl 5 ◌>>◌
  abbrev pub ◌>>◌ : {B : Type 0} → M S E A → M S E B → M S E B
  ◌>>◌ m k s = and_then (m s) (λ _. k)

  abbrev pub return : A → M S E A
  return a s = (ok a, s)

  abbrev pub throw : E → M S E A
  throw e s = (err e, s)

  abbrev pub gets : (S → A) → M S E A
  gets f s = (ok (f s), s)

abbrev pub modify : {S E : Type 0} → (S → S) → M S E (Unit {0})
modify f s = (ok tt, f s)

-- `map_err`.
abbrev pub map_err : {E F A : Type 0} → (E → F) → Outcome E A → Outcome F A
map_err f (ok a) = ok a
map_err f (err e) = err (f e)
map_err f panicked = panicked
map_err f exhausted = exhausted

-- A postcondition on the value and the state after.
abbrev pub Returns : {S E A : Type 0} → (A → S → Type 0) → Outcome E A × S → Type 0
Returns P (ok a, s) = P a s
Returns P (err e, s) = ⊥
Returns P (panicked, s) = ⊥
Returns P (exhausted, s) = ⊥

-- A postcondition on the state, whatever the outcome.
abbrev pub Leaves : {S E A : Type 0} → (S → Type 0) → Outcome E A × S → Type 0
Leaves P r = P r.1

-- The rule for a bind.
pub Returns-bind :
    {S E A B : Type 0} (P : A → S → Type 0) (Q : B → S → Type 0) (r : Outcome E A × S)
    (f : A → M S E B)
    → Returns P r
    → ((a : A) (s : S) → P a s → Returns Q (f a s))
    → Returns Q (and_then r f)
Returns-bind P Q (ok a, s) f h k = k a s h
Returns-bind P Q (err e, s) f h k = absurd h
Returns-bind P Q (panicked, s) f h k = absurd h
Returns-bind P Q (exhausted, s) f h k = absurd h

-- A weaker postcondition.
pub Returns-weaken :
    {S E A : Type 0} (P Q : A → S → Type 0) (r : Outcome E A × S)
    → ((a : A) (s : S) → P a s → Q a s)
    → Returns P r
    → Returns Q r
Returns-weaken P Q (ok a, s) k h = k a s h
Returns-weaken P Q (err e, s) k h = absurd h
Returns-weaken P Q (panicked, s) k h = absurd h
Returns-weaken P Q (exhausted, s) k h = absurd h

-- An equation for the run, in place of the postcondition.
pub Returns-result :
    {S E A : Type 0} (P : A → S → Type 0) (r : Outcome E A × S)
    → Returns P r
    → (a : A) × (s : S) × (r ≡ (ok a, s)) × P a s
Returns-result P (ok a, s) h = (a, s, refl, h)
Returns-result P (err e, s) h = absurd h
Returns-result P (panicked, s) h = absurd h
Returns-result P (exhausted, s) h = absurd h

-- The rule for a test.
pub Returns-if :
    {S E A : Type 0} (P : A → S → Type 0) (b : Bool) (r q : Outcome E A × S)
    → (b ≡ true → Returns P r)
    → (b ≡ false → Returns P q)
    → Returns P (if b then r else q)
Returns-if P true r q h k = h refl
Returns-if P false r q h k = k refl

-- The rule for a test between two programs.
pub Returns-test :
    {S E A : Type 0} (P : A → S → Type 0) (b : Bool) (m k : M S E A) (s : S)
    → (b ≡ true → Returns P (m s))
    → (b ≡ false → Returns P (k s))
    → Returns P ((if b then m else k) s)
Returns-test P true m k s h j = h refl
Returns-test P false m k s h j = j refl

abbrev pub map_ok : {E A B : Type 0} → (A → B) → Outcome E A → Outcome E B
map_ok f (ok a) = ok (f a)
map_ok f (err e) = err e
map_ok f panicked = panicked
map_ok f exhausted = exhausted

-- The rule of a test for a property of the state, whatever the outcome.
pub Leaves-if :
    {S E A : Type 0} (P : S → Type 0) (b : Bool) (r q : Outcome E A × S)
    → Leaves P r
    → Leaves P q
    → Leaves P (if b then r else q)
Leaves-if P true r q h k = h
Leaves-if P false r q h k = k
