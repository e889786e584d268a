-- ===== src/Broadcast/Payload/RoundTrip.antt =====
-- src/broadcast/broadcast.rs: a value, split and glued.
use hbbft.Prelude.{
  ℕ, zero, suc, ◌+◌, ◌-◌, ◌*◌, ◌/◌, ◌%◌, ◌^◌, ◌≤◌, ◌<◌, ◌≡◌, refl, sym, ap, ◌∙◌, some, List, [],
  ◌∷◌, ◌++◌, length, take, drop, replicate, arith,
}
use mathlib.Core.List.{append-nil}
use hbbft.Broadcast.Payload.{
  write_u32, read_u32, framed, shard_len, resize, chunks, split, flatten, unframe, glue,
}

suc_add : (a b : ℕ) → suc a + b ≡ suc (a + b)
suc_add a b = omega arith

minus_zero : (n : ℕ) → n - 0 ≡ n
minus_zero n = omega arith

minus_suc : (n m : ℕ) → suc n - suc m ≡ n - m
minus_suc n m = omega arith

module _ {ℓ} {A : Type ℓ} where
  take_nil : (n : ℕ) → take n (let e : List A = [] in e) ≡ []
  take_nil zero = refl
  take_nil (suc n) = refl

  take-take-drop : (a b : ℕ) (xs : List A) → take a xs ++ take b (drop a xs) ≡ take (a + b) xs
  take-take-drop zero b xs = rw (let e : 0 + b ≡ b = omega arith in e)
  take-take-drop (suc a) b [] = take_nil b ∙ sym (take_nil (suc a + b))
  take-take-drop (suc a) b (x ∷ xs) = rw (suc_add a b) (ap (λ r. x ∷ r) (take-take-drop a b xs))

  take_all : (n : ℕ) (xs : List A) → length xs ≤ n → take n xs ≡ xs
  take_all n [] h = take_nil n
  take_all zero (x ∷ xs) h = absurd (omega arith)
  take_all (suc n) (x ∷ xs) h = ap (λ r. x ∷ r) (take_all n xs (omega arith))

  take_append :
      (n : ℕ) (xs ys : List A) → length xs ≤ n → take n (xs ++ ys) ≡ xs ++ take (n - length xs) ys
  take_append n [] ys h = rw (minus_zero n)
  take_append zero (x ∷ xs) ys h = absurd (omega arith)
  take_append (suc n) (x ∷ xs) ys h =
      rw (minus_suc n (length xs)) (ap (λ r. x ∷ r) (take_append n xs ys (omega arith)))

flatten-chunks : (n len : ℕ) (xs : List ℕ) → flatten (chunks n len xs) ≡ take (n * len) xs
unfolding flatten chunks
flatten-chunks zero len xs = rw (let e : 0 * len ≡ 0 = omega arith in e)
flatten-chunks (suc n) len xs =
    let e : suc n * len ≡ len + n * len = grind arith in
    rw (e, flatten-chunks n len (drop len xs)) (take-take-drop len (n * len) xs)

take-chunks : (d p len : ℕ) (xs : List ℕ) → take d (chunks (d + p) len xs) ≡ chunks d len xs
unfolding chunks
take-chunks zero p len xs = refl
take-chunks (suc d) p len xs =
    rw (suc_add d p) (ap (λ r. take len xs ∷ r) (take-chunks d p len (drop len xs)))

shard_len-ge : (n d : ℕ) → 0 < d → n ≤ d * shard_len n d
unfolding shard_len
shard_len-ge n d h = grind arith

digits_of :
    (n : ℕ)
    → n < 2 ^ 32
    → read_u32 (n / 2 ^ 24) (n / 2 ^ 16 % 2 ^ 8) (n / 2 ^ 8 % 2 ^ 8) (n % 2 ^ 8) ≡ n
unfolding read_u32
digits_of n h = omega arith

read_u32-write_u32 :
    (n : ℕ) (rest : List ℕ) → n < 2 ^ 32 → unframe (write_u32 n ++ rest) ≡ some (take n rest)
unfolding unframe write_u32
read_u32-write_u32 n rest h = rw (digits_of n h)

-- After resizing, the bytes are still in front.
take-resize :
    (n m : ℕ) (xs : List ℕ)
    → length xs ≤ n
    → n ≤ m
    → (zs : List ℕ) × (take n (resize m xs) ≡ xs ++ zs)
unfolding resize
take-resize n m xs h k = (
  take (n - length xs) (replicate (m - length xs) 0),
  rw (take_all m xs (omega arith)) (take_append n xs _ h),
)

unframe-framed :
    (value zs : List ℕ) → length value < 2 ^ 32 → unframe (framed value ++ zs) ≡ some value
unfolding framed
unframe-framed value zs h =
    let e : length value % 2 ^ 32 ≡ length value = omega arith in
    let none_left : length value - length value ≡ 0 = omega arith in
    rw e (
      read_u32-write_u32 (length value) (value ++ zs) h
      ∙ ap some
          (take_append (length value) value zs (omega arith) ∙ rw none_left (append-nil value)))

-- A value of less than 2 ^ 32 bytes, split into shards with at least one data shard, is given
-- back by the data shards alone.
pub glue-split :
    (d p : ℕ) (value : List ℕ)
    → 0 < d
    → length value < 2 ^ 32
    → glue d (split d p value) ≡ some value
unfolding glue split
glue-split d p value h k =
    let bytes = framed value in
    let len = shard_len (length bytes) d in
    let all_in = shard_len-ge (length bytes) d h in
    let (zs, e) = take-resize (d * len) (len * (d + p)) bytes all_in (grind arith) in
    rw (take-chunks d p len, flatten-chunks d len, e) (unframe-framed value zs k)
