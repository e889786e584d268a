-- ===== src/TransactionQueue.antt =====
-- src/transaction_queue.rs: a vector of transactions as a queue. The set of transactions that are
-- removed is a list with the equality of transactions, and the random choice of the crate `rand`
-- is a parameter.
mod Tests
use hbbft.Prelude.{
  ℕ, zero, suc, ◌⊎◌, ◌+◌, ◌≤◌, ◌≡◌, ◌↔◌, refl, sym, ap, ◌∙◌, Bool, true, false, not, Option, none,
  some, ◌||◌, ◌&&◌, List, [], ◌∷◌, ◌++◌, keep, keep-pass, keep-drop, take, length, leb,
  if◌then◌else◌, count, flag, arith, Bool-cases, inl, inr,
}

module _ {T : Type 0} where
  unfoldable pub is_empty : List T → Bool
  is_empty [] = true
  is_empty (tx ∷ txs) = false

  -- Whether a set of transactions contains one.
  unfoldable pub set_contains : (T → T → Bool) → List T → T → Bool
  set_contains eq [] tx = false
  set_contains eq (t ∷ set) tx = eq t tx || set_contains eq set tx

  unfoldable pub remove_multiple : (T → T → Bool) → List T → List T → List T
  remove_multiple eq txs queue = keep (λ tx. not (set_contains eq txs tx)) queue

  -- The slice `self[..limit]`, which panics out of range.
  unfoldable pub slice_to : ℕ → List T → Option (List T)
  slice_to limit queue = if leb limit (length queue) then some (take limit queue) else none

  -- No value is a panic.
  unfoldable pub choose :
      {R : Type 0} → (R → List T → ℕ → List T) → R → ℕ → ℕ → List T → Option (List T)
  choose choose_multiple rng amount batch_size queue =
      let limit = if leb batch_size (length queue) then batch_size else length queue in
      elim (slice_to limit queue) [
        | none ↦ none
        | some sample ↦ some (choose_multiple rng sample amount)
      ]

  -- The number of copies of a transaction in a list.
  abbrev pub copies : (T → T → Bool) → T → List T → ℕ
  copies eq tx = count (λ t. eq t tx)

  copies-keep :
      (eq : T → T → Bool) (p : T → Bool) (tx : T)
      → ((t : T) → eq t tx ≡ true → p t ≡ p tx)
      → (queue : List T) → copies eq tx (keep p queue) ≡ (if p tx then copies eq tx queue else 0)
  copies-keep eq p tx same [] = elim (Bool-cases (p tx)) [ inl e ↦ rw e refl | inr e ↦ rw e refl ]
  copies-keep eq p tx same (t ∷ queue) =
      let ih = copies-keep eq p tx same queue in
      let alike : eq t tx ≡ true → p t ≡ p tx = same t in
      elim (Bool-cases (p t)) [
        | inl e ↦ rw (keep-pass p t queue e) (elim (Bool-cases (eq t tx)) [
          | inl m ↦ let q = sym (alike m) ∙ e in rw m (rw q (ap (λ n. 1 + n) (ih ∙ rw q refl)))
          | inr m ↦ rw m (plus_zero (copies eq tx (keep p queue)) ∙ ih ∙ none_more (p tx))
        ])
        | inr e ↦ rw (keep-drop p t queue e) (elim (Bool-cases (eq t tx)) [
          | inl m ↦ let q = sym (alike m) ∙ e in rw q (ih ∙ rw q refl)
          | inr m ↦ rw m (ih ∙ none_more (p tx))
        ])
      ]
    where
      plus_zero : (n : ℕ) → 0 + n ≡ n
      plus_zero n = omega arith

      none_more :
          (b : Bool)
          → (if b then copies eq tx queue else 0) ≡ (if b then 0 + copies eq tx queue else 0)
      none_more b = ground arith

  -- Where the equality of transactions decides it: of a transaction that is given no copy is left
  -- in the queue, and of any other as many as before.
  pub copies-remove_multiple :
      (eq : T → T → Bool)
      → ((s t : T) → (eq s t ≡ true) ↔ (s ≡ t))
      → (txs queue : List T) (tx : T)
      → copies eq tx (remove_multiple eq txs queue)
        ≡ (if set_contains eq txs tx then 0 else copies eq tx queue)
  unfolding remove_multiple
  copies-remove_multiple eq law txs queue tx =
      copies-keep eq (λ t. not (set_contains eq txs t)) tx
        (λ t e. ap (λ x. not (set_contains eq txs x)) ((law t tx).0 e)) queue
      ∙ flipped (set_contains eq txs tx)
    where
      flipped :
          (b : Bool)
          → (if not b then copies eq tx queue else 0) ≡ (if b then 0 else copies eq tx queue)
      flipped true = refl
      flipped false = refl

  copies-take-le :
      (eq : T → T → Bool) (tx : T) (n : ℕ) (queue : List T)
      → copies eq tx (take n queue) ≤ copies eq tx queue
  copies-take-le eq tx zero queue = omega arith
  copies-take-le eq tx (suc n) [] = omega arith
  copies-take-le eq tx (suc n) (t ∷ queue) = omega (arith, copies-take-le eq tx n queue)

  length-take : (n : ℕ) (queue : List T) → n ≤ length queue → length (take n queue) ≡ n
  length-take zero queue h = refl
  length-take (suc n) [] h = absurd (omega arith)
  length-take (suc n) (t ∷ queue) h = ap suc (length-take n queue (omega arith))

  -- What `choose_multiple` is documented to do: it chooses as many elements as it is asked for,
  -- or all if there are less, and none more often than it is there.
  pub record Chooses {R : Type 0} (eq : T → T → Bool) (choose_multiple : R → List T → ℕ → List T)
      : Type 0 where
    pub size :
        (rng : R) (txs : List T) (n : ℕ)
        → length (choose_multiple rng txs n) ≡ (if leb n (length txs) then n else length txs)
    pub present :
        (rng : R) (txs : List T) (n : ℕ) (tx : T)
        → copies eq tx (choose_multiple rng txs n) ≤ copies eq tx txs

  -- For a choice that does what it is documented to do: a queue does not panic, and chooses the
  -- least of the amount asked for, the batch size and its length, and no transaction more often
  -- than it holds it.
  pub choose_lem :
      {R : Type 0} (eq : T → T → Bool) (choose_multiple : R → List T → ℕ → List T)
      → Chooses eq choose_multiple
      → (rng : R) (amount batch_size : ℕ) (queue : List T)
      → (chosen : List T) × (choose choose_multiple rng amount batch_size queue ≡ some chosen)
        × (((length chosen ≡ amount) ⊎ (length chosen ≡ batch_size))
            ⊎ (length chosen ≡ length queue))
        × (length chosen ≤ amount)
        × (length chosen ≤ batch_size)
        × (length chosen ≤ length queue)
        × ((tx : T) → copies eq tx chosen ≤ copies eq tx queue)
  unfolding choose slice_to
  choose_lem eq choose_multiple law rng amount batch_size queue =
      let limit = if leb batch_size (length queue) then batch_size else length queue in
      let inside : leb limit (length queue) ≡ true = ground arith in
      let size = law.size rng (take limit queue) amount in
      let full = length-take limit queue (ground arith) in
      (
        choose_multiple rng (take limit queue) amount,
        rw (choose, slice_to, inside) refl,
        ground (arith, size, full),
        ground (arith, size, full),
        ground (arith, size, full),
        ground (arith, size, full),
        λ tx.
            omega (
              arith,
              law.present rng (take limit queue) amount tx,
              copies-take-le eq tx limit queue,
            ),
      )
