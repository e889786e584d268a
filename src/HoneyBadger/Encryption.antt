-- ===== src/HoneyBadger/Encryption.antt =====
-- src/honey_badger/honey_badger.rs: how many epochs an encryption schedule encrypts.
use hbbft.Prelude.{
  ℕ, zero, suc, ◌+◌, ◌*◌, ◌-◌, ◌^◌, ◌≤◌, ◌<◌, ◌≡◌, refl, subst, ◌∙◌, Bool, false, leb, ◌==◌, flag,
  if◌then◌else◌, arith, Outcome, ok, err, panicked, exhausted,
}
use native.Mathlib.Nat.{mod-eq_of_lt, mul-add-mod_self_left}
use hbbft.HoneyBadger.Schedule.{
  EncryptionSchedule, every_nth_epoch, tick_tock, remainder, use_on_epoch,
}

abbrev passes : Outcome (Unit {0}) Bool → Bool
passes (ok b) = b
passes (err e) = false
passes panicked = false
passes exhausted = false

-- How many of the `n` epochs from `start` on are encrypted.
unfoldable pub encrypted : EncryptionSchedule → ℕ → ℕ → ℕ
encrypted schedule start zero = 0
encrypted schedule start (suc n) =
    flag (passes (use_on_epoch schedule start)) + encrypted schedule (suc start) n

remainder-lt :
    (p k i : ℕ) (test : ℕ → Bool)
    → i < p
    → remainder {E = Unit {0}} (p * k + i) p test ≡ ok (test i)
remainder-lt zero k i test h = absurd (omega arith)
remainder-lt (suc p) k i test h =
    rw (mul-add-mod_self_left (suc p) k i) (rw (mod-eq_of_lt {n = i} {m = suc p} h) refl)

-- The epochs of a period that a schedule encrypts, if these are the ones up to `last`.
encrypted-part :
    (schedule : EncryptionSchedule) (p k last : ℕ)
    → ((i : ℕ) → i < p → passes (use_on_epoch schedule (p * k + i)) ≡ leb i last)
    → (n i : ℕ) → i + n ≤ p
    → encrypted schedule (p * k + i) n ≡ (if leb (i + n) (suc last) then n else (suc last - i))
unfolding encrypted
encrypted-part schedule p k last each zero i h = ground arith
encrypted-part schedule p k last each (suc n) i h =
    let rest = encrypted-part schedule p k last each n (suc i) (omega arith) in
    let here = each i (omega arith) in
    let next : suc (p * k + i) ≡ p * k + suc i = omega arith in
    rw here (rw next (rw rest (ground arith)))

-- In every period of n epochs the schedule EveryNthEpoch(n) encrypts one, and in every period of
-- on + off epochs the schedule TickTock(on, off) encrypts on + 1, for n and off above zero and
-- on + off below 2 ^ 32.
pub encrypted-periods :
    (k n on off : ℕ)
    → 1 ≤ n
    → 1 ≤ off
    → on + off < 2 ^ 32
    → (encrypted (every_nth_epoch n) (n * k) n ≡ 1)
      × (encrypted (tick_tock on off) ((on + off) * k) (on + off) ≡ on + 1)
unfolding use_on_epoch
encrypted-periods k n on off some_n some_off small =
    let nth =
      encrypted-part (every_nth_epoch n) n k 0
        (λ i h. rw (remainder-lt n k i (λ r. r == 0) h) (first i)) n 0 (omega arith) in
    let p = on + off in
    let tick =
      encrypted-part (tick_tock on off) p k on
        (λ i h.
          rw (mod-eq_of_lt {n = p} {m = 2 ^ 32} small)
            (rw (remainder-lt p k i (λ r. leb r on) h) refl))
        p 0 (omega arith) in
    (
      subst (λ x. encrypted (every_nth_epoch n) x n ≡ 1) (end n) (nth ∙ ground arith),
      subst (λ x. encrypted (tick_tock on off) x p ≡ on + 1) (end p) (tick ∙ ground arith),
    )
  where
    first : (i : ℕ) → (i == 0) ≡ leb i 0
    first i = ground arith

    end : (m : ℕ) → m * k + 0 ≡ m * k
    end m = omega arith
