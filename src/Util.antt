-- ===== src/Util.antt =====
-- src/util.rs: the number of faulty nodes that a network tolerates.
use hbbft.Prelude.{
  ℕ, ◌+◌, ◌-◌, ◌*◌, ◌/◌, ◌≤◌, ◌<◌, ◌≡◌, ◌↔◌, Option, none, some, arith, ltb, if◌then◌else◌,
}

-- `none` is the panic of the assertion `n > 0`.
unfoldable pub max_faulty : ℕ → Option ℕ
max_faulty n = if ltb 0 n then some ((n - 1) / 3) else none

-- The result is the greatest number below a third of `n`, and a network with no node is refused:
-- `f` is returned exactly when `3 f < n ≤ 3 f + 3`.
pub max_faulty-greatest : (n f : ℕ) → (max_faulty n ≡ some f) ↔ ((3 * f < n) × (n ≤ 3 * f + 3))
unfolding max_faulty
max_faulty-greatest n f = ground arith
