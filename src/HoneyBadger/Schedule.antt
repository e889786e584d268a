-- ===== src/HoneyBadger/Schedule.antt =====
-- src/honey_badger/params.rs, and the encryption schedule of src/honey_badger/honey_badger.rs.
use hbbft.Prelude.{ℕ, zero, suc, ◌+◌, ◌%◌, ◌^◌, Bool, true, false, leb, ◌==◌, ok, panicked, Outcome}

pub data SubsetHandlingStrategy : Type 0 where
  incremental : SubsetHandlingStrategy
  all_at_end : SubsetHandlingStrategy

-- The numbers are of type `u32`.
pub data EncryptionSchedule : Type 0 where
  always : EncryptionSchedule
  never : EncryptionSchedule
  every_nth_epoch : ℕ → EncryptionSchedule
  tick_tock : ℕ → ℕ → EncryptionSchedule

-- The remainder of a division by zero panics.
abbrev pub remainder : {E : Type 0} → ℕ → ℕ → (ℕ → Bool) → Outcome E Bool
remainder epoch zero test = panicked
remainder epoch (suc n) test = ok (test (epoch % suc n))

-- The sum of the two numbers wraps, as `u32` does.
unfoldable pub use_on_epoch : {E : Type 0} → EncryptionSchedule → ℕ → Outcome E Bool
use_on_epoch always epoch = ok true
use_on_epoch never epoch = ok false
use_on_epoch (every_nth_epoch n) epoch = remainder epoch n (λ r. r == 0)
use_on_epoch (tick_tock on off) epoch = remainder epoch ((on + off) % 2 ^ 32) (λ r. leb r on)

pub record Params : Type 0 where
  pub max_future_epochs : ℕ
  pub subset_handling_strategy : SubsetHandlingStrategy
  pub encryption_schedule : EncryptionSchedule

-- `Params::default`.
abbrev pub default : Params
default = record {
  max_future_epochs = 3;
  subset_handling_strategy = incremental;
  encryption_schedule = always;
}
