-- ===== src/Broadcast/Coding.antt =====
-- src/broadcast/broadcast.rs: `Coding`, over the crate `reed_solomon_erasure`, which is a
-- parameter.
use hbbft.Prelude.{ℕ, Option, none, some, List, all, is_some, ltb, if◌then◌else◌}

-- What the code calls of the crate. `none` is an error of the crate; the shards after a failed
-- call are not used.
pub record ReedSolomon : Type 1 where
  pub Codec : Type 0
  pub create : ℕ → ℕ → Option Codec
  pub data_shard_count : Codec → ℕ
  pub parity_shard_count : Codec → ℕ
  pub encode : Codec → List (List ℕ) → Option (List (List ℕ))
  pub reconstruct_shards : Codec → List (Option (List ℕ)) → Option (List (Option (List ℕ)))

pub data Coding (R : ReedSolomon) : Type 0 where
  reed_solomon : R.Codec → Coding R
  trivial : ℕ → Coding R

module _ {R : ReedSolomon} where
  unfoldable pub new : ℕ → ℕ → Option (Coding R)
  new data_shard_num parity_shard_num =
      if ltb 0 parity_shard_num
      then elim (R.create data_shard_num parity_shard_num) [
        | none ↦ none
        | some rs ↦ some (reed_solomon rs)
      ]
      else some (trivial data_shard_num)

  unfoldable pub data_shard_count : Coding R → ℕ
  data_shard_count (reed_solomon rs) = R.data_shard_count rs
  data_shard_count (trivial dsc) = dsc

  unfoldable pub parity_shard_count : Coding R → ℕ
  parity_shard_count (reed_solomon rs) = R.parity_shard_count rs
  parity_shard_count (trivial dsc) = 0

  unfoldable pub encode : Coding R → List (List ℕ) → Option (List (List ℕ))
  encode (reed_solomon rs) slices = R.encode rs slices
  encode (trivial dsc) slices = some slices

  unfoldable pub reconstruct_shards :
      Coding R → List (Option (List ℕ)) → Option (List (Option (List ℕ)))
  reconstruct_shards (reed_solomon rs) shards = R.reconstruct_shards rs shards
  reconstruct_shards (trivial dsc) shards = if all is_some shards then some shards else none
