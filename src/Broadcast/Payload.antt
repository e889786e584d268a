-- ===== src/Broadcast/Payload.antt =====
-- src/broadcast/broadcast.rs: a value as shards of equal length (the first half of `send_shards`),
-- and the value out of its data shards (the second half of `decode_from_shards`).
pub mod RoundTrip
use hbbft.Prelude.{
  ℕ, zero, suc, ◌+◌, ◌-◌, ◌*◌, ◌/◌, ◌%◌, ◌^◌, Option, none, some, List, [], ◌∷◌, ◌++◌, length, take,
  drop, replicate,
}

-- `BigEndian::write_u32` of a number below 2 ^ 32.
unfoldable pub write_u32 : ℕ → List ℕ
write_u32 n = (n / 2 ^ 24) ∷ (n / 2 ^ 16 % 2 ^ 8) ∷ (n / 2 ^ 8 % 2 ^ 8) ∷ (n % 2 ^ 8) ∷ []

unfoldable pub read_u32 : ℕ → ℕ → ℕ → ℕ → ℕ
read_u32 b0 b1 b2 b3 = b0 * 2 ^ 24 + b1 * 2 ^ 16 + b2 * 2 ^ 8 + b3

-- The value behind its length, `as u32`, in four bytes.
unfoldable pub framed : List ℕ → List ℕ
unfolding write_u32
framed value = write_u32 (length value % 2 ^ 32) ++ value

unfoldable pub shard_len : ℕ → ℕ → ℕ
shard_len value_len data_shard_num = (value_len + data_shard_num - 1) / data_shard_num

-- `Vec::resize` with zeros.
unfoldable pub resize : ℕ → List ℕ → List ℕ
resize n xs = take n xs ++ replicate (n - length xs) 0

-- `chunks_mut` into the given number of chunks.
unfoldable pub chunks : ℕ → ℕ → List ℕ → List (List ℕ)
chunks zero len xs = []
chunks (suc n) len xs = take len xs ∷ chunks n len (drop len xs)

-- The shards before the parity is computed. The vector has been resized to a multiple of the
-- length of a shard, so the number of chunks is the number of shards.
unfoldable pub split : ℕ → ℕ → List ℕ → List (List ℕ)
split data_shard_num parity_shard_num value =
    let bytes = framed value in
    let len = shard_len (length bytes) data_shard_num in
    let shards = data_shard_num + parity_shard_num in
    chunks shards len (resize (len * shards) bytes)

unfoldable pub flatten : List (List ℕ) → List ℕ
flatten [] = []
flatten (xs ∷ xss) = xs ++ flatten xss

-- The payload of the glued data shards; `none` if there is not even a size.
unfoldable pub unframe : List ℕ → Option (List ℕ)
unfolding read_u32
unframe (b0 ∷ b1 ∷ b2 ∷ b3 ∷ bytes) = some (take (read_u32 b0 b1 b2 b3) bytes)
unframe _ = none

unfoldable pub glue : ℕ → List (List ℕ) → Option (List ℕ)
glue count shards = unframe (flatten (take count shards))
