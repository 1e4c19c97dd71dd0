-- ===== src/Client/Transfer/Geometry.antt =====
-- client/src/lib/transfer/protocol.ts, client/src/constants.ts: how a file is cut into chunks.
use misaka_network.Common.{
  Bool, arith, if◌then◌else◌, ltb, min, nat_eq, suc, true, zero, ℕ, ◌*◌, ◌+◌, ◌-◌, ◌/◌, ◌<◌, ◌≡◌,
  ◌≤◌,
}

abbrev pub chunk_size : ℕ
chunk_size = 252 * 1024

-- Math.ceil of the quotient, below 2 ^ 53.
unfoldable pub expected_chunk_count : ℕ → ℕ
expected_chunk_count file_size =
    if nat_eq file_size 0 then 0 else (file_size + (chunk_size - 1)) / chunk_size

-- `-` stops at 0, as Math.max makes the source do.
unfoldable pub expected_chunk_length : ℕ → ℕ → ℕ
expected_chunk_length file_size index = min chunk_size (file_size - index * chunk_size)

-- For an index that is a natural number, as those of the frames are.
unfoldable pub is_valid_chunk_index : ℕ → ℕ → Bool
is_valid_chunk_index index total_chunks = ltb index total_chunks

-- The bytes of the first chunks.
unfoldable pub sum_lengths : ℕ → ℕ → ℕ
unfolding expected_chunk_length
sum_lengths file_size zero = 0
sum_lengths file_size (suc n) = sum_lengths file_size n + expected_chunk_length file_size n

sum_lengths-min : (file_size n : ℕ) → sum_lengths file_size n ≡ min file_size (n * chunk_size)
unfolding sum_lengths expected_chunk_length
sum_lengths-min file_size zero = ground arith
sum_lengths-min file_size (suc n) = ground (arith, sum_lengths-min file_size n)

-- The chunks of a file add up to it, and each of them lies in it and is not empty.
pub chunks_tile :
    (file_size index : ℕ)
    → is_valid_chunk_index index (expected_chunk_count file_size) ≡ true
    → (sum_lengths file_size (expected_chunk_count file_size) ≡ file_size)
      × (0 < expected_chunk_length file_size index)
      × (index * chunk_size + expected_chunk_length file_size index ≤ file_size)
unfolding is_valid_chunk_index expected_chunk_count expected_chunk_length
chunks_tile file_size index valid = (
  ground (arith, sum_lengths-min file_size (expected_chunk_count file_size)),
  ground arith,
  ground arith,
)
