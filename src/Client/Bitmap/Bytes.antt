-- ===== src/Client/Bitmap/Bytes.antt =====
-- The bits of one byte, checked value by value.
use Prim.Native.Nat.{bit_or}
use misaka_network.Common.{
  ℕ, ◌<◌, ◌^◌, Bool, true, false, ◌||◌, ◌≡◌, refl, arith, ltb, not, length, nat_eq, nat_eq_iff,
  all_below, all_below_sound, ltb→lt,
}
use misaka_network.Client.Bitmap.{test_bit, popcount_byte, byte_indexes}

-- Bits are equal: `a ↔ b` as a test.
abbrev same : Bool → Bool → Bool
same true b = b
same false true = false
same false false = true

same→eq : (a b : Bool) → same a b ≡ true → a ≡ b
same→eq a b h = ground arith

set_cell : ℕ → ℕ → ℕ → Bool
set_cell v i j = same (test_bit (bit_or v (2 ^ i)) j) (nat_eq i j || test_bit v j)

set_row : ℕ → ℕ → Bool
set_row v i = all_below 8 (set_cell v i)

set_plane : ℕ → Bool
set_plane v = all_below 8 (set_row v)

set_table : all_below 256 set_plane ≡ true
unfolding all_below test_bit set_cell set_row set_plane
set_table = refl

range_cell : ℕ → ℕ → Bool
range_cell v i = ltb (bit_or v (2 ^ i)) 256

range_row : ℕ → Bool
range_row v = all_below 8 (range_cell v)

range_table : all_below 256 range_row ≡ true
unfolding all_below range_cell range_row
range_table = refl

-- A byte with one more bit.
pub test_bit-bit_or :
    (v i j : ℕ)
    → v < 256
    → i < 8
    → j < 8
    → test_bit (bit_or v (2 ^ i)) j ≡ (nat_eq i j || test_bit v j)
unfolding set_cell set_row set_plane
test_bit-bit_or v i j hv hi hj =
    let plane = all_below_sound 256 set_plane v set_table hv in
    let row = all_below_sound 8 (set_row v) i plane hi in
    same→eq _ _ (all_below_sound 8 (set_cell v i) j row hj)

pub bit_or-lt : (v i : ℕ) → v < 256 → i < 8 → bit_or v (2 ^ i) < 256
unfolding range_cell range_row
bit_or-lt v i hv hi =
    let row = all_below_sound 256 range_row v range_table hv in
    ltb→lt _ _ (all_below_sound 8 (range_cell v) i row hi)

zero_table : all_below 8 (λ k. not (test_bit 0 k)) ≡ true
unfolding all_below test_bit
zero_table = refl

pub zero_byte : (k : ℕ) → k < 8 → test_bit 0 k ≡ false
zero_byte k h = ground (arith, all_below_sound 8 (λ k. not (test_bit 0 k)) k zero_table h)

count_cell : ℕ → Bool
count_cell v = nat_eq (popcount_byte v) (length (byte_indexes 8 v 0 0 8))

count_table : all_below 256 count_cell ≡ true
unfolding all_below test_bit popcount_byte byte_indexes count_cell
count_table = refl

-- The parallel count of a byte is the number of the bits that are found one by one.
pub popcount_byte-length : (v : ℕ) → v < 256 → popcount_byte v ≡ length (byte_indexes 8 v 0 0 8)
unfolding count_cell
popcount_byte-length v hv = (nat_eq_iff _ _).0 (all_below_sound 256 count_cell v count_table hv)
