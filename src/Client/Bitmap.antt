-- ===== src/Client/Bitmap.antt =====
-- client/src/lib/chunk-bitmap.ts: which chunks of a transfer are there, a bit for each.
-- A `Uint8Array` is the list of its bytes. `>>>` works on the value modulo 2^32; an index is never
-- negative, so the tests `idx < 0` have no counterpart.
pub mod Bytes
pub mod Sets
pub mod Indexes
pub mod Refines
pub mod Tests
use Prim.Native.Nat.{bit_and, bit_or}
use misaka_network.Common.{
  Bool, List, [], false, get_or, if◌then◌else◌, leb, length, min, nat_eq, not, replicate, set, suc,
  true, zero, ℕ, ◌%◌, ◌&&◌, ◌*◌, ◌++◌, ◌+◌, ◌-◌, ◌/◌, ◌^◌, ◌∷◌,
}

abbrev pub Bytes : Type 0
Bytes = List ℕ

abbrev pub u32 : ℕ → ℕ
u32 n = n % 2 ^ 32

-- `n >>> 3`
abbrev pub shr3 : ℕ → ℕ
shr3 n = u32 n / 8

pub bitmap_byte_length : ℕ → ℕ
bitmap_byte_length total_chunks = if leb total_chunks 0 then 0 else shr3 (total_chunks + 7)

pub new_bitmap : ℕ → Bytes
unfolding bitmap_byte_length
new_bitmap total_chunks = replicate (bitmap_byte_length total_chunks) 0

-- `(v & (1 << k)) !== 0`
unfoldable pub test_bit : ℕ → ℕ → Bool
test_bit v k = not (nat_eq (bit_and v (2 ^ k)) 0)

-- The byte's test, where `idx` has passed the bounds check.
unfoldable pub bit_at : Bytes → ℕ → Bool
unfolding test_bit
bit_at buf idx = test_bit (get_or buf (shr3 idx) 0) (idx % 8)

unfoldable pub bitmap_has : Bytes → ℕ → Bool
bitmap_has buf idx = if leb (length buf) (shr3 idx) then false else bit_at buf idx

-- Whether the bit went from 0 to 1, and the buffer after the write.
pub bitmap_set : Bytes → ℕ → Bool × Bytes
bitmap_set buf idx =
    let byte = shr3 idx in
    if leb (length buf) byte
    then (false, buf)
    else if bit_at buf idx
    then (false, buf)
    else (true, set buf byte (bit_or (get_or buf byte 0) (2 ^ (idx % 8))))

-- The bits of one byte, counted in parallel: `v - ((v >> 1) & 0x55)` and so on.
unfoldable pub popcount_byte : ℕ → ℕ
popcount_byte v =
    let a = v - bit_and (v / 2) 0x55 in
    let b = bit_and a 0x33 + bit_and (a / 4) 0x33 in bit_and (b + b / 16) 0x0f

pub bitmap_popcount : Bytes → ℕ
bitmap_popcount [] = 0
bitmap_popcount (v ∷ buf) = popcount_byte v + bitmap_popcount buf

unfoldable pub set_all : Bytes → List ℕ → Bytes
set_all buf [] = buf
set_all buf (idx ∷ rest) = set_all (bitmap_set buf idx).1 rest

pub bitmap_from_indexes : List ℕ → ℕ → Bytes
unfolding set_all
bitmap_from_indexes indexes total_chunks = set_all (new_bitmap total_chunks) indexes

-- The set bits from `bit` on, in the byte `v` that starts at index `base`: `n` bits are left.
pub byte_indexes : ℕ → ℕ → ℕ → ℕ → ℕ → List ℕ
byte_indexes zero v base bit limit = []
byte_indexes (suc n) v base bit limit =
    let rest = byte_indexes n v base (bit + 1) limit in
    if leb limit (base + bit) then [] else if test_bit v bit then (base + bit) ∷ rest else rest

all_indexes : Bytes → ℕ → ℕ → List ℕ
all_indexes [] base limit = []
all_indexes (v ∷ buf) base limit =
    let rest = all_indexes buf (base + 8) limit in
    if nat_eq v 0 then rest else byte_indexes 8 v base 0 limit ++ rest

pub bitmap_to_indexes : Bytes → ℕ → List ℕ
unfolding all_indexes byte_indexes
bitmap_to_indexes buf total_chunks = all_indexes buf 0 (min total_chunks (length buf * 8))
