-- ===== src/Client/Bitmap/Sets.antt =====
-- Reading a bit after a write, and what a write keeps.
use Prim.Native.Nat.{bit_or}
use misaka_network.Common.{
  All, All-get_or, All-replicate, All-set, Bool-cases, List, [], any, arith, false, get_or,
  get_or-replicate, get_or-set_ne, get_or-set_self, inl, inr, leb, length, length-replicate,
  length-set, ltb, ltb→lt, nat_eq, not, set, ℕ, ◌%◌, ◌&&◌, ◌*◌, ◌+◌, ◌/◌, ◌<◌, ◌^◌, ◌||◌, ◌∷◌, ◌≡◌,
}
use misaka_network.Client.Bitmap.{
  Bytes, shr3, bit_at, bitmap_has, bitmap_set, new_bitmap, bitmap_byte_length, set_all,
  bitmap_from_indexes,
}
use misaka_network.Client.Bitmap.Bytes.{test_bit-bit_or, bit_or-lt, zero_byte}

-- Every entry of the array is a byte.
abbrev pub IsBytes : Bytes → Type 0
IsBytes = All (λ v. v < 256)

-- An index that `>>>` does not wrap.
abbrev pub IsIndex : ℕ → Type 0
IsIndex idx = idx < 2 ^ 32

module _ (buf : Bytes) (i j : ℕ) (bytes : IsBytes buf) (hi : IsIndex i) (hj : IsIndex j) where
  bit_at-set :
      shr3 i < length buf
      → bit_at (set buf (shr3 i) (bit_or (get_or buf (shr3 i) 0) (2 ^ (i % 8)))) j
        ≡ (nat_eq i j || bit_at buf j)
  unfolding bit_at
  bit_at-set room = elim (Bool-cases (nat_eq (shr3 i) (shr3 j))) [
    | inl same ↦
        let e : shr3 j ≡ shr3 i = ground arith in
        rw (e, get_or-set_self buf (shr3 i) (bit_or (get_or buf (shr3 i) 0) (2 ^ (i % 8))) 0 room)
          (ground (
            arith,
            test_bit-bit_or (get_or buf (shr3 i) 0) (i % 8) (j % 8)
                (All-get_or (λ v. v < 256) buf (shr3 i) 0 bytes (omega arith)) (omega arith)
                (omega arith),
          ))
    | inr differ ↦
        rw
          (get_or-set_ne buf (shr3 i) (shr3 j) (bit_or (get_or buf (shr3 i) 0) (2 ^ (i % 8))) 0
            (ground arith))
          (ground arith)
  ]

  -- After a write to an index of the buffer, that bit is set and every other bit is as it was; a
  -- write outside changes nothing.
  pub has-set :
      bitmap_has (bitmap_set buf i).1 j
      ≡ (bitmap_has buf j || (nat_eq i j && ltb (shr3 i) (length buf)))
  unfolding bitmap_has bitmap_set
  has-set = elim (Bool-cases (ltb (shr3 i) (length buf))) [
    | inl room ↦ ground (
      arith,
      bit_at-set (ltb→lt _ _ room),
      length-set buf (shr3 i) (bit_or (get_or buf (shr3 i) 0) (2 ^ (i % 8))),
    )
    | inr out ↦ ground arith
  ]

  -- A write reports whether the bit went from 0 to 1.
  pub set-verdict : (bitmap_set buf i).0 ≡ (not (bitmap_has buf i) && ltb (shr3 i) (length buf))
  unfolding bitmap_has bitmap_set
  set-verdict = ground arith

  pub set-IsBytes : IsBytes (bitmap_set buf i).1
  unfolding bitmap_set
  set-IsBytes = elim (Bool-cases (ltb (shr3 i) (length buf))) [
    | inl room ↦ ground (
      arith,
      All-set (λ v. v < 256) buf (shr3 i) (bit_or (get_or buf (shr3 i) 0) (2 ^ (i % 8))) bytes
          (bit_or-lt (get_or buf (shr3 i) 0) (i % 8)
            (All-get_or (λ v. v < 256) buf (shr3 i) 0 bytes (omega arith)) (omega arith)),
    )
    | inr out ↦ ground arith
  ]

  pub length-bitmap_set : length (bitmap_set buf i).1 ≡ length buf
  unfolding bitmap_set
  length-bitmap_set =
      ground (arith, length-set buf (shr3 i) (bit_or (get_or buf (shr3 i) 0) (2 ^ (i % 8))))

pub new_bitmap-IsBytes : (total : ℕ) → IsBytes (new_bitmap total)
unfolding new_bitmap
new_bitmap-IsBytes total = All-replicate (λ v. v < 256) (bitmap_byte_length total) 0 (omega arith)

pub has-new_bitmap : (total j : ℕ) → bitmap_has (new_bitmap total) j ≡ false
unfolding bitmap_has new_bitmap bit_at
has-new_bitmap total j = elim (Bool-cases (leb (length (new_bitmap total)) (shr3 j))) [
  | inl out ↦ rw out
  | inr inside ↦
      rw (inside, get_or-replicate {A = ℕ} (bitmap_byte_length total) (shr3 j) 0)
        (zero_byte (j % 8) (omega arith))
]

-- The indexes that a bitmap for `total` chunks has room for: whole bytes of them.
abbrev pub capacity : ℕ → ℕ
capacity total = (total + 7) / 8 * 8

pub length-new_bitmap :
    (total : ℕ) → total + 7 < 2 ^ 32 → length (new_bitmap total) * 8 ≡ capacity total
unfolding new_bitmap bitmap_byte_length
length-new_bitmap total h = ground (arith, length-replicate {A = ℕ} (bitmap_byte_length total) 0)

pub has-set_all :
    (buf : Bytes) (xs : List ℕ) (j : ℕ)
    → IsBytes buf
    → All IsIndex xs
    → IsIndex j
    → bitmap_has (set_all buf xs) j
      ≡ (bitmap_has buf j || (any (nat_eq j) xs && ltb (shr3 j) (length buf)))
unfolding set_all
has-set_all buf [] j b h hj = ground arith
has-set_all buf (x ∷ xs) j b h hj = ground (
  arith,
  has-set_all (bitmap_set buf x).1 xs j (set-IsBytes buf x j b h.0 hj) h.1 hj,
  has-set buf x j b h.0 hj,
  length-bitmap_set buf x j b h.0 hj,
)

-- A bitmap that is built from a list has exactly the bits of the list that it has room for: those
-- below `total` rounded up to whole bytes. The indexes from `total` up to there are not dropped.
pub has-from_indexes :
    (xs : List ℕ) (total j : ℕ)
    → total + 7 < 2 ^ 32
    → All IsIndex xs
    → IsIndex j
    → bitmap_has (bitmap_from_indexes xs total) j ≡ (any (nat_eq j) xs && ltb j (capacity total))
unfolding bitmap_from_indexes
has-from_indexes xs total j h hx hj = ground (
  arith,
  has-set_all (new_bitmap total) xs j (new_bitmap-IsBytes total) hx hj,
  has-new_bitmap total j,
  length-new_bitmap total h,
)
