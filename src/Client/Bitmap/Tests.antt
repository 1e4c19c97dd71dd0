-- ===== src/Client/Bitmap/Tests.antt =====
-- The bitmap on concrete bytes.
use misaka_network.Client.Bitmap.Refines.{
  Query, note, ask, received, tally, answers, set_answers, nothing, bitmap_refines,
}
use misaka_network.Common.{List, [], any, arith, ltb, nat_eq, refl, true, ◌&&◌, ◌∷◌, ◌≡◌}
use misaka_network.Client.Bitmap.{
  Bytes, bitmap_has, bitmap_set, bitmap_from_indexes, set_all, bit_at, test_bit, new_bitmap,
  bitmap_byte_length,
}
use misaka_network.Client.Bitmap.Sets.{IsBytes, has-from_indexes, capacity}

abbrev two_bytes : Bytes
two_bytes = 5 ∷ 128 ∷ []

abbrev two_bytes-IsBytes : IsBytes two_bytes
two_bytes-IsBytes = (omega arith, (omega arith, tt))

has-from_indexes_example :
    bitmap_has (bitmap_from_indexes (3 ∷ 11 ∷ []) 10) 11
    ≡ (any (nat_eq 11) (3 ∷ 11 ∷ []) && ltb 11 (capacity 10))
has-from_indexes_example =
    has-from_indexes (3 ∷ 11 ∷ []) 10 11 (omega arith) (omega arith, (omega arith, tt))
      (omega arith)

-- Index 11 is not below the total of 10, and its bit is set all the same.
padding_kept : bitmap_has (bitmap_from_indexes (3 ∷ 11 ∷ []) 10) 11 ≡ true
unfolding bitmap_has bitmap_from_indexes set_all bitmap_set bit_at test_bit new_bitmap
    bitmap_byte_length
padding_kept = refl

-- Two chunks and a repeated one; index 11 is past the total.
abbrev queries : List Query
queries = note 3 ∷ note 11 ∷ note 3 ∷ ask 9 ∷ received ∷ tally ∷ []

bitmap_refines_example : answers 10 (new_bitmap 10) queries ≡ set_answers 10 nothing queries
bitmap_refines_example =
    bitmap_refines 10 queries (omega arith)
      (omega arith, (omega arith, (omega arith, (omega arith, (tt, (tt, tt))))))
