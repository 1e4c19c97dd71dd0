-- ===== src/Client/Ranges/RoundTrip.antt =====
-- Runs back into a bitmap.
use misaka_network.Client.Ranges.Scan.{covers-to_ranges}
use misaka_network.Client.Bitmap.Sets.{
  IsBytes, IsIndex, has-set_all, new_bitmap-IsBytes, has-new_bitmap, length-new_bitmap, set-IsBytes,
  length-bitmap_set,
}
use misaka_network.Client.Ranges.Normalize.{wire_covers, normalize-Apart, covers-normalize}
use misaka_network.Common.{
  All, List, [], any, ap, arith, leb, length, ltb, nat_eq, refl, suc, zero, ℕ, ◌&&◌, ◌+◌, ◌<◌, ◌^◌,
  ◌||◌, ◌∙◌, ◌∷◌, ◌≡◌, ◌≤◌,
}
use misaka_network.Client.Bitmap.{Bytes, shr3, bitmap_has, bitmap_set, set_all, new_bitmap}
use misaka_network.Client.Ranges.{
  Range, covers, run_indexes, set_runs, to_wire, array, max_range_count, bitmap_to_ranges,
  ranges_to_bitmap, validate_and_normalize_ranges,
}

any-run_indexes :
    (start n j : ℕ) → any (nat_eq j) (run_indexes start n) ≡ (leb start j && ltb j (start + n))
any-run_indexes start zero j = ground arith
any-run_indexes start (suc n) j = ground (arith, any-run_indexes (start + 1) n j)

run_indexes-IsIndex : (start n : ℕ) → start + n < 2 ^ 32 → All IsIndex (run_indexes start n)
run_indexes-IsIndex start zero h = tt
run_indexes-IsIndex start (suc n) h = (omega arith, run_indexes-IsIndex (start + 1) n (omega arith))

set_all-IsBytes :
    (buf : Bytes) (xs : List ℕ) → IsBytes buf → All IsIndex xs → IsBytes (set_all buf xs)
unfolding set_all
set_all-IsBytes buf [] b h = b
set_all-IsBytes buf (x ∷ xs) b h =
    set_all-IsBytes (bitmap_set buf x).1 xs (set-IsBytes buf x 0 b h.0 (omega arith)) h.1

length-set_all :
    (buf : Bytes) (xs : List ℕ)
    → IsBytes buf
    → All IsIndex xs
    → length (set_all buf xs) ≡ length buf
unfolding set_all
length-set_all buf [] b h = refl
length-set_all buf (x ∷ xs) b h =
    length-set_all (bitmap_set buf x).1 xs (set-IsBytes buf x 0 b h.0 (omega arith)) h.1
    ∙ length-bitmap_set buf x 0 b h.0 (omega arith)

has-set_runs :
    (buf : Bytes) (rs : List Range) (total j : ℕ)
    → total < 2 ^ 32
    → IsBytes buf
    → All (λ r. (1 ≤ r.1) × (r.0 + r.1 ≤ total)) rs
    → IsIndex j
    → bitmap_has (set_runs buf rs) j
      ≡ (bitmap_has buf j || (covers rs j && ltb (shr3 j) (length buf)))
unfolding set_runs
has-set_runs buf [] total j t b h hj = ground arith
has-set_runs buf ((s, n) ∷ rs) total j t b h hj =
    let idx = run_indexes-IsIndex s n (omega (arith, h.0.1)) in
    ground (
      arith,
      has-set_runs (set_all buf (run_indexes s n)) rs total j t
          (set_all-IsBytes buf (run_indexes s n) b idx) h.1 hj,
      has-set_all buf (run_indexes s n) j b idx hj,
      length-set_all buf (run_indexes s n) b idx,
      any-run_indexes s n j,
    )

length-to_wire : (rs : List Range) → length (to_wire rs) ≡ length rs
length-to_wire [] = refl
length-to_wire (r ∷ rs) = ap suc (length-to_wire rs)

any-to_wire : (rs : List Range) (j : ℕ) → any (wire_covers j) (to_wire rs) ≡ covers rs j
any-to_wire [] j = refl
any-to_wire (r ∷ rs) j = ground (arith, any-to_wire rs j)

-- The bitmap of a list of runs has exactly the chunks below the total that a run covers; a list
-- that is longer than the cap gives the empty bitmap.
pub has-ranges_to_bitmap :
    (rs : List Range) (total j : ℕ)
    → total + 7 < 2 ^ 32
    → IsIndex j
    → bitmap_has (ranges_to_bitmap rs total) j
      ≡ (leb (length rs) max_range_count && ltb j total && covers rs j)
unfolding ranges_to_bitmap
has-ranges_to_bitmap rs total j t hj = ground (
  arith,
  has-set_runs (new_bitmap total) (validate_and_normalize_ranges (array (to_wire rs)) total) total j
      (omega arith) (new_bitmap-IsBytes total) (normalize-Apart (array (to_wire rs)) total).1 hj,
  covers-normalize (to_wire rs) total j,
  has-new_bitmap total j,
  length-new_bitmap total t,
  length-to_wire rs,
  any-to_wire rs j,
)

-- A bitmap that is sent as runs and rebuilt has the same bits below the total, if it has no more
-- runs than the receiving side takes; with more runs than that, the rebuilt bitmap is empty.
pub bitmap_round_trip :
    (buf : Bytes) (total j : ℕ)
    → total + 7 < 2 ^ 32
    → IsIndex j
    → bitmap_has (ranges_to_bitmap (bitmap_to_ranges buf total) total) j ≡ (
        leb (length (bitmap_to_ranges buf total)) max_range_count
        && ltb j total
        && bitmap_has buf j)
bitmap_round_trip buf total j t hj = ground (
  arith,
  has-ranges_to_bitmap (bitmap_to_ranges buf total) total j t hj,
  covers-to_ranges buf total j hj,
)
