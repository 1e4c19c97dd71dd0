-- ===== src/Client/Ranges/Scan.antt =====
-- `bitmapToRanges` describes exactly the set bits, in runs that are as long as can be.
use misaka_network.Client.Bitmap.Sets.{IsIndex}
use misaka_network.Client.Bitmap.{Bytes, bitmap_has, bit_at}
use misaka_network.Common.{
  Bool, Bool-cases, List, Option, [], arith, false, inl, inr, leb, length, ltb, min, none, some,
  suc, zero, ℕ, ◌&&◌, ◌*◌, ◌+◌, ◌-◌, ◌<◌, ◌||◌, ◌∷◌, ◌≡◌, ◌≤◌,
}
use misaka_network.Client.Ranges.{Range, covers, scan, bitmap_to_ranges}

-- The runs stand apart and in order: each begins beyond the end of the one before.
abbrev pub Apart : ℕ → List Range → Type 0
Apart lo [] = Unit
Apart lo ((s, l) ∷ rs) = (lo ≤ s) × (1 ≤ l) × Apart (s + l + 1) rs

-- The open run, as a list of indexes below `idx`.
abbrev in_run : Option ℕ → ℕ → ℕ → Bool
in_run none idx j = false
in_run (some r) idx j = leb r j && ltb j idx

abbrev RunBelow : Option ℕ → ℕ → Type 0
RunBelow none idx = Unit
RunBelow (some r) idx = r < idx

covers-scan :
    (is_set : ℕ → Bool) (n idx j : ℕ) (run : Option ℕ)
    → RunBelow run idx
    → covers (scan is_set n idx run) j
      ≡ (in_run run idx j || (leb idx j && ltb j (idx + n) && is_set j))
unfolding scan
covers-scan is_set zero idx j none b = ground arith
covers-scan is_set zero idx j (some r) b = ground arith
covers-scan is_set (suc n) idx j none b = elim (Bool-cases (is_set idx)) [
  | inl on ↦ rw on (ground (arith, on, covers-scan is_set n (idx + 1) j (some idx) (omega arith)))
  | inr off ↦ rw off (ground (arith, off, covers-scan is_set n (idx + 1) j none tt))
]
covers-scan is_set (suc n) idx j (some r) b = elim (Bool-cases (is_set idx)) [
  | inl on ↦ rw on (ground (arith, on, covers-scan is_set n (idx + 1) j (some r) (omega arith)))
  | inr off ↦ rw off (ground (arith, off, covers-scan is_set n (idx + 1) j none tt))
]

-- Where the next run may begin.
abbrev floor : Option ℕ → ℕ → ℕ → ℕ
floor none lo idx = lo
floor (some r) lo idx = r

scan-Apart :
    (is_set : ℕ → Bool) (n idx lo : ℕ) (run : Option ℕ)
    → RunBelow run idx
    → lo ≤ floor run idx idx
    → Apart lo (scan is_set n idx run)
unfolding scan
scan-Apart is_set zero idx lo none b h = tt
scan-Apart is_set zero idx lo (some r) b h = ground arith
scan-Apart is_set (suc n) idx lo none b h = elim (Bool-cases (is_set idx)) [
  | inl on ↦ rw on (scan-Apart is_set n (idx + 1) lo (some idx) (omega arith) h)
  | inr off ↦ rw off (scan-Apart is_set n (idx + 1) lo none tt (omega arith))
]
scan-Apart is_set (suc n) idx lo (some r) b h = elim (Bool-cases (is_set idx)) [
  | inl on ↦ rw on (scan-Apart is_set n (idx + 1) lo (some r) (omega arith) h)
  | inr off ↦
      rw off
        (h, omega arith, scan-Apart is_set n (idx + 1) (r + (idx - r) + 1) none tt (omega arith))
]

-- The runs cover exactly the set bits below `total`.
pub covers-to_ranges :
    (buf : Bytes) (total j : ℕ)
    → IsIndex j
    → covers (bitmap_to_ranges buf total) j ≡ (ltb j total && bitmap_has buf j)
unfolding bitmap_to_ranges bitmap_has
covers-to_ranges buf total j h =
    rw (covers-scan (bit_at buf) (min total (length buf * 8)) 0 j none tt) (ground arith)

-- They are sorted, not empty and never adjacent, so no shorter list covers the same bits.
pub to_ranges-Apart : (buf : Bytes) (total : ℕ) → Apart 0 (bitmap_to_ranges buf total)
unfolding bitmap_to_ranges
to_ranges-Apart buf total =
    scan-Apart (bit_at buf) (min total (length buf * 8)) 0 0 none tt (omega arith)
