-- ===== src/Client/Ranges/Normalize.antt =====
-- `validateAndNormalizeRanges`: what an untrusted list of runs turns into.
use misaka_network.Common.{
  All, All-append, Bool, Bool-cases, List, [], any, any-append, arith, false, inl, inr, leb, length,
  ltb, max, refl, ℕ, ◌&&◌, ◌+◌, ◌-◌, ◌||◌, ◌∷◌, ◌≡◌, ◌≤◌,
}
use misaka_network.Client.Ranges.{
  Range, covers, natural, WireRange, pair, WireRanges, no_array, array, clamp, clamp_all, insert,
  sort, merge, merge_all, max_range_count, validate_and_normalize_ranges,
}
use misaka_network.Client.Ranges.Scan.{Apart}

-- Whether an entry is a run of chunks, and has `j` in it.
abbrev pub wire_covers : ℕ → WireRange → Bool
wire_covers j (pair (natural start) (natural len)) = leb start j && ltb j (start + len)
wire_covers j _ = false

covers-clamp :
    (total : ℕ) (w : WireRange) (j : ℕ)
    → covers (clamp total w) j ≡ (ltb j total && wire_covers j w)
unfolding clamp
covers-clamp total (pair (natural start) (natural len)) j = ground arith
covers-clamp total _ j = ground arith

covers-clamp_all :
    (total : ℕ) (ws : List WireRange) (j : ℕ)
    → covers (clamp_all total ws) j ≡ (ltb j total && any (wire_covers j) ws)
unfolding clamp_all
covers-clamp_all total [] j = ground arith
covers-clamp_all total (w ∷ ws) j =
    rw
      (any-append (λ (r : Range). leb r.0 j && ltb j (r.0 + r.1)) (clamp total w)
        (clamp_all total ws))
      (ground (arith, covers-clamp total w j, covers-clamp_all total ws j))

-- Every run is not empty and ends by the total.
abbrev Within : ℕ → List Range → Type 0
Within total = All (λ r. (1 ≤ r.1) × (r.0 + r.1 ≤ total))

clamp-Within : (total : ℕ) (w : WireRange) → Within total (clamp total w)
unfolding clamp
clamp-Within total (pair (natural start) (natural len)) = ground arith
clamp-Within total _ = tt

clamp_all-Within : (total : ℕ) (ws : List WireRange) → Within total (clamp_all total ws)
unfolding clamp_all
clamp_all-Within total [] = tt
clamp_all-Within total (w ∷ ws) =
    All-append _ (clamp total w) (clamp_all total ws) (clamp-Within total w)
      (clamp_all-Within total ws)

-- The starts rise, from `lo` on.
abbrev Sorted : ℕ → List Range → Type 0
Sorted lo [] = Unit
Sorted lo ((s, l) ∷ rs) = (lo ≤ s) × Sorted s rs

Sorted-mono : (lo hi : ℕ) (rs : List Range) → lo ≤ hi → Sorted hi rs → Sorted lo rs
Sorted-mono lo hi [] h s = tt
Sorted-mono lo hi ((s, l) ∷ rs) h t = (omega arith, t.1)

insert-Sorted :
    (lo s l : ℕ) (qs : List Range) → lo ≤ s → Sorted lo qs → Sorted lo (insert (s, l) qs)
unfolding insert
insert-Sorted lo s l [] h t = (h, tt)
insert-Sorted lo s l ((q, m) ∷ qs) h t = ground (arith, insert-Sorted q s l qs, Sorted-mono s q qs)

sort-Sorted : (rs : List Range) → Sorted 0 (sort rs)
unfolding sort
sort-Sorted [] = tt
sort-Sorted ((s, l) ∷ rs) = insert-Sorted 0 s l (sort rs) (omega arith) (sort-Sorted rs)

insert-Within :
    (total : ℕ) (r : Range) (qs : List Range)
    → (1 ≤ r.1) × (r.0 + r.1 ≤ total)
    → Within total qs
    → Within total (insert r qs)
unfolding insert
insert-Within total r [] h t = (h, tt)
insert-Within total r (q ∷ qs) h t = ground (arith, insert-Within total r qs h t.1)

sort-Within : (total : ℕ) (rs : List Range) → Within total rs → Within total (sort rs)
unfolding sort
sort-Within total [] h = tt
sort-Within total (r ∷ rs) h = insert-Within total r (sort rs) h.0 (sort-Within total rs h.1)

module _ (j : ℕ) where
  covers-insert : (r : Range) (qs : List Range) → covers (insert r qs) j ≡ covers (r ∷ qs) j
  unfolding insert
  covers-insert r [] = refl
  covers-insert r (q ∷ qs) = ground (arith, covers-insert r qs)

  covers-sort : (rs : List Range) → covers (sort rs) j ≡ covers rs j
  unfolding sort
  covers-sort [] = refl
  covers-sort (r ∷ rs) = ground (arith, covers-insert r (sort rs), covers-sort rs)

  covers-merge :
      (cs cl : ℕ) (rs : List Range)
      → Sorted cs rs
      → covers (merge cs cl rs) j ≡ covers ((cs, cl) ∷ rs) j
  unfolding merge
  covers-merge cs cl [] h = refl
  covers-merge cs cl ((s, l) ∷ rs) h = ground (
    arith,
    covers-merge cs (max (cs + cl) (s + l) - cs) rs,
    covers-merge s l rs h.1,
    Sorted-mono cs s rs h.0 h.1,
  )

merge-Apart :
    (lo cs cl : ℕ) (rs : List Range)
    → lo ≤ cs
    → 1 ≤ cl
    → Sorted cs rs
    → All (λ r. 1 ≤ r.1) rs
    → Apart lo (merge cs cl rs)
unfolding merge
merge-Apart lo cs cl [] h k t w = (h, k, tt)
merge-Apart lo cs cl ((s, l) ∷ rs) h k t w = elim (Bool-cases (leb s (cs + cl))) [
  | inl near ↦ rw near (
      merge-Apart lo cs (max (cs + cl) (s + l) - cs) rs h (omega (arith, w.0))
        (Sorted-mono cs s rs t.0 t.1) w.1)
  | inr far ↦ rw far (h, k, merge-Apart (cs + cl + 1) s l rs (ground arith) w.0 t.1 w.1)
]

merge-Within :
    (total cs cl : ℕ) (rs : List Range)
    → 1 ≤ cl
    → cs + cl ≤ total
    → Sorted cs rs
    → Within total rs
    → Within total (merge cs cl rs)
unfolding merge
merge-Within total cs cl [] h k t w = ((h, k), tt)
merge-Within total cs cl ((s, l) ∷ rs) h k t w = elim (Bool-cases (leb s (cs + cl))) [
  | inl near ↦ rw near (
      merge-Within total cs (max (cs + cl) (s + l) - cs) rs (omega (arith, w.0, t.0))
        (omega (arith, w.0, t.0)) (Sorted-mono cs s rs t.0 t.1) w.1)
  | inr far ↦ rw far ((h, k), merge-Within total s l rs w.0.0 w.0.1 t.1 w.1)
]

covers-merge_all : (j : ℕ) (rs : List Range) → Sorted 0 rs → covers (merge_all rs) j ≡ covers rs j
unfolding merge_all
covers-merge_all j [] h = refl
covers-merge_all j ((s, l) ∷ rs) h = covers-merge j s l rs h.1

-- What comes out covers exactly the chunks below the total that some well-formed entry covers,
-- unless there is no total, or the list is longer than the cap: then it covers nothing.
pub covers-normalize :
    (ws : List WireRange) (total j : ℕ)
    → covers (validate_and_normalize_ranges (array ws) total) j
      ≡ (leb (length ws) max_range_count && ltb j total && any (wire_covers j) ws)
unfolding validate_and_normalize_ranges
covers-normalize ws total j = ground (
  arith,
  covers-merge_all j (sort (clamp_all total ws)) (sort-Sorted (clamp_all total ws)),
  covers-sort j (clamp_all total ws),
  covers-clamp_all total ws j,
)

merge_all-Apart :
    (total : ℕ) (rs : List Range) → Sorted 0 rs → Within total rs → Apart 0 (merge_all rs)
unfolding merge_all
merge_all-Apart total [] h w = tt
merge_all-Apart total ((s, l) ∷ rs) h w = merge-Apart 0 s l rs h.0 w.0.0 h.1 (nonempty rs w.1)
  where
    nonempty : (qs : List Range) → Within total qs → All (λ r. 1 ≤ r.1) qs
    nonempty [] v = tt
    nonempty (q ∷ qs) v = (v.0.0, nonempty qs v.1)

merge_all-Within :
    (total : ℕ) (rs : List Range) → Sorted 0 rs → Within total rs → Within total (merge_all rs)
unfolding merge_all
merge_all-Within total [] h w = tt
merge_all-Within total ((s, l) ∷ rs) h w = merge-Within total s l rs w.0.0 w.0.1 h.1 w.1

-- Whatever comes off the wire, the result is sorted, its runs are not empty, none touches the next,
-- and none reaches beyond the total.
pub normalize-Apart :
    (raw : WireRanges) (total : ℕ)
    → Apart 0 (validate_and_normalize_ranges raw total)
      × All (λ r. (1 ≤ r.1) × (r.0 + r.1 ≤ total)) (validate_and_normalize_ranges raw total)
unfolding validate_and_normalize_ranges
normalize-Apart no_array total = (tt, tt)
normalize-Apart (array ws) total =
    elim (Bool-cases (leb total 0 || ltb max_range_count (length ws))) [
      | inl refused ↦ rw refused (tt, tt)
      | inr taken ↦
          let sorted = sort-Sorted (clamp_all total ws) in
          let within = sort-Within total (clamp_all total ws) (clamp_all-Within total ws) in
          rw taken (
            merge_all-Apart total (sort (clamp_all total ws)) sorted within,
            merge_all-Within total (sort (clamp_all total ws)) sorted within,
          )
    ]
