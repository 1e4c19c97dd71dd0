-- ===== src/Client/Bitmap/Refines.antt =====
-- The bitmap implements a set of chunk indexes.
use misaka_network.Client.Bitmap.Sets.{
  capacity, IsIndex, IsBytes, has-set, set-verdict, set-IsBytes, length-bitmap_set,
  new_bitmap-IsBytes, has-new_bitmap, length-new_bitmap,
}
use misaka_network.Client.Bitmap.Indexes.{
  Rising, Rising-mono, any-to_indexes, any-to_indexes_out, to_indexes-Rising, popcount-length,
}
use misaka_network.Client.Bitmap.{
  Bytes, bitmap_set, bitmap_has, bitmap_to_indexes, bitmap_popcount, new_bitmap,
}
use misaka_network.Common.{
  All, Bool, Bool-cases, List, [], any, ap, arith, false, if◌then◌else◌, inl, inr, leb, length, ltb,
  nat_eq, nat_eq_iff, not, refl, suc, sym, zero, ℕ, ◌&&◌, ◌*◌, ◌+◌, ◌<◌, ◌^◌, ◌||◌, ◌∙◌, ◌∷◌, ◌≡◌,
  ◌≤◌,
}

-- What a transfer does with its bitmap: note a chunk, ask for one, list and count those it has.
pub data Query : Type 0 where
  note ask : ℕ → Query
  received tally : Query

pub data Answer : Type 0 where
  verdict : Bool → Answer
  indexes : List ℕ → Answer
  number : ℕ → Answer

unfoldable pub answer : ℕ → Bytes → Query → Answer × Bytes
answer total buf (note i) = (verdict (bitmap_set buf i).0, (bitmap_set buf i).1)
answer total buf (ask i) = (verdict (bitmap_has buf i), buf)
answer total buf received = (indexes (bitmap_to_indexes buf total), buf)
answer total buf tally = (number (bitmap_popcount buf), buf)

unfoldable pub answers : ℕ → Bytes → List Query → List Answer
unfolding answer
answers total buf [] = []
answers total buf (q ∷ qs) = (answer total buf q).0 ∷ answers total (answer total buf q).1 qs

abbrev pub Chunks : Type 0
Chunks = ℕ → Bool

abbrev pub add : ℕ → Chunks → ℕ → Chunks
add room s i j = s j || (nat_eq i j && ltb i room)

-- The members of a set among `n` numbers from `base` on, in order.
unfoldable pub members : Chunks → ℕ → ℕ → List ℕ
members s base zero = []
members s base (suc n) = let rest = members s (base + 1) n in if s base then base ∷ rest else rest

-- The same of a set: a number has room below `capacity total`.
unfoldable pub set_answer : ℕ → Chunks → Query → Answer × Chunks
unfolding members
set_answer total s (note i) =
    (verdict (not (s i) && ltb i (capacity total)), add (capacity total) s i)
set_answer total s (ask i) = (verdict (s i), s)
set_answer total s received = (indexes (members s 0 total), s)
set_answer total s tally = (number (length (members s 0 (capacity total))), s)

unfoldable pub set_answers : ℕ → Chunks → List Query → List Answer
unfolding set_answer
set_answers total s [] = []
set_answers total s (q ∷ qs) =
    (set_answer total s q).0 ∷ set_answers total (set_answer total s q).1 qs

abbrev pub nothing : Chunks
nothing j = false

abbrev pub IsQuery : Query → Type 0
IsQuery (note i) = IsIndex i
IsQuery (ask i) = IsIndex i
IsQuery received = Unit
IsQuery tally = Unit

-- Lists that rise and have the same members are equal.
Rising-low : (lo j : ℕ) (xs : List ℕ) → Rising lo xs → j < lo → any (nat_eq j) xs ≡ false
Rising-low lo j [] r h = refl
Rising-low lo j (x ∷ xs) r h =
    let rest = Rising-low (x + 1) j xs r.1 (omega (arith, r.0, h)) in ground (arith, r.0)

heads_meet :
    (x y : ℕ) (xs ys : List ℕ)
    → Rising (x + 1) xs
    → Rising (y + 1) ys
    → ((j : ℕ) → any (nat_eq j) (x ∷ xs) ≡ any (nat_eq j) (y ∷ ys))
    → x ≡ y
heads_meet x y xs ys rx ry same = elim (Bool-cases (ltb x y)) [
  | inl below ↦
      let e = same x in absurd (ground (arith, e, Rising-low (y + 1) x ys ry (ground arith)))
  | inr above ↦ elim (Bool-cases (ltb y x)) [
    | inl less ↦
        let e = same y in absurd (ground (arith, e, Rising-low (x + 1) y xs rx (ground arith)))
    | inr equal ↦ ground arith
  ]
]

equal_by_members :
    (lo hi : ℕ) (xs ys : List ℕ)
    → Rising lo xs
    → Rising hi ys
    → ((j : ℕ) → any (nat_eq j) xs ≡ any (nat_eq j) ys)
    → xs ≡ ys
equal_by_members lo hi [] [] rx ry same = refl
equal_by_members lo hi [] (y ∷ ys) rx ry same = let e = same y in absurd (ground arith)
equal_by_members lo hi (x ∷ xs) [] rx ry same = let e = same x in absurd (ground arith)
equal_by_members lo hi (x ∷ xs) (y ∷ ys) rx ry same =
    let e : x ≡ y = heads_meet x y xs ys rx.1 ry.1 same in
    let tails : xs ≡ ys = equal_by_members (x + 1) (y + 1) xs ys rx.1 ry.1 (λ j.
      elim (Bool-cases (nat_eq j x)) [
        | inl here ↦
            let at : j ≡ x = (nat_eq_iff j x).0 here in
            Rising-low (x + 1) j xs rx.1 (omega (arith, at))
            ∙ sym (Rising-low (y + 1) j ys ry.1 (omega (arith, at, e)))
        | inr there ↦ let h = same j in ground (arith, e, h, there)
      ]) in
    rw (e, tails) refl

any-members :
    (s : Chunks) (base n j : ℕ)
    → any (nat_eq j) (members s base n) ≡ (leb base j && ltb j (base + n) && s j)
unfolding members
any-members s base zero j = ground arith
any-members s base (suc n) j = elim (Bool-cases (nat_eq j base)) [
  | inl here ↦
      let e : j ≡ base = (nat_eq_iff j base).0 here in
      rw e (ground (arith, any-members s (base + 1) n base))
  | inr there ↦ ground (arith, there, any-members s (base + 1) n j)
]

members-Rising : (s : Chunks) (base n : ℕ) → Rising base (members s base n)
unfolding members
members-Rising s base zero = tt
members-Rising s base (suc n) = elim (Bool-cases (s base)) [
  | inl there ↦ rw there (omega arith, members-Rising s (base + 1) n)
  | inr gone ↦ rw gone (
      Rising-mono base (base + 1) (members s (base + 1) n) (omega arith)
        (members-Rising s (base + 1) n))
]

-- The bytes are a bitmap of the set.
record Holds (total : ℕ) (buf : Bytes) (s : Chunks) : Type 0 where
  bytes : IsBytes buf
  size : length buf * 8 ≡ capacity total
  bits : (j : ℕ) → IsIndex j → bitmap_has buf j ≡ s j

module _ (total : ℕ) (fits : total + 7 < 2 ^ 32) (buf : Bytes) (s : Chunks)
    (r : Holds total buf s) where
  listed : (n : ℕ) → n ≤ 2 ^ 32 → bitmap_to_indexes buf n ≡ members s 0 n
  listed n h =
      equal_by_members 0 0 (bitmap_to_indexes buf n) (members s 0 n) (to_indexes-Rising buf n)
        (members-Rising s 0 n)
        (λ j. elim (Bool-cases (ltb j n)) [
          | inl below ↦
              let index : IsIndex j = ground (arith, below) in
              any-to_indexes buf n j r.bytes index
              ∙ ground (arith, below, r.bits j index, any-members s 0 n j)
          | inr out ↦
              any-to_indexes_out buf n j r.bytes out ∙ ground (arith, out, any-members s 0 n j)
        ])

  noted : (i : ℕ) → IsIndex i → Holds total (bitmap_set buf i).1 (add (capacity total) s i)
  noted i hi = record {
    bytes = set-IsBytes buf i i r.bytes hi hi;
    size = rw (length-bitmap_set buf i i r.bytes hi hi) r.size;
    bits = λ j hj. has-set buf i j r.bytes hi hj ∙ rw (r.bits j hj) (ground (arith, r.size));
  }

  answered :
      (q : Query)
      → IsQuery q
      → ((answer total buf q).0 ≡ (set_answer total s q).0)
        × Holds total (answer total buf q).1 (set_answer total s q).1
  unfolding answer set_answer
  answered (note i) h = (
    ap verdict (set-verdict buf i i r.bytes h h ∙ rw (r.bits i h) (ground (arith, r.size))),
    noted i h,
  )
  answered (ask i) h = (ap verdict (r.bits i h), r)
  answered received h = (ap indexes (listed total (omega (arith, fits))), r)
  answered tally h = (
    ap number (
        popcount-length buf (capacity total) r.bytes (omega (arith, r.size))
        ∙ ap length (listed (capacity total) (omega (arith, fits)))),
    r,
  )

run-answers :
    (total : ℕ) (buf : Bytes) (s : Chunks) (qs : List Query)
    → total + 7 < 2 ^ 32
    → Holds total buf s
    → All IsQuery qs
    → answers total buf qs ≡ set_answers total s qs
unfolding answers set_answers
run-answers total buf s [] fits r h = refl
run-answers total buf s (q ∷ qs) fits r h =
    let (same, next) = answered total fits buf s r q h.0 in
    rw (same, run-answers total (answer total buf q).1 (set_answer total s q).1 qs fits next h.1)
      refl

-- A bitmap cannot be told from a set. Whatever chunks are noted and asked for, listed and counted,
-- in any order, the bitmap of a transfer answers as the set does that starts empty and that has
-- room for the chunks, rounded up to whole bytes: a note says whether the chunk is new, the list is
-- that of the members below `total` in order, the count that of all members.
pub bitmap_refines :
    (total : ℕ) (qs : List Query)
    → total + 7 < 2 ^ 32
    → All IsQuery qs
    → answers total (new_bitmap total) qs ≡ set_answers total nothing qs
bitmap_refines total qs fits h =
    run-answers total (new_bitmap total) nothing qs fits
      (record {
        bytes = new_bitmap-IsBytes total;
        size = length-new_bitmap total fits;
        bits = λ j hj. has-new_bitmap total j;
      })
      h
